-- ===== src/Middleware/Passage.antt =====
-- Which requests the IP filter and the CSRF check let through.
use w1t.Base.{
  String, Bool, true, false, not, ◌&&◌, ◌||◌, ◌≡◌, ◌≢◌, refl, sym, ap, ◌⊎◌, inl, inr, ◌↔◌, List, [],
  ◌∷◌, Option, none, some, arith, str_eq, str_eq_iff, str_eq_refl, exists, if◌then◌else◌,
}
use w1t.Middleware.{
  IpRule, next, blocked, matches, is_denied, has_allow_rules, is_allowed, filter_ip, ip_filter,
  is_safe, is_exempt, check_token, csrf,
}

blocked_is_not_next : blocked ≢ next
blocked_is_not_next e = ground arith

passes :
    (d h a : Bool)
    → ((if d then blocked else if h && not a then blocked else next) ≡ next)
      ↔ ((d ≡ false) × ((h ≡ false) ⊎ (a ≡ true)))
passes true h a = ((λ e. absurd (blocked_is_not_next e)), λ p. ground arith)
passes false true true = ((λ e. (refl, inr refl)), λ p. refl)
passes false true false = ((λ e. absurd (blocked_is_not_next e)), λ p. ground arith)
passes false false a = ((λ e. (refl, inl refl)), λ p. refl)

module _ {Ip : Type 0} (contains : String → Ip → Option Bool) (ip : Ip) where
  -- A rule of the action covers the address.
  abbrev pub covers : String → IpRule → Bool
  covers action r = str_eq r.action action && matches contains r ip

  abbrev pub has_action : String → IpRule → Bool
  has_action action r = str_eq r.action action

  denied_exists : (rs : List IpRule) → is_denied contains rs ip ≡ exists (covers "deny") rs
  unfolding is_denied
  denied_exists [] = refl
  denied_exists (r ∷ rs) = rw (denied_exists rs) (either (covers "deny" r))
    where
      either :
          (b : Bool)
          → (if b then true else exists (covers "deny") rs) ≡ (b || exists (covers "deny") rs)
      either true = refl
      either false = refl

  allow_exists : (rs : List IpRule) → has_allow_rules contains rs ≡ exists (has_action "allow") rs
  unfolding has_allow_rules
  allow_exists [] = refl
  allow_exists (r ∷ rs) = rw (allow_exists rs) (either (has_action "allow" r))
    where
      either :
          (b : Bool)
          → (if b then true else exists (has_action "allow") rs)
            ≡ (b || exists (has_action "allow") rs)
      either true = refl
      either false = refl

  allowed_exists : (rs : List IpRule) → is_allowed contains rs ip ≡ exists (covers "allow") rs
  unfolding is_allowed
  allowed_exists [] = refl
  allowed_exists (r ∷ rs) =
      rw (allowed_exists rs) (either (has_action "allow" r) (matches contains r ip))
    where
      either :
          (b c : Bool)
          → (if not b
              then exists (covers "allow") rs
              else if c
              then true
              else exists (covers "allow") rs)
            ≡ (b && c || exists (covers "allow") rs)
      either true true = refl
      either true false = refl
      either false c = refl

  -- However CIDR blocks are read: an address that can be read passes the IP
  -- rules just where no deny rule covers it and, if there are allow rules, one
  -- of them covers it.
  pub ip_filter-next :
      (rules : List IpRule)
      → (ip_filter contains (some rules) (some ip) ≡ next) ↔ (
          (exists (covers "deny") rules ≡ false)
          × ((exists (has_action "allow") rules ≡ false) ⊎ (exists (covers "allow") rules ≡ true)))
  unfolding ip_filter filter_ip
  ip_filter-next [] = ((λ _. (refl, inl refl)), λ _. refl)
  ip_filter-next (r ∷ rs) =
      rw (denied_exists (r ∷ rs))
        (rw (allow_exists (r ∷ rs)) (rw (allowed_exists (r ∷ rs)) (passes _ _ _)))

-- The methods and the paths that the check leaves alone.
abbrev pub SafeMethod : String → Type 0
SafeMethod method = (method ≡ "GET") ⊎ ((method ≡ "HEAD") ⊎ (method ≡ "OPTIONS"))

abbrev pub ExemptPath : String → Type 0
ExemptPath path =
    (path ≡ "/api/auth/login") ⊎ ((path ≡ "/api/auth/refresh") ⊎ (path ≡ "/api/setup/admin"))

-- The request repeats the cookie in its header.
abbrev pub TokenMatches : Option String → String → Type 0
TokenMatches cookie header = (cookie ≡ some header) × (header ≢ "")

one_of : (a b : Bool) → a || b ≡ true → (a ≡ true) ⊎ (b ≡ true)
one_of true b h = inl refl
one_of false b h = inr h

safe_method : (method : String) → is_safe method ≡ true → SafeMethod method
safe_method method h = elim (one_of _ _ h) [
  | inl get ↦ inl ((str_eq_iff _ _).0 get)
  | inr more ↦ elim (one_of _ _ more) [
    | inl head ↦ inr (inl ((str_eq_iff _ _).0 head))
    | inr options ↦ inr (inr ((str_eq_iff _ _).0 options))
  ]
]

exempt_path : (path : String) → is_exempt path ≡ true → ExemptPath path
exempt_path path h = elim (one_of _ _ h) [
  | inl login ↦ inl ((str_eq_iff _ _).0 login)
  | inr more ↦ elim (one_of _ _ more) [
    | inl refresh ↦ inr (inl ((str_eq_iff _ _).0 refresh))
    | inr admin ↦ inr (inr ((str_eq_iff _ _).0 admin))
  ]
]

token_matches :
    (cookie : Option String) (header : String)
    → check_token cookie header ≡ next
    → TokenMatches cookie header
token_matches none header h = absurd (blocked_is_not_next h)
token_matches (some cookie) header h =
    tested _ _ (str_eq_iff header "").1 (str_eq_iff header cookie).0 h
  where
    tested :
        (empty same : Bool)
        → (header ≡ "" → empty ≡ true)
        → (same ≡ true → header ≡ cookie)
        → (if empty || not same then blocked else next) ≡ next
        → (some cookie ≡ some header) × (header ≢ "")
    tested true same e f p = absurd (blocked_is_not_next p)
    tested false true e f p = (ap some (sym (f refl)), λ q. absurd (ground (arith, e q)))
    tested false false e f p = absurd (blocked_is_not_next p)

method_is_safe : (method : String) → SafeMethod method → is_safe method ≡ true
unfolding str_eq
method_is_safe method (inl e) = rw e refl
method_is_safe method (inr (inl e)) = rw e refl
method_is_safe method (inr (inr e)) = rw e refl

path_is_exempt : (path : String) → ExemptPath path → is_exempt path ≡ true
unfolding str_eq
path_is_exempt path (inl e) = rw e refl
path_is_exempt path (inr (inl e)) = rw e refl
path_is_exempt path (inr (inr e)) = rw e refl

token_passes :
    (cookie : Option String) (header : String)
    → TokenMatches cookie header
    → check_token cookie header ≡ next
token_passes cookie header (same, full) =
    rw same (tested _ _ (λ e. full ((str_eq_iff header "").0 e)) (str_eq_refl header))
  where
    tested :
        (empty same : Bool)
        → ¬ (empty ≡ true)
        → same ≡ true
        → (if empty || not same then blocked else next) ≡ next
    tested true same f e = absurd (f refl)
    tested false same f e = rw e refl

-- A request passes the CSRF check just where its method is GET, HEAD or
-- OPTIONS, its path is one of the three exempt paths, or its header is not
-- empty and is the value of the cookie.
pub csrf-next :
    (method path : String) (cookie : Option String) (header : String)
    → (csrf method path cookie header ≡ next)
      ↔ (SafeMethod method ⊎ (ExemptPath path ⊎ TokenMatches cookie header))
unfolding csrf
csrf-next method path cookie header =
    tested _ _ (safe_method method, method_is_safe method) (exempt_path path, path_is_exempt path)
      (token_matches cookie header, token_passes cookie header)
  where
    tested :
        {S E T : Type 0} (safe exempt : Bool)
        → (safe ≡ true) ↔ S
        → (exempt ≡ true) ↔ E
        → (check_token cookie header ≡ next) ↔ T
        → ((if safe then next else if exempt then next else check_token cookie header) ≡ next)
          ↔ (S ⊎ (E ⊎ T))
    tested true exempt s e t = ((λ p. inl (s.0 refl)), λ q. refl)
    tested false true s e t = ((λ p. inr (inl (e.0 refl))), λ q. refl)
    tested false false s e t = (
      (λ p. inr (inr (t.0 p))),
      λ q. elim q [
        | inl x ↦ absurd (ground (arith, s.1 x))
        | inr (inl x) ↦ absurd (ground (arith, e.1 x))
        | inr (inr x) ↦ t.1 x
      ],
    )
