-- ===== src/Messages/Language.antt =====
-- What the patterns match, said without a search, and that the search finds it.
use w1t.Base.{
  ℕ, Bool, true, false, ◌&&◌, ◌||◌, ◌≡◌, refl, sym, ap, subst, ◌∙◌, ◌⊎◌, inl, inr, ◌↔◌, List, [],
  ◌∷◌, ◌++◌, Option, none, some, All,
}
use w1t.Messages.Pii.{
  Regex, class, many, boundary, optional, followed_by, word_at, first, xor, Rest, match_many,
  match_class, match_here, any_rest, match_from, match_string, PiiType, ssn, phone_number,
  email_address, pattern_of, note, pii_types, is_nonempty, detect_pii, ssn_regex, phone_regex,
  email_regex,
}

-- The byte before what follows `text`.
abbrev pub last_of : Option ℕ → List ℕ → Option ℕ
last_of prev [] = prev
last_of prev (c ∷ cs) = last_of (some c) cs

-- The pattern accepts `text`, which stands between `prev` and `post`.
abbrev pub Accepts : Regex → Option ℕ → List ℕ → List ℕ → Type 0
Accepts (class p) prev text post = (c : ℕ) × (text ≡ c ∷ []) × (p c ≡ true)
Accepts (many p) prev text post = All (λ c. p c ≡ true) text
Accepts boundary prev text post = (text ≡ []) × (xor (word_at prev) (word_at (first post)) ≡ true)
Accepts (optional r) prev text post = (text ≡ []) ⊎ Accepts r prev text post
Accepts (followed_by r s) prev text post =
    (a : List ℕ) × (b : List ℕ) × (text ≡ a ++ b)
    × Accepts r prev a (b ++ post)
    × Accepts s (last_of prev a) b post

-- `text` begins with what the pattern accepts, and the rest matches.
abbrev Begins : Regex → Rest → Option ℕ → List ℕ → Type 0
Begins r k prev text =
    (m : List ℕ) × (post : List ℕ) × (text ≡ m ++ post)
    × Accepts r prev m post
    × (k (last_of prev m) post ≡ true)

both : (a b : Bool) → a && b ≡ true → (a ≡ true) × (b ≡ true)
both true b h = (refl, h)
both false b h = cc

either : (a b : Bool) → a || b ≡ true → (a ≡ true) ⊎ (b ≡ true)
either true b h = inl refl
either false b h = inr h

or_left : (a b : Bool) → a ≡ true → a || b ≡ true
or_left a b h = rw h refl

or_right : (a b : Bool) → b ≡ true → a || b ≡ true
or_right true b h = refl
or_right false b h = h

and_intro : (a b : Bool) → a ≡ true → b ≡ true → a && b ≡ true
and_intro a b h k = rw h k

append_assoc : (a b c : List ℕ) → (a ++ b) ++ c ≡ a ++ (b ++ c)
append_assoc [] b c = refl
append_assoc (x ∷ a) b c = ap (λ (l : List ℕ). x ∷ l) (append_assoc a b c)

last_of-append :
    (prev : Option ℕ) (a b : List ℕ) → last_of prev (a ++ b) ≡ last_of (last_of prev a) b
last_of-append prev [] b = refl
last_of-append prev (x ∷ a) b = last_of-append (some x) a b

match_many-Begins :
    (p : ℕ → Bool) (k : Rest) (prev : Option ℕ) (text : List ℕ)
    → match_many p k prev text ≡ true
    → Begins (many p) k prev text
unfolding match_many
match_many-Begins p k prev [] h = ([], [], refl, tt, h)
match_many-Begins p k prev (c ∷ cs) h = elim (either _ _ h) [
  | inl stop ↦ ([], c ∷ cs, refl, tt, stop)
  | inr go ↦ longer (both _ _ go).0 (match_many-Begins p k (some c) cs (both _ _ go).1)
]
  where
    longer : p c ≡ true → Begins (many p) k (some c) cs → Begins (many p) k prev (c ∷ cs)
    longer pc (m, post, e, all, rest) = (c ∷ m, post, ap (λ (l : List ℕ). c ∷ l) e, (pc, all), rest)

many-match :
    (p : ℕ → Bool) (k : Rest) (prev : Option ℕ) (m post : List ℕ)
    → All (λ c. p c ≡ true) m
    → k (last_of prev m) post ≡ true
    → match_many p k prev (m ++ post) ≡ true
unfolding match_many
many-match p k prev [] [] all h = h
many-match p k prev [] (c ∷ cs) all h = or_left _ _ h
many-match p k prev (c ∷ m) post all h =
    or_right _ _ (and_intro _ _ all.0 (many-match p k (some c) m post all.1 h))

-- A match is found only where the pattern accepts.
match_here-Begins :
    (r : Regex) (k : Rest) (prev : Option ℕ) (text : List ℕ)
    → match_here r k prev text ≡ true
    → Begins r k prev text
unfolding match_here
match_here-Begins (class p) k prev [] h = cc
match_here-Begins (class p) k prev (c ∷ cs) h =
    (c ∷ [], cs, refl, (c, refl, (both _ _ h).0), (both _ _ h).1)
match_here-Begins (many p) k prev text h = match_many-Begins p k prev text h
match_here-Begins boundary k prev text h = ([], text, refl, (refl, (both _ _ h).0), (both _ _ h).1)
match_here-Begins (optional r) k prev text h = elim (either _ _ h) [
  | inl skip ↦ ([], text, refl, inl refl, skip)
  | inr take ↦ used (match_here-Begins r k prev text take)
]
  where
    used : Begins r k prev text → Begins (optional r) k prev text
    used (m, post, e, a, rest) = (m, post, e, inr a, rest)
match_here-Begins (followed_by r s) k prev text h =
    joined (match_here-Begins s k) (match_here-Begins r (match_here s k) prev text h)
  where
    finish :
        (m post : List ℕ)
        → text ≡ m ++ post
        → Accepts r prev m post
        → Begins s k (last_of prev m) post
        → Begins (followed_by r s) k prev text
    finish m post e a (n, rest, e', b, found) = (
      m ++ n,
      rest,
      e ∙ ap (λ (l : List ℕ). m ++ l) e' ∙ sym (append_assoc m n rest),
      (m, n, refl, subst (λ l. Accepts r prev m l) e' a, b),
      subst (λ q. k q rest ≡ true) (sym (last_of-append prev m n)) found,
    )

    joined :
        ((q : Option ℕ) (t : List ℕ) → match_here s k q t ≡ true → Begins s k q t)
        → Begins r (match_here s k) prev text
        → Begins (followed_by r s) k prev text
    joined ih (m, post, e, a, rest) = finish m post e a (ih (last_of prev m) post rest)

class_match :
    (p : ℕ → Bool) (k : Rest) (prev : Option ℕ) (c : ℕ) (m post : List ℕ)
    → m ≡ c ∷ []
    → p c ≡ true
    → k (last_of prev m) post ≡ true
    → match_class p k prev (m ++ post) ≡ true
class_match p k prev c m post e pc h =
    subst (λ (l : List ℕ). match_class p k prev (l ++ post) ≡ true) (sym e)
      (and_intro _ _ pc (subst (λ (l : List ℕ). k (last_of prev l) post ≡ true) e h))

-- Every such place is found.
accepted_match :
    (r : Regex) (k : Rest) (prev : Option ℕ) (m post : List ℕ)
    → Accepts r prev m post
    → k (last_of prev m) post ≡ true
    → match_here r k prev (m ++ post) ≡ true
unfolding match_here
accepted_match (class p) k prev m post (c, e, pc) h = class_match p k prev c m post e pc h
accepted_match (many p) k prev m post all h = many-match p k prev m post all h
accepted_match boundary k prev m post (e, edge) h =
    subst
      (λ (l : List ℕ).
        xor (word_at prev) (word_at (first (l ++ post))) && k prev (l ++ post) ≡ true)
      (sym e) (and_intro _ _ edge (subst (λ (l : List ℕ). k (last_of prev l) post ≡ true) e h))
accepted_match (optional r) k prev m post (inl e) h = or_left _ _ (
    subst (λ (l : List ℕ). k prev (l ++ post) ≡ true) (sym e)
      (subst (λ (l : List ℕ). k (last_of prev l) post ≡ true) e h))
accepted_match (optional r) k prev m post (inr a) h =
    or_right _ _ (accepted_match r k prev m post a h)
accepted_match (followed_by r s) k prev m post (a, b, e, ra, sb) h =
    subst (λ (l : List ℕ). match_here r (match_here s k) prev l ≡ true)
      (sym (append_assoc a b post) ∙ ap (λ (l : List ℕ). l ++ post) (sym e))
      (accepted_match r (match_here s k) prev a (b ++ post) ra (
        accepted_match s k (last_of prev a) b post sb
          (subst (λ q. k q post ≡ true) (ap (last_of prev) e ∙ last_of-append prev a b) h)))

-- The pattern accepts a part of the text.
abbrev pub Occurs : Regex → Option ℕ → List ℕ → Type 0
Occurs r prev text =
    (before : List ℕ) × (m : List ℕ) × (after : List ℕ) × (text ≡ before ++ (m ++ after))
    × Accepts r (last_of prev before) m after

starts_here :
    (r : Regex) (prev : Option ℕ) (text : List ℕ) → Begins r any_rest prev text → Occurs r prev text
starts_here r prev text (m, post, e, a, h) = ([], m, post, e, a)

match_from-Occurs :
    (r : Regex) (prev : Option ℕ) (text : List ℕ)
    → match_from r prev text ≡ true
    → Occurs r prev text
unfolding match_from
match_from-Occurs r prev [] h = starts_here r prev [] (match_here-Begins r any_rest prev [] h)
match_from-Occurs r prev (c ∷ cs) h = elim (either _ _ h) [
  | inl here ↦ starts_here r prev (c ∷ cs) (match_here-Begins r any_rest prev (c ∷ cs) here)
  | inr there ↦ later (match_from-Occurs r (some c) cs there)
]
  where
    later : Occurs r (some c) cs → Occurs r prev (c ∷ cs)
    later (before, m, after, e, a) = (c ∷ before, m, after, ap (λ (l : List ℕ). c ∷ l) e, a)

match_from-here :
    (r : Regex) (prev : Option ℕ) (text : List ℕ)
    → match_here r any_rest prev text ≡ true
    → match_from r prev text ≡ true
unfolding match_from
match_from-here r prev [] h = h
match_from-here r prev (c ∷ cs) h = or_left _ _ h

occurs_match :
    (r : Regex) (prev : Option ℕ) (before m after : List ℕ)
    → Accepts r (last_of prev before) m after
    → match_from r prev (before ++ (m ++ after)) ≡ true
unfolding match_from
occurs_match r prev [] m after a =
    match_from-here r prev (m ++ after) (accepted_match r any_rest prev m after a refl)
occurs_match r prev (c ∷ before) m after a = or_right _ _ (occurs_match r (some c) before m after a)

match_string_iff : (r : Regex) (text : List ℕ) → (match_string r text ≡ true) ↔ Occurs r none text
unfolding match_string
match_string_iff r text = (match_from-Occurs r none text, found)
  where
    found : Occurs r none text → match_from r none text ≡ true
    found (before, m, after, e, a) =
        subst (λ (l : List ℕ). match_from r none l ≡ true) (sym e)
          (occurs_match r none before m after a)

-- Personal data is detected just where the text has a part that one of the patterns accepts: a social
-- security number, a phone number or an email address, as the patterns write them.
pub detect_pii-Occurs :
    (text : List ℕ) → (detect_pii text ≡ true) ↔ ((t : PiiType) × Occurs (pattern_of t) none text)
unfolding detect_pii pii_types
detect_pii-Occurs text =
    noted _ _ _ (match_string_iff ssn_regex text) (match_string_iff phone_regex text)
      (match_string_iff email_regex text)
  where
    noted :
        (a b c : Bool)
        → (a ≡ true) ↔ Occurs ssn_regex none text
        → (b ≡ true) ↔ Occurs phone_regex none text
        → (c ≡ true) ↔ Occurs email_regex none text
        → (is_nonempty (note ssn a (note phone_number b (note email_address c []))) ≡ true)
          ↔ ((t : PiiType) × Occurs (pattern_of t) none text)
    noted true b c s p m = ((λ _. (ssn, s.0 refl)), λ _. refl)
    noted false true c s p m = ((λ _. (phone_number, p.0 refl)), λ _. refl)
    noted false false true s p m = ((λ _. (email_address, m.0 refl)), λ _. refl)
    noted false false false s p m = ((λ h. cc), λ q. none_left q.0 q.1)
      where
        none_left : (t : PiiType) → Occurs (pattern_of t) none text → false ≡ true
        none_left ssn o = s.1 o
        none_left phone_number o = p.1 o
        none_left email_address o = m.1 o
