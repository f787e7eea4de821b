-- ===== src/Collectibles/Listing.antt =====
-- Who is shown a collectible on a page of `CollectibleService.List`, with the cache in between.
use Prim.Native.Char.{Char}
use Prim.Native.String
use w1t.Base.{
  ℕ, zero, suc, ◌-◌, ◌*◌, String, Bool, true, false, ◌||◌, ◌≡◌, refl, sym, ap, subst, ◌∙◌, List, [],
  ◌∷◌, arith, map, exists, select, update, take, drop, reverse_onto, page_of, str_eq, str_eq_iff,
  str_eq_refl, starts_with, starts_with-append, append_cancel, append_nil, All, All-map,
  if◌then◌else◌,
}
use w1t.Model.Collectible.{Collectible, CollectibleStatus, published, hidden}
use w1t.Collectibles.Store.{is_listed, status_text, summary}
use w1t.Collectibles.Service.{is_withheld, has_admin_or_compliance, list_key, visible_status}
use w1t.Collectibles.Coherence.{is_row_of, HasRow, IsOnPage}

-- The viewer may see the collectible, by a row of the table with its id and its status.
abbrev pub MaySee : List String → List Collectible → Collectible → Type 0
MaySee roles items c = (is_withheld roles c ≡ false) × HasRow items c

module _ {A : Type 0} (P : A → Type 0) where
  All-take : (n : ℕ) (xs : List A) → All P xs → All P (take n xs)
  All-take zero xs h = tt
  All-take (suc n) [] h = tt
  All-take (suc n) (x ∷ xs) h = (h.0, All-take n xs h.1)

  All-drop : (n : ℕ) (xs : List A) → All P xs → All P (drop n xs)
  All-drop zero xs h = h
  All-drop (suc n) [] h = tt
  All-drop (suc n) (x ∷ xs) h = All-drop n xs h.1

  All-reverse : (ys xs : List A) → All P ys → All P xs → All P (reverse_onto ys xs)
  All-reverse ys [] h k = h
  All-reverse ys (x ∷ xs) h k = All-reverse (x ∷ ys) xs (k.0, h) k.1

  All-page_of : (page size : ℕ) (xs : List A) → All P xs → All P (page_of page size xs)
  All-page_of page size xs h =
      All-take size _ (All-drop ((page - 1) * size) _ (All-reverse [] xs tt h))

own_row : (c : Collectible) → is_row_of c c ≡ true
own_row c = ground (arith, str_eq_refl (status_text c.status))

each-HasRow : (items : List Collectible) → All (HasRow items) items
each-HasRow [] = tt
each-HasRow (x ∷ items) = (
  ap (λ b. b || exists (is_row_of x) items) (own_row x),
  All-map _ _ items (λ c h. ap (λ b. is_row_of c x || b) h ∙ or_true (is_row_of c x))
      (each-HasRow items),
)
  where
    or_true : (b : Bool) → b || true ≡ true
    or_true true = refl
    or_true false = refl

select-IsOnPage :
    (table : List Collectible) (status : String) (items : List Collectible)
    → All (HasRow table) items
    → All (IsOnPage table status) (select (is_listed status) items)
select-IsOnPage table status [] h = tt
select-IsOnPage table status (c ∷ items) h =
    by_test (is_listed status c) refl (select-IsOnPage table status items h.1)
  where
    by_test :
        (b : Bool)
        → is_listed status c ≡ b
        → All (IsOnPage table status) (select (is_listed status) items)
        → All
            (IsOnPage table status)
            (if b then c ∷ select (is_listed status) items else select (is_listed status) items)
    by_test true e k = ((e, h.0), k)
    by_test false e k = k

map-summary :
    (table : List Collectible) (status : String) (items : List Collectible)
    → All (IsOnPage table status) items
    → All (IsOnPage table status) (map summary items)
map-summary table status [] h = tt
map-summary table status (c ∷ items) h = (h.0, map-summary table status items h.1)

-- The page that `List` reads.
pub page-IsOnPage :
    (status : String) (page size : ℕ) (table : List Collectible)
    → All
        (IsOnPage table status)
        (map summary (page_of page size (select (is_listed status) table)))
page-IsOnPage status page size table = map-summary table status _ (
    All-page_of (IsOnPage table status) page size _
      (select-IsOnPage table status table (each-HasRow table)))

-- A text begins with one character.
apart :
    (a b : Char) (x : String)
    → str_eq (String.◌∷◌ a "") (String.◌∷◌ b "") ≡ false
    → starts_with (String.◌∷◌ a "") x ≡ true
    → starts_with (String.◌∷◌ b "") x ≡ true
    → ⊥
unfolding starts_with
apart a b String.[] ne h k = ground (arith, h)
apart a b (String.◌∷◌ d r) ne h k = ground (
  arith,
  ne,
  (str_eq_iff (String.◌∷◌ a "") (String.◌∷◌ b "")).1 (
      (str_eq_iff (String.◌∷◌ a "") (String.◌∷◌ d "")).0 (ground (arith, h))
      ∙ sym ((str_eq_iff (String.◌∷◌ b "") (String.◌∷◌ d "")).0 (ground (arith, k)))),
)

-- No page of hidden collectibles stands under a key of published ones.
not_published :
    (status rest rest' : String) (c : Collectible)
    → c.status ≡ hidden
    → is_listed status c ≡ true
    → String.◌++◌ status (String.◌++◌ ":" rest) ≡ String.◌++◌ "published" rest'
    → ⊥
unfolding str_eq starts_with
not_published status rest rest' c secret listed e = by_status (str_eq status "") refl
  where
    text : String
    text = String.◌++◌ status (String.◌++◌ ":" rest)

    begins : starts_with "p" (String.◌++◌ status (String.◌++◌ ":" rest)) ≡ true
    begins = ap (starts_with "p") e ∙ starts_with-append "p" "published" rest' refl

    by_status : (b : Bool) → str_eq status "" ≡ b → ⊥
    by_status true h = apart "p" ":" text refl begins (
        subst (λ s. starts_with ":" (String.◌++◌ s (String.◌++◌ ":" rest)) ≡ true)
          (sym ((str_eq_iff status "").0 h))
          (ap (starts_with ":") (append_nil (String.◌++◌ ":" rest))
            ∙ starts_with-append ":" ":" rest refl))
    by_status false h = apart "p" "h" text refl begins (
        subst (λ s. starts_with "h" (String.◌++◌ s (String.◌++◌ ":" rest)) ≡ true)
          ((str_eq_iff "hidden" status).0 named)
          (starts_with-append "h" "hidden" (String.◌++◌ ":" rest) refl))
      where
        named : str_eq "hidden" status ≡ true
        named = subst (λ s. str_eq (status_text s) status ≡ true) secret (ground (arith, h, listed))

pub not_withheld :
    (table : List Collectible) (asked status : String) (page size page' size' : ℕ)
    (roles : List String) (c : Collectible)
    → list_key (visible_status roles asked) page size ≡ list_key status page' size'
    → IsOnPage table status c
    → MaySee roles table c
not_withheld table asked status page size page' size' roles c e h =
    (by_case (has_admin_or_compliance roles) c.status refl refl, h.1)
  where
    by_case :
        (b : Bool) (s : CollectibleStatus)
        → has_admin_or_compliance roles ≡ b
        → c.status ≡ s
        → is_withheld roles c ≡ false
    by_case b published r k = ground (arith, k)
    by_case true hidden r k = ground (arith, r, k)
    by_case false hidden r k = absurd (
        not_published status _ _ c k h.0 (
          sym (
            append_cancel "collectibles:" _ _ (
              subst
                (λ b.
                  list_key (if b then asked else "published") page size
                  ≡ list_key status page' size')
                r e))))

pub All-not_withheld :
    (table : List Collectible) (asked status : String) (page size page' size' : ℕ)
    (roles : List String) (cs : List Collectible)
    → list_key (visible_status roles asked) page size ≡ list_key status page' size'
    → All (IsOnPage table status) cs
    → All (MaySee roles table) cs
All-not_withheld table asked status page size page' size' roles cs e h =
    All-map _ _ cs (λ c k. not_withheld table asked status page size page' size' roles c e k) h

exists-update :
    (p q : Collectible → Bool) (f : Collectible → Collectible) (items : List Collectible)
    → ((x : Collectible) → p (f x) ≡ p x)
    → exists p (update q f items) ≡ exists p items
exists-update p q f [] k = refl
exists-update p q f (x ∷ items) k = rw (same (q x), exists-update p q f items k) refl
  where
    same : (b : Bool) → p (if b then f x else x) ≡ p x
    same true = k x
    same false = refl

-- An update that leaves ids and statuses alone.
pub update-IsOnPage :
    (q : Collectible → Bool) (f : Collectible → Collectible) (table : List Collectible)
    (status : String) (cs : List Collectible)
    → ((c x : Collectible) → is_row_of c (f x) ≡ is_row_of c x)
    → All (IsOnPage table status) cs
    → All (IsOnPage (update q f table) status) cs
update-IsOnPage q f table status cs k h =
    All-map _ _ cs (λ c p. (p.0, exists-update (is_row_of c) q f table (k c) ∙ p.1)) h
