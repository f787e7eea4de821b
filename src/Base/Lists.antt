-- ===== src/Base/Lists.antt =====
-- Lists as database tables: rows that satisfy a test, counts, and updates in place.
use Prim.Native.Nat.{ℕ, zero, suc, ◌+◌, ◌-◌, ◌*◌, ◌≤◌}
use mathlib.Core.Path.{◌≡◌, refl, ap}
use mathlib.Core.Bool.{Bool, true, false, ◌||◌}
use mathlib.Core.Option.{Option, none, some}
use mathlib.Core.List.{List, [], ◌∷◌, ◌++◌}
use native.Mathlib.Omega.{arith}
use w1t.Base.Tests.{if◌then◌else◌}

module _ {ℓ} {A : Type ℓ} where
  abbrev pub length : List A → ℕ
  length [] = 0
  length (x ∷ xs) = suc (length xs)

  -- The first row that passes the test.
  abbrev pub find : (A → Bool) → List A → Option A
  find p [] = none
  find p (x ∷ xs) = if p x then some x else find p xs

  -- `SELECT EXISTS(… WHERE p)`.
  abbrev pub exists : (A → Bool) → List A → Bool
  exists p [] = false
  exists p (x ∷ xs) = p x || exists p xs

  -- `SELECT COUNT(*) … WHERE p`.
  abbrev pub count : (A → Bool) → List A → ℕ
  count p [] = 0
  count p (x ∷ xs) = (if p x then 1 else 0) + count p xs

  -- The rows that pass the test, in order.
  abbrev pub select : (A → Bool) → List A → List A
  select p [] = []
  select p (x ∷ xs) = let rest = select p xs in if p x then x ∷ rest else rest

  -- `UPDATE … SET f WHERE p`.
  abbrev pub update : (A → Bool) → (A → A) → List A → List A
  update p f [] = []
  update p f (x ∷ xs) = (if p x then f x else x) ∷ update p f xs

  abbrev pub All {κ} : (A → Type κ) → List A → Type κ
  All P [] = Unit
  All P (x ∷ xs) = P x × All P xs

  pub count-append : (p : A → Bool) (xs ys : List A) → count p (xs ++ ys) ≡ count p xs + count p ys
  count-append p [] ys = omega arith
  count-append p (x ∷ xs) ys = omega (arith, count-append p xs ys)

  pub count-zero_of_not-exists : (p : A → Bool) (xs : List A) → exists p xs ≡ false → count p xs ≡ 0
  count-zero_of_not-exists p [] h = refl
  count-zero_of_not-exists p (x ∷ xs) h = ground (arith, count-zero_of_not-exists p xs)

  pub not-exists_of_find-none :
      (p : A → Bool) (xs : List A) → find p xs ≡ none → exists p xs ≡ false
  not-exists_of_find-none p [] h = refl
  not-exists_of_find-none p (x ∷ xs) h = ground (arith, not-exists_of_find-none p xs)

  pub find-append_some :
      (p : A → Bool) (xs ys : List A) {a : A} → find p xs ≡ some a → find p (xs ++ ys) ≡ some a
  find-append_some p [] ys h = cc
  find-append_some p (x ∷ xs) ys {a} h = ground (arith, find-append_some p xs ys {a = a})

  pub find_holds : (p : A → Bool) (xs : List A) {a : A} → find p xs ≡ some a → p a ≡ true
  find_holds p [] h = cc
  find_holds p (x ∷ xs) {a} h = ground (arith, find_holds p xs {a = a})

  pub All-append {κ} : (P : A → Type κ) (xs ys : List A) → All P xs → All P ys → All P (xs ++ ys)
  All-append P [] ys h k = k
  All-append P (x ∷ xs) ys h k = (h.0, All-append P xs ys h.1 k)

  pub All-map {κ μ} :
      (P : A → Type κ) (Q : A → Type μ) (xs : List A) → ((a : A) → P a → Q a) → All P xs → All Q xs
  All-map P Q [] f h = tt
  All-map P Q (x ∷ xs) f h = (f x h.0, All-map P Q xs f h.1)

  pub All-find {κ} :
      (P : A → Type κ) (p : A → Bool) (xs : List A) {a : A} → All P xs → find p xs ≡ some a → P a
  All-find P p [] h e = cc
  All-find P p (x ∷ xs) {a} h e = ground (arith, All-find P p xs {a = a} h.1)

  pub All-update {κ} :
      (P : A → Type κ) (q : A → Bool) (f : A → A) (xs : List A)
      → ((x : A) → P x → P (f x))
      → All P xs
      → All P (update q f xs)
  All-update P q f [] k h = tt
  All-update P q f (x ∷ xs) k h = (case_of (q x), All-update P q f xs k h.1)
    where
      case_of : (b : Bool) → P (if b then f x else x)
      case_of true = k x h.0
      case_of false = h.0

  -- An update under which no row comes to pass the test does not raise the count.
  pub count-update-le :
      (p q : A → Bool) (f : A → A) (xs : List A)
      → All (λ x. q x ≡ true → p (f x) ≡ true → p x ≡ true) xs
      → count p (update q f xs) ≤ count p xs
  count-update-le p q f [] h = omega arith
  count-update-le p q f (x ∷ xs) h = ground (arith, h.0, count-update-le p q f xs h.1)

  pub count-zero_of_find : (p : A → Bool) (xs : List A) → find p xs ≡ none → count p xs ≡ 0
  count-zero_of_find p [] h = refl
  count-zero_of_find p (x ∷ xs) h = ground (arith, count-zero_of_find p xs)

  pub length-update : (q : A → Bool) (f : A → A) (xs : List A) → length (update q f xs) ≡ length xs
  length-update q f [] = refl
  length-update q f (x ∷ xs) = ap suc (length-update q f xs)

  pub find-append_none :
      (p : A → Bool) (xs : List A) (y : A)
      → find p xs ≡ none
      → p y ≡ true
      → find p (xs ++ (y ∷ [])) ≡ some y
  find-append_none p [] y h k = ground (arith, k)
  find-append_none p (x ∷ xs) y h k = ground (arith, find-append_none p xs y, k)

  -- `LIMIT` and `OFFSET`.
  abbrev pub take : ℕ → List A → List A
  take zero xs = []
  take (suc n) [] = []
  take (suc n) (x ∷ xs) = x ∷ take n xs

  abbrev pub drop : ℕ → List A → List A
  drop zero xs = xs
  drop (suc n) [] = []
  drop (suc n) (x ∷ xs) = drop n xs

  abbrev pub reverse_onto : List A → List A → List A
  reverse_onto ys [] = ys
  reverse_onto ys (x ∷ xs) = reverse_onto (x ∷ ys) xs

  -- `ORDER BY created_at DESC LIMIT size OFFSET (page - 1) * size`, of a table with the oldest row
  -- first; pages are counted from 1.
  abbrev pub page_of : ℕ → ℕ → List A → List A
  page_of page size xs = take size (drop ((page - 1) * size) (reverse_onto [] xs))
