-- ===== src/Base/Keyed.antt =====
-- Tables whose rows have a number of their own, rewritten one row after the other.
use Prim.Native.Nat.{ℕ, zero, suc, ◌+◌, ◌≤◌}
use mathlib.Core.Path.{◌≡◌, refl, sym, ap, ◌∙◌}
use mathlib.Core.Logic.{◌≢◌, inl, inr}
use mathlib.Core.Bool.{Bool, true, false}
use mathlib.Core.Option.{Option, none, some}
use mathlib.Core.List.{List, [], ◌∷◌, map}
use native.Mathlib.Omega.{arith}
use w1t.Base.Tests.{if◌then◌else◌, ◌==◌, ==_iff, Bool-cases}
use w1t.Base.Lists.{find, select, update, count, take, All, All-map}

module _ {A : Type 0} where
  pub map-All :
      {B : Type 0} (f g : A → B) (xs : List A) → All (λ x. f x ≡ g x) xs → map f xs ≡ map g xs
  map-All f g [] h = refl
  map-All f g (x ∷ xs) h = rw (h.0, map-All f g xs h.1) refl

  pub map_self : (f : A → A) (xs : List A) → ((x : A) → f x ≡ x) → map f xs ≡ xs
  map_self f [] h = refl
  map_self f (x ∷ xs) h = rw (h x, map_self f xs h) refl

  pub map-update :
      (q : A → Bool) (f h k : A → A) (xs : List A)
      → ((x : A) → h (if q x then f x else x) ≡ k x)
      → map h (update q f xs) ≡ map k xs
  map-update q f h k [] e = refl
  map-update q f h k (x ∷ xs) e = rw (e x, map-update q f h k xs e) refl

  pub map-map :
      (f g h : A → A) (xs : List A) → ((x : A) → f (g x) ≡ h x) → map f (map g xs) ≡ map h xs
  map-map f g h [] e = refl
  map-map f g h (x ∷ xs) e = rw (e x, map-map f g h xs e) refl

  take_nil : (n : ℕ) → take {A = A} n [] ≡ []
  take_nil zero = refl
  take_nil (suc n) = refl

  take_step :
      (b : Bool) (n c : ℕ) (x : A) (rest : List A)
      → ((m : ℕ) → c ≤ m → take m rest ≡ rest)
      → (if b then 1 else 0) + c ≤ n
      → take n (if b then x ∷ rest else rest) ≡ (if b then x ∷ rest else rest)
  take_step true zero c x rest k h = absurd (omega arith)
  take_step true (suc n) c x rest k h = ap (λ (ys : List A). x ∷ ys) (k n (omega arith))
  take_step false n c x rest k h = k n (omega (arith, h))

  -- A limit that is not reached.
  pub take-select :
      (n : ℕ) (p : A → Bool) (xs : List A) → count p xs ≤ n → take n (select p xs) ≡ select p xs
  take-select n p [] h = take_nil n
  take-select n p (x ∷ xs) h =
      take_step (p x) n (count p xs) x (select p xs) (λ m k. take-select m p xs k) h

  pub All-both : (P Q : A → Type 0) (xs : List A) → All P xs → All Q xs → All (λ x. P x × Q x) xs
  All-both P Q [] h k = tt
  All-both P Q (x ∷ xs) h k = ((h.0, k.0), All-both P Q xs h.1 k.1)

  All-if :
      (P : A → Type 0) (b : Bool) (x : A) (xs : List A)
      → P x
      → All P xs
      → All P (if b then x ∷ xs else xs)
  All-if P true x xs h k = (h, k)
  All-if P false x xs h k = k

  pub All-select : (P : A → Type 0) (p : A → Bool) (xs : List A) → All P xs → All P (select p xs)
  All-select P p [] h = tt
  All-select P p (x ∷ xs) h = All-if P (p x) x (select p xs) h.0 (All-select P p xs h.1)

module _ {A : Type 0} (id : A → ℕ) where
  abbrev pub has_key : ℕ → A → Bool
  has_key k x = id x == k

  -- No two rows have one number.
  abbrev pub DistinctBy : List A → Type 0
  DistinctBy [] = Unit
  DistinctBy (x ∷ xs) = All (λ y. id y ≢ id x) xs × DistinctBy xs

  pub find-absent : (k : ℕ) (xs : List A) → All (λ y. id y ≢ k) xs → find (has_key k) xs ≡ none
  find-absent k [] h = refl
  find-absent k (x ∷ xs) h = ground (arith, h.0, find-absent k xs h.1)

  DistinctBy-if :
      (b : Bool) (x : A) (xs : List A)
      → All (λ y. id y ≢ id x) xs
      → DistinctBy xs
      → DistinctBy (if b then x ∷ xs else xs)
  DistinctBy-if true x xs h k = (h, k)
  DistinctBy-if false x xs h k = k

  pub select-DistinctBy : (p : A → Bool) (xs : List A) → DistinctBy xs → DistinctBy (select p xs)
  select-DistinctBy p [] h = tt
  select-DistinctBy p (x ∷ xs) h =
      DistinctBy-if (p x) x (select p xs) (All-select (λ y. id y ≢ id x) p xs h.0)
        (select-DistinctBy p xs h.1)

  skips :
      (b : Bool) (x y : A) (ys : List A) (o : Option A)
      → id y ≢ id x
      → find (has_key (id y)) ys ≡ o
      → find (has_key (id y)) (if b then x ∷ ys else ys) ≡ o
  skips true x y ys o ne h = ground (arith, ne, h)
  skips false x y ys o ne h = h

  -- A selected row is found by its number, another is not.
  pub find-select :
      (p : A → Bool) (xs : List A)
      → DistinctBy xs
      → All (λ x. find (has_key (id x)) (select p xs) ≡ (if p x then some x else none)) xs
  find-select p [] h = tt
  find-select p (x ∷ xs) h = (
    first (p x),
    All-map _ _ xs (λ y h. skips (p x) x y (select p xs) (if p y then some y else none) h.0 h.1)
        (All-both _ _ xs h.0 (find-select p xs h.1)),
  )
    where
      gone : find (has_key (id x)) (select p xs) ≡ none
      gone = find-absent (id x) (select p xs) (All-select (λ y. id y ≢ id x) p xs h.0)

      first :
          (b : Bool)
          → find (has_key (id x)) (if b then x ∷ select p xs else select p xs)
            ≡ (if b then some x else none)
      first true = ground arith
      first false = gone

  -- Row after row of `ns`, the rows of its number are rewritten.
  abbrev pub rewrite_each : (A → A → A) → List A → List A → List A
  rewrite_each f [] t = t
  rewrite_each f (n ∷ ns) t = rewrite_each f ns (update (has_key (id n)) (f n) t)

  abbrev pub rewritten : (A → A → A) → Option A → A → A
  rewritten f none r = r
  rewritten f (some n) r = f n r

  module _ (f : A → A → A) (keeps : (n r : A) → id (f n r) ≡ id r) where
    pub rewrite_each-map :
        (ns t : List A)
        → DistinctBy ns
        → rewrite_each f ns t ≡ map (λ r. rewritten f (find (has_key (id r)) ns) r) t
    rewrite_each-map [] t h = sym (map_self (λ r. r) t (λ r. refl))
    rewrite_each-map (n ∷ ns) t h =
        rewrite_each-map ns (update (has_key (id n)) (f n) t) h.1
        ∙ map-update (has_key (id n)) (f n) _ _ t one
      where
        gone : find (has_key (id n)) ns ≡ none
        gone = find-absent (id n) ns h.0

        other : (r : A) → (id r == id n) ≡ false → (id n == id r) ≡ false
        other r h = ground (arith, h)

        one :
            (r : A)
            → rewritten f
                (find (has_key (id (if has_key (id n) r then f n r else r))) ns)
                (if has_key (id n) r then f n r else r)
              ≡ rewritten f (find (has_key (id r)) (n ∷ ns)) r
        one r = elim (Bool-cases (has_key (id n) r)) [
          | inl hit ↦
              let same : id r ≡ id n = (==_iff (id r) (id n)).0 hit in
              ap
                (λ (b : Bool).
                  rewritten f (find (has_key (id (if b then f n r else r))) ns)
                    (if b then f n r else r))
                hit
              ∙ ap (λ (k : ℕ). rewritten f (find (has_key k) ns) (f n r)) (keeps n r ∙ same)
              ∙ ap (λ (o : Option A). rewritten f o (f n r)) gone
              ∙ sym (
                  ap (λ (b : Bool). rewritten f (if b then some n else find (has_key (id r)) ns) r)
                    ((==_iff (id n) (id r)).1 (sym same)))
          | inr miss ↦
              ap
                (λ (b : Bool).
                  rewritten f (find (has_key (id (if b then f n r else r))) ns)
                    (if b then f n r else r))
                miss
              ∙ sym (
                  ap (λ (b : Bool). rewritten f (if b then some n else find (has_key (id r)) ns) r)
                    (other r miss))
        ]

    -- The rows of `t` that pass `p`, rewritten one after the other, each by itself: the others stay.
    pub rewrite_each-select :
        (p : A → Bool) (t : List A)
        → DistinctBy t
        → rewrite_each f (select p t) t ≡ map (λ r. if p r then f r r else r) t
    rewrite_each-select p t h =
        rewrite_each-map (select p t) t (select-DistinctBy p t h)
        ∙ map-All _ _ t (
            All-map _ _ t (λ r e. ap (λ (o : Option A). rewritten f o r) e ∙ by_test r (p r))
              (find-select p t h))
      where
        by_test :
            (r : A) (b : Bool)
            → rewritten f (if b then some r else none) r ≡ (if b then f r r else r)
        by_test r true = refl
        by_test r false = refl

module _ {A : Type 0} (f : A → A) where
  pub count-map :
      (p : A → Bool) (xs : List A) → ((x : A) → p (f x) ≡ p x) → count p (map f xs) ≡ count p xs
  count-map p [] h = refl
  count-map p (x ∷ xs) h = rw (h x, count-map p xs h) refl

  pub map-DistinctBy :
      (id : A → ℕ) (xs : List A)
      → ((x : A) → id (f x) ≡ id x)
      → DistinctBy id xs
      → DistinctBy id (map f xs)
  map-DistinctBy id [] k h = tt
  map-DistinctBy id (x ∷ xs) k h = (others xs h.0, map-DistinctBy id xs k h.1)
    where
      others : (ys : List A) → All (λ y. id y ≢ id x) ys → All (λ y. id y ≢ id (f x)) (map f ys)
      others [] h = tt
      others (y ∷ ys) h = ((λ e. h.0 (sym (k y) ∙ e ∙ k x)), others ys h.1)

module _ {A : Type 0} (p q : A → Bool) (f : A → A) (keeps : (y : A) → p (f y) ≡ p y) where
  abbrev moved : A → A
  moved y = if q y then f y else y

  moved-keeps : (c : Bool) (y : A) → p (if c then f y else y) ≡ p y
  moved-keeps true y = keeps y
  moved-keeps false y = refl

  some_inj : (x y : A) → some x ≡ some y → x ≡ y
  some_inj x y h = cc

  find_step :
      (b : Bool) (x y : A) (xs : List A)
      → p (moved y) ≡ b
      → (if b then some y else find p xs) ≡ some x
      → (find p xs ≡ some x → find p (update q f xs) ≡ some (moved x))
      → find p (moved y ∷ update q f xs) ≡ some (moved x)
  find_step true x y xs e h k =
      ap (λ (c : Bool). if c then some (moved y) else find p (update q f xs)) e
      ∙ ap (λ (z : A). some (moved z)) (some_inj y x h)
  find_step false x y xs e h k =
      ap (λ (c : Bool). if c then some (moved y) else find p (update q f xs)) e ∙ k h

  -- A row that is found before an update is found after it, updated where the update is for it.
  pub find-update :
      (xs : List A) (x : A)
      → find p xs ≡ some x
      → find p (update q f xs) ≡ some (if q x then f x else x)
  find-update [] x h = cc
  find-update (y ∷ xs) x h =
      find_step (p y) x y xs (moved-keeps (q y) y) h (λ k. find-update xs x k)
