-- ===== src/Handlers/Pages.antt =====
-- The pages that a client can ask for make up the whole list.
use native.Mathlib.Nat.{lt-div-mul-add}
use w1t.Base.{
  ℕ, zero, suc, ◌+◌, ◌-◌, ◌*◌, ◌/◌, ◌≤◌, ◌<◌, ◌≡◌, refl, sym, ap, ◌∙◌, List, [], ◌∷◌, ◌++◌, arith,
  length, take, drop, reverse_onto, page_of,
}
use w1t.Handlers.{pagination, total_pages}

module _ {ℓ} {A : Type ℓ} where
  -- The first `n` pages, one after the other.
  abbrev pub first_pages : ℕ → ℕ → List A → List A
  first_pages zero size xs = []
  first_pages (suc n) size xs = first_pages n size xs ++ page_of (suc n) size xs

  abbrev nothing : List A
  nothing = []

  take-nil : (n : ℕ) → take n nothing ≡ nothing
  take-nil zero = refl
  take-nil (suc n) = refl

  take-drop : (a b : ℕ) (xs : List A) → take a xs ++ take b (drop a xs) ≡ take (a + b) xs
  take-drop zero b xs = ap (λ n. take n xs) (omega arith)
  take-drop (suc a) b [] = take-nil b ∙ sym (take-nil (suc a + b))
  take-drop (suc a) b (x ∷ xs) =
      ap (λ (ys : List A). x ∷ ys) (take-drop a b xs)
      ∙ ap (λ n. take n (x ∷ xs)) {x = suc (a + b)} {y = suc a + b} (omega arith)

  take_all : (n : ℕ) (xs : List A) → length xs ≤ n → take n xs ≡ xs
  take_all n [] h = take-nil n
  take_all zero (x ∷ xs) h = absurd (omega arith)
  take_all (suc n) (x ∷ xs) h = ap (λ (ys : List A). x ∷ ys) (take_all n xs (omega arith))

  length-reverse_onto : (ys xs : List A) → length (reverse_onto ys xs) ≡ length ys + length xs
  length-reverse_onto ys [] = omega arith
  length-reverse_onto ys (x ∷ xs) = length-reverse_onto (x ∷ ys) xs ∙ omega arith

  first_pages-take :
      (n size : ℕ) (xs : List A) → first_pages n size xs ≡ take (n * size) (reverse_onto [] xs)
  first_pages-take zero size xs = ap (λ k. take k (reverse_onto [] xs)) none_yet
    where
      none_yet : 0 ≡ 0 * size
      none_yet = omega arith
  first_pages-take (suc n) size xs =
      ap (λ (ys : List A). ys ++ page_of (suc n) size xs) (first_pages-take n size xs)
      ∙ ap
          (λ k.
            take (n * size) (reverse_onto [] xs)
            ++ take size (drop (k * size) (reverse_onto [] xs)))
          back
      ∙ take-drop (n * size) size (reverse_onto [] xs)
      ∙ ap (λ k. take k (reverse_onto [] xs)) one_more
    where
      back : suc n - 1 ≡ n
      back = omega arith

      one_more : n * size + size ≡ suc n * size
      one_more = omega arith

total_pages-enough : (total size : ℕ) → 1 ≤ size → total ≤ total_pages total size * size
unfolding total_pages
total_pages-enough total size h = enough ((total + (size - 1)) / size * size) (lt-div-mul-add h)
  where
    enough : (q : ℕ) → total + (size - 1) < q + size → total ≤ q
    enough q k = omega arith

size_positive : (page size : ℕ) → 1 ≤ (pagination page size).1
unfolding pagination
size_positive page size = ground arith

-- Whatever page and page size a request names: the pages from the first to the last that the answer
-- counts, one after the other, are the whole list, the newest row first.
pub pages_cover {ℓ} :
    {A : Type ℓ} (page page_size : ℕ) (xs : List A)
    → first_pages
        (total_pages (length xs) (pagination page page_size).1)
        (pagination page page_size).1
        xs
      ≡ reverse_onto [] xs
pages_cover page page_size xs =
    first_pages-take _ _ xs
    ∙ take_all _ _ (
        within _ _ _ (length-reverse_onto [] xs)
          (total_pages-enough (length xs) _ (size_positive page page_size)))
  where
    within : (n m k : ℕ) → n ≡ 0 + m → m ≤ k → n ≤ k
    within n m k e h = omega arith
