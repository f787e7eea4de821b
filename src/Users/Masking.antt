-- ===== src/Users/Masking.antt =====
-- What a masked address tells.
use w1t.Base.{
  ℕ, ◌≡◌, ◌≢◌, refl, sym, ap, ◌∙◌, [], ◌∷◌, ◌++◌, Option, some, arith, All, length, drop, ◌==◌,
  if◌then◌else◌,
}
use w1t.Users.{
  Bytes, at_sign, byte_text, one_on, index_of_at, stars, mask_email, mask_decrypted,
  get_masked_email,
}

-- Bytes without an `@`, the part of an address before the first one.
abbrev pub IsLocal : Bytes → Type 0
IsLocal = All (λ b. b ≢ at_sign)

not_at : {A : Type 0} (b : ℕ) (x y : A) → b ≢ at_sign → (if b == at_sign then x else y) ≡ y
not_at b x y h = ground arith

index_of_at-local :
    (xs domain : Bytes) → IsLocal xs → index_of_at (xs ++ at_sign ∷ domain) ≡ some (length xs)
unfolding index_of_at
index_of_at-local [] domain h = refl
index_of_at-local (x ∷ xs) domain h = not_at x _ _ h.0 ∙ ap one_on (index_of_at-local xs domain h.1)

drop-local : (xs ys : Bytes) → drop (length xs) (xs ++ ys) ≡ ys
drop-local [] ys = refl
drop-local (x ∷ xs) ys = drop-local xs ys

-- Where the part before the first @ is not empty, the masked address has its
-- first byte, read as a code point, a star for each of its other bytes, and
-- all that follows from the first @ on.
pub mask_email-local :
    (x : ℕ) (xs domain : Bytes)
    → IsLocal (x ∷ xs)
    → mask_email (x ∷ (xs ++ at_sign ∷ domain))
      ≡ byte_text x ++ (stars (length xs) ++ at_sign ∷ domain)
unfolding mask_email
mask_email-local x xs domain h = rw (index_of_at-local (x ∷ xs) domain h) (
    ap (λ (ys : Bytes). byte_text x ++ (stars (length xs) ++ ys))
      (drop-local xs (at_sign ∷ domain)))

-- Two addresses whose local parts agree in the first byte and in their length, and which agree from the
-- first `@` on, look the same once they are decrypted and masked.
pub get_masked_email-hides :
    {Cipher : Type 0} (decrypt : Cipher → Option Bytes) (c d : Cipher) (x : ℕ)
    (xs ys domain : Bytes)
    → decrypt c ≡ some (x ∷ (xs ++ at_sign ∷ domain))
    → decrypt d ≡ some (x ∷ (ys ++ at_sign ∷ domain))
    → IsLocal (x ∷ xs)
    → IsLocal ys
    → length xs ≡ length ys
    → get_masked_email decrypt (some c) ≡ get_masked_email decrypt (some d)
unfolding get_masked_email mask_decrypted
get_masked_email-hides decrypt c d x xs ys domain e f h k same =
    ap mask_decrypted e
    ∙ mask_email-local x xs domain h
    ∙ ap (λ n. byte_text x ++ (stars n ++ at_sign ∷ domain)) same
    ∙ sym (mask_email-local x ys domain (h.0, k))
    ∙ sym (ap mask_decrypted f)
