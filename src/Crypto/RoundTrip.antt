-- ===== src/Crypto/RoundTrip.antt =====
-- What is encrypted can be decrypted.
use w1t.Base.{
  ℕ, ◌≤◌, false, ◌≡◌, refl, sym, ap, subst, ◌∙◌, List, [], ◌∷◌, ◌++◌, Option, none, some, arith,
  length, take, drop, ltb, if◌then◌else◌,
}
use w1t.Crypto.{Aead, encrypt, decrypt}

take-append : (xs ys : List ℕ) → take (length xs) (xs ++ ys) ≡ xs
take-append [] ys = refl
take-append (x ∷ xs) ys = ap (λ (zs : List ℕ). x ∷ zs) (take-append xs ys)

drop-append : (xs ys : List ℕ) → drop (length xs) (xs ++ ys) ≡ ys
drop-append [] ys = refl
drop-append (x ∷ xs) ys = drop-append xs ys

length-append-le : (xs ys : List ℕ) → length xs ≤ length (xs ++ ys)
length-append-le [] ys = omega arith
length-append-le (x ∷ xs) ys = omega (arith, length-append-le xs ys)

-- Where opening undoes sealing under the same nonce, and the nonce has its size: what `Encrypt` makes
-- of a text, `Decrypt` turns back into the text.
pub decrypt-encrypt :
    (e : Aead) (nonce text : List ℕ) {c : List ℕ}
    → e.open_sealed nonce (e.seal nonce text) ≡ some text
    → length nonce ≡ e.nonce_size
    → encrypt e (some nonce) text ≡ some c
    → decrypt e c ≡ some text
unfolding encrypt decrypt
decrypt-encrypt e nonce text {c} opens sized h =
    ap (decrypt e) (sym (inject h)) ∙ subst (λ n. at n ≡ some text) sized opened
  where
    inject : {x y : List ℕ} → some x ≡ some y → x ≡ y
    inject h = cc

    at : ℕ → Option (List ℕ)
    at n =
        if ltb (length (nonce ++ e.seal nonce text)) n
        then none
        else e.open_sealed (take n (nonce ++ e.seal nonce text))
            (drop n (nonce ++ e.seal nonce text))

    enough : ltb (length (nonce ++ e.seal nonce text)) (length nonce) ≡ false
    enough = ground (arith, length-append-le nonce (e.seal nonce text))

    opened : at (length nonce) ≡ some text
    opened = rw enough (
        rw (take-append nonce (e.seal nonce text))
          (rw (drop-append nonce (e.seal nonce text)) opens))
