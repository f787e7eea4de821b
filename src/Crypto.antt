-- ===== src/Crypto.antt =====
-- repo/backend/internal/crypto/aes.go: encryption with a nonce in front.
pub mod RoundTrip
mod Tests
use w1t.Base.{
  ℕ, Bool, true, false, List, [], ◌∷◌, ◌++◌, Option, none, some, length, take, drop, ltb,
  if◌then◌else◌,
}

-- `cipher.AEAD` and HMAC-SHA256, with the key of the encryptor.
pub record Aead : Type 0 where
  pub nonce_size : ℕ
  pub seal : List ℕ → List ℕ → List ℕ
  pub open_sealed : List ℕ → List ℕ → Option (List ℕ)
  pub hmac : List ℕ → List ℕ

-- `Encrypt`, of the nonce that `rand.Reader` gives, unless it fails.
unfoldable pub encrypt : Aead → Option (List ℕ) → List ℕ → Option (List ℕ)
encrypt e none plaintext = none
encrypt e (some nonce) plaintext = some (nonce ++ e.seal nonce plaintext)

-- `Decrypt`
unfoldable pub decrypt : Aead → List ℕ → Option (List ℕ)
decrypt e ciphertext =
    if ltb (length ciphertext) e.nonce_size
    then none
    else e.open_sealed (take e.nonce_size ciphertext) (drop e.nonce_size ciphertext)

-- `HMACHash`
unfoldable pub hmac_hash : Aead → List ℕ → List ℕ
hmac_hash e text = e.hmac text
