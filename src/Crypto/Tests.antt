-- ===== src/Crypto/Tests.antt =====
-- An address, encrypted and decrypted.
use w1t.Base.{◌≡◌, refl, [], ◌∷◌, some}
use w1t.Crypto.{encrypt, decrypt}
use w1t.Crypto.RoundTrip.{decrypt-encrypt}
use w1t.Samples.{plain_aead}

decrypt-encrypt_example : decrypt plain_aead (1 ∷ 2 ∷ 98 ∷ 64 ∷ []) ≡ some (98 ∷ 64 ∷ [])
unfolding encrypt
decrypt-encrypt_example = decrypt-encrypt plain_aead (1 ∷ 2 ∷ []) (98 ∷ 64 ∷ []) refl refl refl
