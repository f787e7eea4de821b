-- ===== src/Users.antt =====
-- GetMaskedEmail and maskEmail of repo/backend/internal/service/user_service.go, with the other methods in
-- Service. An address is the list of its bytes, as Go indexes a string.
pub mod Masking
pub mod Store
pub mod Service
pub mod Granting
pub mod Entry
pub mod Enrolment
mod Tests
use w1t.Base.{
  ℕ, zero, suc, ◌+◌, ◌-◌, ◌/◌, ◌%◌, Bool, true, false, List, [], ◌∷◌, ◌++◌, Option, none, some,
  drop, ◌==◌, ltb, if◌then◌else◌,
}

abbrev pub Bytes : Type 0
Bytes = List ℕ

-- `@` and `*`.
abbrev pub at_sign : ℕ
at_sign = 64

abbrev pub star : ℕ
star = 42

abbrev pub hidden : Bytes
hidden = star ∷ star ∷ star ∷ []

-- `string(b)` of a byte: the encoding of the code point with that number.
abbrev pub byte_text : ℕ → Bytes
byte_text b = if ltb b 128 then b ∷ [] else (192 + b / 64) ∷ (128 + b % 64) ∷ []

abbrev pub one_on : Option ℕ → Option ℕ
one_on none = none
one_on (some n) = some (suc n)

-- The first index of `@`; a byte below 128 is no part of a longer code point.
unfoldable pub index_of_at : Bytes → Option ℕ
index_of_at [] = none
index_of_at (b ∷ bs) = let rest = index_of_at bs in if b == at_sign then some 0 else one_on rest

-- The loop that adds a star for each index.
unfoldable pub stars : ℕ → Bytes
stars zero = []
stars (suc n) = star ∷ stars n

abbrev mask_at : Option ℕ → Bytes → Bytes
mask_at at [] = hidden
mask_at none (b ∷ bs) = hidden
mask_at (some zero) (b ∷ bs) = hidden
mask_at (some (suc n)) (b ∷ bs) = byte_text b ++ (stars n ++ drop (suc n) (b ∷ bs))

-- `maskEmail`.
unfoldable pub mask_email : Bytes → Bytes
mask_email email = mask_at (index_of_at email) email

-- The address that a ciphertext holds, if it can be read.
unfoldable pub mask_decrypted : Option Bytes → Bytes
mask_decrypted none = hidden
mask_decrypted (some email) = mask_email email

-- `GetMaskedEmail`, for `EmailEncrypted` of the user; the encryption is a parameter.
unfoldable pub get_masked_email :
    {Cipher : Type 0} (decrypt : Cipher → Option Bytes) → Option Cipher → Bytes
get_masked_email decrypt none = []
get_masked_email decrypt (some encrypted) = mask_decrypted (decrypt encrypted)
