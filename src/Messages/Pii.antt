-- ===== src/Messages/Pii.antt =====
-- repo/backend/internal/service/pii.go: the patterns of personal data, and how package regexp searches for
-- such a pattern. A text is the list of its bytes; a byte above 127 is in none of the classes and is no
-- word character, as the code point that it is part of.
use w1t.Base.{ℕ, Bool, true, false, not, ◌&&◌, ◌||◌, List, [], ◌∷◌, Option, none, some, leb, ◌==◌}

-- The parts of the patterns: a class, `…*` of a class, `\b`, `…?`, and one after the other.
pub data Regex : Type 0 where
  class : (ℕ → Bool) → Regex
  many : (ℕ → Bool) → Regex
  boundary : Regex
  optional : Regex → Regex
  followed_by : Regex → Regex → Regex

abbrev pub is_digit : ℕ → Bool
is_digit c = leb b'0' c && leb c b'9'

abbrev pub is_letter : ℕ → Bool
is_letter c = (leb b'A' c && leb c b'Z') || (leb b'a' c && leb c b'z')

-- `\w`
abbrev pub is_word : ℕ → Bool
is_word c = is_digit c || (is_letter c || c == b'_')

abbrev pub word_at : Option ℕ → Bool
word_at none = false
word_at (some c) = is_word c

abbrev pub first : List ℕ → Option ℕ
first [] = none
first (c ∷ cs) = some c

abbrev pub xor : Bool → Bool → Bool
xor true b = not b
xor false b = b

-- What is left to match, from the byte before and the bytes ahead.
abbrev pub Rest : Type 0
Rest = Option ℕ → List ℕ → Bool

unfoldable pub match_many : (ℕ → Bool) → Rest → Rest
match_many p k prev [] = k prev []
match_many p k prev (c ∷ cs) = k prev (c ∷ cs) || (p c && match_many p k (some c) cs)

abbrev pub match_class : (ℕ → Bool) → Rest → Rest
match_class p k prev [] = false
match_class p k prev (c ∷ cs) = p c && k (some c) cs

-- A match of the pattern from here on, after which the rest matches.
unfoldable pub match_here : Regex → Rest → Rest
match_here (class p) k prev text = match_class p k prev text
match_here (many p) k prev text = match_many p k prev text
match_here boundary k prev text = xor (word_at prev) (word_at (first text)) && k prev text
match_here (optional r) k prev text = k prev text || match_here r k prev text
match_here (followed_by r s) k prev text = match_here r (match_here s k) prev text

abbrev pub any_rest : Rest
any_rest prev text = true

-- The search for a match from some position on.
unfoldable pub match_from : Regex → Rest
match_from r prev [] = match_here r any_rest prev []
match_from r prev (c ∷ cs) = match_here r any_rest prev (c ∷ cs) || match_from r (some c) cs

-- `MatchString`
unfoldable pub match_string : Regex → List ℕ → Bool
match_string r text = match_from r none text

infixr 60 ◌∙∙◌
abbrev pub ◌∙∙◌ : Regex → Regex → Regex
r ∙∙ s = followed_by r s

abbrev pub is_char : ℕ → Regex
is_char c = class (λ d. d == c)

abbrev pub digit : Regex
digit = class is_digit

abbrev pub three_digits : Regex
three_digits = digit ∙∙ digit ∙∙ digit

abbrev pub four_digits : Regex
four_digits = digit ∙∙ digit ∙∙ digit ∙∙ digit

-- `\b\d{3}-?\d{2}-?\d{4}\b`
abbrev pub ssn_regex : Regex
ssn_regex =
    boundary
    ∙∙ three_digits
    ∙∙ optional (is_char b'-')
    ∙∙ digit
    ∙∙ digit
    ∙∙ optional (is_char b'-')
    ∙∙ four_digits
    ∙∙ boundary

-- `\s`
abbrev is_space : ℕ → Bool
is_space c = c == 32 || (c == 9 || (c == 10 || (c == 12 || c == 13)))

-- `[-.\s]?`
abbrev separator : Regex
separator = optional (class (λ c. c == b'-' || (c == b'.' || is_space c)))

-- `\b(\+?1[-.\s]?)?\(?\d{3}\)?[-.\s]?\d{3}[-.\s]?\d{4}\b`
abbrev pub phone_regex : Regex
phone_regex =
    boundary
    ∙∙ optional (optional (is_char b'+') ∙∙ is_char b'1' ∙∙ separator)
    ∙∙ optional (is_char 40)
    ∙∙ three_digits
    ∙∙ optional (is_char 41)
    ∙∙ separator
    ∙∙ three_digits
    ∙∙ separator
    ∙∙ four_digits
    ∙∙ boundary

abbrev one_or_more : (ℕ → Bool) → Regex
one_or_more p = class p ∙∙ many p

-- `[A-Za-z0-9.\-]`, and `[A-Za-z0-9._%+\-]`
abbrev is_host : ℕ → Bool
is_host c = is_letter c || (is_digit c || (c == b'.' || c == b'-'))

abbrev is_local : ℕ → Bool
is_local c = is_host c || (c == b'_' || (c == b'%' || c == b'+'))

-- `\b[A-Za-z0-9._%+\-]+@[A-Za-z0-9.\-]+\.[A-Za-z]{2}\b`
abbrev pub email_regex : Regex
email_regex =
    boundary
    ∙∙ one_or_more is_local
    ∙∙ is_char b'@'
    ∙∙ one_or_more is_host
    ∙∙ is_char b'.'
    ∙∙ class is_letter
    ∙∙ one_or_more is_letter
    ∙∙ boundary

pub data PiiType : Type 0 where
  ssn phone_number email_address : PiiType

abbrev pub pattern_of : PiiType → Regex
pattern_of ssn = ssn_regex
pattern_of phone_number = phone_regex
pattern_of email_address = email_regex

abbrev pub note : PiiType → Bool → List PiiType → List PiiType
note t true ts = t ∷ ts
note t false ts = ts

-- `DetectPII`: the types that the text holds; it is detected where there is one.
unfoldable pub pii_types : List ℕ → List PiiType
unfolding match_string
pii_types text = note ssn (match_string ssn_regex text) (
    note phone_number (match_string phone_regex text)
      (note email_address (match_string email_regex text) []))

abbrev pub is_nonempty : List PiiType → Bool
is_nonempty [] = false
is_nonempty (t ∷ ts) = true

unfoldable pub detect_pii : List ℕ → Bool
detect_pii text = is_nonempty (pii_types text)
