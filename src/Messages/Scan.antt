-- ===== src/Messages/Scan.antt =====
-- repo/backend/internal/service/text_extract.go without extractPDFText, which is a parameter here: the
-- text of an attachment that is searched for personal data. Texts are lists of bytes, file names and
-- extensions lists of code points.
use Prim.Native.Char.{code}
use w1t.Base.{
  ℕ, ◌+◌, String, Bool, true, false, ◌&&◌, ◌||◌, List, [], ◌∷◌, ◌++◌, map, length, ltb, leb, ◌==◌,
  str_eq, starts_with, if◌then◌else◌,
}

abbrev pub Bytes : Type 0
Bytes = List ℕ

abbrev pub is_printable : ℕ → Bool
is_printable b = leb 32 b && ltb b 127

-- A run that ends is a part if it is long enough.
abbrev pub keep_part : ℕ → Bytes → List Bytes → List Bytes
keep_part min_len current parts = if leb min_len (length current) then current ∷ parts else parts

-- The loop of `extractASCIIStrings`, from the current run on.
unfoldable pub ascii_runs : ℕ → Bytes → Bytes → List Bytes
ascii_runs min_len current [] = keep_part min_len current []
ascii_runs min_len current (b ∷ bs) =
    let run = ascii_runs min_len (current ++ (b ∷ [])) bs in
    let stop = ascii_runs min_len [] bs in
    if is_printable b then run else keep_part min_len current stop

abbrev pub spaced : List Bytes → Bytes
spaced [] = []
spaced (p ∷ ps) = 32 ∷ (p ++ spaced ps)

-- `strings.Join(parts, " ")`
abbrev pub join_parts : List Bytes → Bytes
join_parts [] = []
join_parts (p ∷ ps) = p ++ spaced ps

-- `extractASCIIStrings`
unfoldable pub extract_ascii_strings : ℕ → Bytes → Bytes
extract_ascii_strings min_len content = join_parts (ascii_runs min_len [] content)

abbrev pub codes : String → List ℕ
codes String.[] = []
codes (String.◌∷◌ c s) = code c ∷ codes s

abbrev pub same_codes : List ℕ → List ℕ → Bool
same_codes [] [] = true
same_codes [] (d ∷ ds) = false
same_codes (c ∷ cs) [] = false
same_codes (c ∷ cs) (d ∷ ds) = c == d && same_codes cs ds

-- `strings.ToLower`, as far as it yields ASCII: U+0130 and the Kelvin sign have ASCII lower cases too.
abbrev pub to_lower : List ℕ → List ℕ
to_lower cs =
    map
      (λ c.
        if leb b'A' c && leb c b'Z'
        then c + 32
        else if c == 304
        then b'i'
        else if c == 8490
        then b'k'
        else c)
      cs

abbrev pub is_ext : List ℕ → String → Bool
is_ext ext s = same_codes (to_lower ext) (codes s)

-- `ExtractScannableText`
unfoldable pub extract_scannable_text : (Bytes → Bytes) → Bytes → String → List ℕ → Bytes
extract_scannable_text pdf_text content mime ext =
    if starts_with "text/" mime
      || (is_ext ext ".csv"
          || (is_ext ext ".txt" || (str_eq mime "image/svg+xml" || is_ext ext ".svg")))
    then content
    else if str_eq mime "application/pdf" || is_ext ext ".pdf"
    then pdf_text content
    else extract_ascii_strings 8 content
