-- ===== src/Messages/Runs.antt =====
-- What a search of the printable runs of a file can rely on.
use w1t.Base.{
  ℕ, ◌+◌, ◌≤◌, Bool, true, false, ◌≡◌, refl, sym, ap, subst, ◌∙◌, ◌⊎◌, inl, inr, List, [], ◌∷◌,
  ◌++◌, length, All, arith, leb, Bool-cases, if◌then◌else◌,
}
use w1t.Messages.Scan.{
  Bytes, is_printable, keep_part, ascii_runs, spaced, join_parts, extract_ascii_strings,
}

-- `x` is a part of `ys`.
abbrev pub Within : Bytes → Bytes → Type 0
Within x ys = (a : Bytes) × (b : Bytes) × (ys ≡ a ++ (x ++ b))

abbrev WithinOne : Bytes → List Bytes → Type 0
WithinOne x [] = ⊥
WithinOne x (p ∷ ps) = Within x p ⊎ WithinOne x ps

append_assoc : (a b c : Bytes) → (a ++ b) ++ c ≡ a ++ (b ++ c)
append_assoc [] b c = refl
append_assoc (x ∷ a) b c = ap (λ (l : Bytes). x ∷ l) (append_assoc a b c)

Within-append : (x p q : Bytes) → Within x p → Within x (p ++ q)
Within-append x p q (a, b, e) = (
  a,
  b ++ q,
  ap (λ (l : Bytes). l ++ q) e
      ∙ append_assoc a (x ++ b) q
      ∙ ap (λ (l : Bytes). a ++ l) (append_assoc x b q),
)

Within-after : (x p q : Bytes) → Within x q → Within x (p ++ q)
Within-after x p q (a, b, e) =
    (p ++ a, b, ap (λ (l : Bytes). p ++ l) e ∙ sym (append_assoc p a (x ++ b)))

Within-spaced : (x : Bytes) (ps : List Bytes) → WithinOne x ps → Within x (spaced ps)
Within-spaced x [] h = absurd h
Within-spaced x (p ∷ ps) (inl h) =
    Within-after x (32 ∷ []) (p ++ spaced ps) (Within-append x p (spaced ps) h)
Within-spaced x (p ∷ ps) (inr h) =
    Within-after x (32 ∷ []) (p ++ spaced ps) (Within-after x p (spaced ps) (Within-spaced x ps h))

Within-join : (x : Bytes) (ps : List Bytes) → WithinOne x ps → Within x (join_parts ps)
Within-join x [] h = absurd h
Within-join x (p ∷ ps) (inl h) = Within-append x p (spaced ps) h
Within-join x (p ∷ ps) (inr h) = Within-after x p (spaced ps) (Within-spaced x ps h)

length-append : (a b : Bytes) → length (a ++ b) ≡ length a + length b
length-append [] b = omega arith
length-append (x ∷ a) b = omega (arith, length-append a b)

module _ (min_len : ℕ) where
  WithinOne-keep :
      (x current : Bytes) (ps : List Bytes)
      → WithinOne x ps
      → WithinOne x (keep_part min_len current ps)
  WithinOne-keep x current ps h = kept (leb min_len (length current))
    where
      kept : (b : Bool) → WithinOne x (if b then current ∷ ps else ps)
      kept true = inr h
      kept false = h

  keep_long :
      (x current : Bytes) (ps : List Bytes)
      → min_len ≤ length current
      → Within x current
      → WithinOne x (keep_part min_len current ps)
  keep_long x current ps long h = kept (leb min_len (length current)) (ground arith)
    where
      kept : (b : Bool) → b ≡ true → WithinOne x (if b then current ∷ ps else ps)
      kept true e = inl h
      kept false e = cc

  -- A long run stays a part of what it grows into.
  grown :
      (x current rest : Bytes)
      → min_len ≤ length current
      → Within x current
      → WithinOne x (ascii_runs min_len current rest)
  unfolding ascii_runs
  grown x current [] long h = keep_long x current [] long h
  grown x current (b ∷ bs) long h = elim (Bool-cases (is_printable b)) [
    | inl printable ↦ rw printable (
        grown x (current ++ (b ∷ [])) bs (omega (arith, length-append current (b ∷ [])))
          (Within-append x current (b ∷ []) h))
    | inr other ↦ rw other (keep_long x current (ascii_runs min_len [] bs) long h)
  ]

  append-nil : (a : Bytes) → a ++ [] ≡ a
  append-nil [] = refl
  append-nil (x ∷ a) = ap (λ (l : Bytes). x ∷ l) (append-nil a)

  -- The run that comes next is read to its end.
  run_read :
      (x current run rest : Bytes)
      → All (λ b. is_printable b ≡ true) run
      → min_len ≤ length (current ++ run)
      → Within x (current ++ run)
      → WithinOne x (ascii_runs min_len current (run ++ rest))
  unfolding ascii_runs
  run_read x current [] rest all long h =
      grown x current rest (subst (λ (l : Bytes). min_len ≤ length l) (append-nil current) long)
        (subst (λ l. Within x l) (append-nil current) h)
  run_read x current (b ∷ run) rest all long h = rw all.0 (
      run_read x (current ++ (b ∷ [])) run rest all.1
        (subst (λ (l : Bytes). min_len ≤ length l) (sym (append_assoc current (b ∷ []) run)) long)
        (subst (λ l. Within x l) (sym (append_assoc current (b ∷ []) run)) h))

  run_found :
      (current before run after : Bytes)
      → All (λ b. is_printable b ≡ true) run
      → min_len ≤ length run
      → WithinOne run (ascii_runs min_len current (before ++ (run ++ after)))
  unfolding ascii_runs
  run_found current [] run after all long =
      run_read run current run after all (omega (arith, length-append current run))
        (Within-after run current run ([], [], sym (append-nil run)))
  run_found current (b ∷ before) run after all long = elim (Bool-cases (is_printable b)) [
    | inl printable ↦ rw printable (run_found (current ++ (b ∷ [])) before run after all long)
    | inr other ↦ rw other (WithinOne-keep run current _ (run_found [] before run after all long))
  ]

-- No printable run of a file that is long enough is lost: it is a part of the text that is searched.
pub extract_ascii_strings-Within :
    (min_len : ℕ) (before run after : Bytes)
    → All (λ b. is_printable b ≡ true) run
    → min_len ≤ length run
    → Within run (extract_ascii_strings min_len (before ++ (run ++ after)))
unfolding extract_ascii_strings
extract_ascii_strings-Within min_len before run after all long =
    Within-join run _ (run_found min_len [] before run after all long)
