-- ===== src/Base/Text.antt =====
-- Text: equality of whole texts, and membership in a list of texts.
use Prim.Native.Nat.{ℕ, zero, suc, ◌/◌, ◌%◌}
use Prim.Native.String
use Prim.Native.String.{String}
use Prim.Native.String.append.{cons, nil}
use Prim.Native.Char.{Char}
use mathlib.Core.Path.{◌≡◌, refl, sym, subst, ◌∙◌}
use native.Mathlib.Omega.{arith}
use mathlib.Core.Logic.{◌↔◌}
use mathlib.Core.Bool.{Bool, true, false, ◌&&◌}
use mathlib.Core.List.{List, [], ◌∷◌}
use text.Mathlib.Text.{◌==◌}
use text.Mathlib.TextEquality.{eq_iff}
use w1t.Base.Tests.{if◌then◌else◌, ltb}

unfoldable pub str_eq : String → String → Bool
str_eq s t = s == t

pub str_eq_iff : (s t : String) → (str_eq s t ≡ true) ↔ (s ≡ t)
unfolding str_eq
str_eq_iff s t = eq_iff s t

pub str_eq_refl : (s : String) → str_eq s s ≡ true
str_eq_refl s = (str_eq_iff s s).1 refl

-- `xs` holds `s`.
abbrev pub contains : String → List String → Bool
contains s [] = false
contains s (x ∷ xs) = if str_eq x s then true else contains s xs

-- `len(s) >= len(prefix) && s[:len(prefix)] == prefix`
unfoldable pub starts_with : String → String → Bool
unfolding str_eq
starts_with String.[] s = true
starts_with (String.◌∷◌ c p) String.[] = false
starts_with (String.◌∷◌ c p) (String.◌∷◌ d s) =
    str_eq (String.◌∷◌ c "") (String.◌∷◌ d "") && starts_with p s

abbrev nth : ℕ → List String → String
nth n [] = ""
nth zero (x ∷ xs) = x
nth (suc n) (x ∷ xs) = nth n xs

abbrev digit : ℕ → String
digit n = nth n ("0" ∷ "1" ∷ "2" ∷ "3" ∷ "4" ∷ "5" ∷ "6" ∷ "7" ∷ "8" ∷ "9" ∷ [])

-- `%d`, with as many steps as the number has digits or more.
abbrev decimal_within : ℕ → ℕ → String
decimal_within zero n = ""
decimal_within (suc fuel) n =
    let rest : String = decimal_within fuel (n / 10) in
    if ltb n 10 then digit n else String.◌++◌ rest (digit (n % 10))

unfoldable pub decimal : ℕ → String
decimal n = decimal_within (suc n) n

append_cons :
    (c : Char) (s t : String) → String.◌++◌ (String.◌∷◌ c s) t ≡ String.◌∷◌ c (String.◌++◌ s t)
append_cons c s t = λ i. cons c s t i

pub append_nil : (t : String) → String.◌++◌ "" t ≡ t
append_nil t = λ i. nil t i

-- A longer text has the same beginning.
pub starts_with-append :
    (p q s : String) → starts_with p q ≡ true → starts_with p (String.◌++◌ q s) ≡ true
unfolding starts_with
starts_with-append String.[] q s h = refl
starts_with-append (String.◌∷◌ a p) String.[] s h = absurd (ground (arith, h))
starts_with-append (String.◌∷◌ a p) (String.◌∷◌ b q) s h =
    subst (λ t. starts_with (String.◌∷◌ a p) t ≡ true) (sym (append_cons b q s))
      (both (str_eq (String.◌∷◌ a "") (String.◌∷◌ b "")) h (starts_with-append p q s))
  where
    both :
        (c : Bool)
        → c && starts_with p q ≡ true
        → (starts_with p q ≡ true → starts_with p (String.◌++◌ q s) ≡ true)
        → c && starts_with p (String.◌++◌ q s) ≡ true
    both true k f = f k
    both false k f = absurd (ground (arith, k))

cons_tail : (c : Char) (s t : String) → String.◌∷◌ c s ≡ String.◌∷◌ c t → s ≡ t
cons_tail c s t h = cc

-- Texts that are equal after the same beginning are equal.
pub append_cancel : (p s t : String) → String.◌++◌ p s ≡ String.◌++◌ p t → s ≡ t
append_cancel String.[] s t h = sym (append_nil s) ∙ h ∙ append_nil t
append_cancel (String.◌∷◌ c p) s t h =
    append_cancel p s t (cons_tail c _ _ (sym (append_cons c p s) ∙ h ∙ append_cons c p t))
