-- ===== src/Base/Float.antt =====
-- IEEE 754 binary64, as Go's `float64`, for numbers that are not negative: a number is a fraction with a
-- numerator and a denominator, and each operation rounds the exact result to 53 significant bits, ties to
-- even. For fractions between 2 ^ -76 and 2 ^ 128, which are far from overflow and from
-- subnormal numbers.
use Prim.Native.Nat.{ℕ, zero, suc, ◌-◌, ◌*◌, ◌/◌, ◌%◌, ◌^◌, ◌≤◌}
use mathlib.Core.Bool.{Bool, true, false}
use native.Mathlib.Omega.{arith}
use mathlib.Core.Path.{◌≡◌, refl, subst, sym}
use w1t.Base.Tests.{if◌then◌else◌, ltb, leb, ◌==◌}

abbrev pub Float64 : Type 0
Float64 = ℕ × ℕ

-- The number of doublings after which `n` reaches the bound.
unfoldable pub doublings : ℕ → ℕ → ℕ → ℕ
doublings zero bound n = 0
doublings (suc fuel) bound n =
    let rest : ℕ = doublings fuel bound (2 * n) in if leb bound n then 0 else suc rest

twice : (n k : ℕ) → n * 2 ^ suc k ≡ (2 * n) * 2 ^ k
twice n k = grind arith

-- The fuel is enough where it reaches the bound itself.
doublings_enough :
    (fuel bound n : ℕ) → bound ≤ n * 2 ^ fuel → bound ≤ n * 2 ^ doublings fuel bound n
unfolding doublings
doublings_enough zero bound n h = h
doublings_enough (suc fuel) bound n h =
    by_case (leb bound n) refl
      (doublings_enough fuel bound (2 * n) (subst (λ m. bound ≤ m) (twice n fuel) h))
  where
    by_case :
        (b : Bool)
        → leb bound n ≡ b
        → bound ≤ (2 * n) * 2 ^ doublings fuel bound (2 * n)
        → bound ≤ n * 2 ^ (if b then 0 else suc (doublings fuel bound (2 * n)))
    by_case true e k = ground (arith, e)
    by_case false e k = subst (λ m. bound ≤ m) (sym (twice n (doublings fuel bound (2 * n)))) k

-- The whole number next to `a` over `b`.
abbrev nearest : ℕ → ℕ → ℕ
nearest a b =
    let q : ℕ = a / b in
    let r : ℕ = a % b in
    if ltb (2 * r) b then q else if ltb b (2 * r) then suc q else if q % 2 == 0 then q else suc q

-- With 53 significant bits, after as many doublings of the one side or the other.
unfoldable pub round : Float64 → Float64
unfolding doublings
round (n, d) =
    let up : ℕ = doublings 128 (2 ^ 52 * d) n in
    let down : ℕ = doublings 128 (suc n) (2 ^ 53 * d) in
    (nearest (n * 2 ^ up) (d * 2 ^ down) * 2 ^ down, 2 ^ up)

-- `float64(n)`
unfoldable pub float64 : ℕ → Float64
float64 n = round (n, 1)

unfoldable pub quotient : Float64 → Float64 → Float64
quotient (a, b) (c, d) = round (a * d, b * c)

-- 0 where the second is greater.
unfoldable pub difference : Float64 → Float64 → Float64
difference (a, b) (c, d) = round (a * d - c * b, b * d)

unfoldable pub product : Float64 → Float64 → Float64
product (a, b) (c, d) = round (a * c, b * d)

abbrev pub exceeds : Float64 → Float64 → Bool
exceeds (a, b) (c, d) = ltb (c * b) (a * d)
