-- ===== src/Base/Bits/Step.antt =====
-- The native `&` and `|` are defined by digits with fuel. One digit is split off here, where the
-- rest of the digits has more fuel than it needs: a surplus makes no difference.
use Prim.Native.Nat.{
  ℕ, zero, suc, ◌+◌, ◌-◌, ◌*◌, ◌/◌, ◌%◌, ◌≤◌, min, max, bit_and, bit_or, digits, bit_and-bitwise,
  bit_or-bitwise,
}
use mathlib.Core.Path.{◌≡◌, refl, sym, ap, ◌∙◌}
use native.Mathlib.Omega.{arith}

-- The law of a digit, for what is left at the end and the operation on one digit.
module _ (left : ℕ → ℕ) (combine : ℕ → ℕ → ℕ) where
  surplus_one :
      (fuel x y : ℕ) → x ≤ fuel → digits left combine (suc fuel) x y ≡ digits left combine fuel x y
  surplus_one zero zero y le = refl
  surplus_one zero (suc x) y le = absurd (omega arith)
  surplus_one (suc fuel) zero y le = refl
  surplus_one (suc fuel) (suc x) y le =
      let halves = surplus_one fuel (suc x / 2) (y / 2) (omega arith) in
      ap (λ d. d * 2 + combine (suc x % 2) (y % 2)) halves

  surplus :
      (extra fuel x y : ℕ)
      → x ≤ fuel
      → digits left combine (extra + fuel) x y ≡ digits left combine fuel x y
  surplus zero fuel x y le = let same : 0 + fuel ≡ fuel = omega arith in rw same refl
  surplus (suc extra) fuel x y le =
      let more : suc extra + fuel ≡ suc (extra + fuel) = omega arith in
      rw more (surplus_one (extra + fuel) x y (omega arith) ∙ surplus extra fuel x y le)

  first_digit :
      (x y : ℕ)
      → digits left combine (suc x) (suc x) y
        ≡ digits left combine (suc x / 2) (suc x / 2) (y / 2) * 2 + combine (suc x % 2) (y % 2)
  first_digit x y =
      let spare : x - suc x / 2 + suc x / 2 ≡ x = omega arith in
      let trim = surplus (x - suc x / 2) (suc x / 2) (suc x / 2) (y / 2) (omega arith) in
      ap (λ d. d * 2 + combine (suc x % 2) (y % 2))
        (ap (λ fuel. digits left combine fuel (suc x / 2) (y / 2)) (sym spare) ∙ trim)

pub bit_or_step : (a b : ℕ) → bit_or a b ≡ bit_or (a / 2) (b / 2) * 2 + max (a % 2) (b % 2)
bit_or_step zero b = omega (arith, bit_or-bitwise 0 b, bit_or-bitwise 0 (b / 2))
bit_or_step (suc a) b =
    bit_or-bitwise (suc a) b
    ∙ first_digit (λ rest. rest) max a b
    ∙ ap (λ half. half * 2 + max (suc a % 2) (b % 2)) (sym (bit_or-bitwise (suc a / 2) (b / 2)))

pub bit_and_step : (a b : ℕ) → bit_and a b ≡ bit_and (a / 2) (b / 2) * 2 + min (a % 2) (b % 2)
bit_and_step zero b = omega (arith, bit_and-bitwise 0 b, bit_and-bitwise 0 (b / 2))
bit_and_step (suc a) b =
    bit_and-bitwise (suc a) b
    ∙ first_digit (λ _. 0) min a b
    ∙ ap (λ half. half * 2 + min (suc a % 2) (b % 2)) (sym (bit_and-bitwise (suc a / 2) (b / 2)))
