-- ===== src/Base/Bits.antt =====
-- The binary digits of a number, and what `&` and `|` do to each of them.
mod Step
mod Parts
pub use Parts.{bit_or-parts, bit_and-parts, bit_and-ones, bit_or-zero, zero-bit_or}
use Step.{bit_or_step, bit_and_step}
use Prim.Native.Nat.{
  ℕ, zero, suc, ◌+◌, ◌-◌, ◌*◌, ◌/◌, ◌%◌, ◌^◌, ◌≤◌, ◌<◌, min, max, bit_and, bit_or, bit_and-bitwise,
  bit_or-bitwise,
}
use mathlib.Core.Path.{◌≡◌, refl, ap}
use mathlib.Core.Logic.{◌↔◌, ◌⊎◌, inl, inr}
use mathlib.Core.Bool.{true}
use native.Mathlib.Nat.{pow-suc, one-le-pow}
use native.Mathlib.Omega.{arith}
use yotos.Base.Tests.{◌==◌, if◌then◌else◌}

-- The digit of weight 2 ^ k.
unfoldable pub bit : ℕ → ℕ → ℕ
bit zero a = a % 2
bit (suc k) a = bit k (a / 2)

pub bit-lt : (k a : ℕ) → bit k a < 2
unfolding bit
bit-lt zero a = omega arith
bit-lt (suc k) a = bit-lt k (a / 2)

pub bit-bit_or : (k a b : ℕ) → bit k (bit_or a b) ≡ max (bit k a) (bit k b)
unfolding bit
bit-bit_or zero a b = omega (arith, bit_or_step a b)
bit-bit_or (suc k) a b =
    let half : bit_or a b / 2 ≡ bit_or (a / 2) (b / 2) = omega (arith, bit_or_step a b) in
    rw half (bit-bit_or k (a / 2) (b / 2))

pub bit-bit_and : (k a b : ℕ) → bit k (bit_and a b) ≡ min (bit k a) (bit k b)
unfolding bit
bit-bit_and zero a b = omega (arith, bit_and_step a b)
bit-bit_and (suc k) a b =
    let half : bit_and a b / 2 ≡ bit_and (a / 2) (b / 2) = omega (arith, bit_and_step a b) in
    rw half (bit-bit_and k (a / 2) (b / 2))

pub bit-zero : (k : ℕ) → bit k 0 ≡ 0
unfolding bit
bit-zero zero = refl
bit-zero (suc k) = bit-zero k

pub bit-pow : (k j : ℕ) → bit k (2 ^ j) ≡ (if k == j then 1 else 0)
unfolding bit
bit-pow zero zero = refl
bit-pow zero (suc j) = ground (arith, pow-suc 2 j)
bit-pow (suc k) zero = ground (arith, bit-zero k)
bit-pow (suc k) (suc j) =
    let half : 2 ^ suc j / 2 ≡ 2 ^ j = omega (arith, pow-suc 2 j) in
    rw half (ground (arith, bit-pow k j))

pub bit_and-le : (n a b : ℕ) → a ≤ n → bit_and a b ≤ a
bit_and-le n zero b h = omega (arith, bit_and-bitwise 0 b)
bit_and-le zero (suc a) b h = absurd (omega arith)
bit_and-le (suc n) (suc a) b h =
    omega (arith, bit_and_step (suc a) b, bit_and-le n (suc a / 2) (b / 2) (omega arith))

pub bit_and-zero : (n a : ℕ) → a ≤ n → bit_and a 0 ≡ 0
bit_and-zero n zero h = refl
bit_and-zero zero (suc a) h = absurd (omega arith)
bit_and-zero (suc n) (suc a) h =
    omega (arith, bit_and_step (suc a) 0, bit_and-zero n (suc a / 2) (omega arith))

-- `a & (1 << j)` is the digit at its weight.
pub bit_and-pow : (j a : ℕ) → bit_and a (2 ^ j) ≡ bit j a * 2 ^ j
unfolding bit
bit_and-pow zero a = omega (arith, bit_and_step a 1, bit_and-zero (a / 2) (a / 2) (omega arith))
bit_and-pow (suc j) a =
    let half : 2 ^ suc j / 2 ≡ 2 ^ j = omega (arith, pow-suc 2 j) in
    let step : bit_and a (2 ^ suc j) ≡ bit_and (a / 2) (2 ^ j) * 2 =
      rw (bit_and_step a (2 ^ suc j), half) (omega (arith, pow-suc 2 j)) in
    omega (
      arith,
      step,
      bit_and-pow j (a / 2),
      pow-suc 2 j,
      ap (λ (t : ℕ). bit j (a / 2) * t) (pow-suc 2 j),
    )

-- `a & (1 << j)` is zero exactly when the digit is.
pub bit_and-pow_iff : (j a : ℕ) → ((bit_and a (2 ^ j) == 0) ≡ true) ↔ (bit j a ≡ 0)
bit_and-pow_iff j a = elim (two (bit j a) (bit-lt j a)) [
  | inl e ↦
      let z : bit_and a (2 ^ j) ≡ 0 = omega (arith, bit_and-pow j a, ap (λ (t : ℕ). t * 2 ^ j) e) in
      (λ _. e, λ _. ground arith)
  | inr e ↦
      let z : bit_and a (2 ^ j) ≡ 2 ^ j =
        omega (arith, bit_and-pow j a, ap (λ (t : ℕ). t * 2 ^ j) e) in
      (λ h. absurd (ground (arith, one-le-pow j 2)), λ h. absurd (omega arith))
]
  where
    two : (x : ℕ) → x < 2 → (x ≡ 0) ⊎ (x ≡ 1)
    two x h = omega arith

-- A number of n digits that are all ones is 2 ^ n - 1.
pub all_ones : (n a : ℕ) → a < 2 ^ n → ((k : ℕ) → k < n → bit k a ≡ 1) → suc a ≡ 2 ^ n
unfolding bit
all_ones zero a h ones = omega arith
all_ones (suc n) a h ones = omega (
  arith,
  pow-suc 2 n,
  all_ones n (a / 2) (omega (arith, pow-suc 2 n)) (λ k lt. ones (suc k) (omega arith)),
  ones 0 (omega arith),
)

-- The digits of a number of n ones.
pub bit-ones : (n k : ℕ) → k < n → bit k (2 ^ n - 1) ≡ 1
unfolding bit
bit-ones zero k h = absurd (omega arith)
bit-ones (suc n) zero h = omega (arith, pow-suc 2 n, one-le-pow n 2)
bit-ones (suc n) (suc k) h =
    let half : (2 ^ suc n - 1) / 2 ≡ 2 ^ n - 1 = omega (arith, pow-suc 2 n, one-le-pow n 2) in
    rw half (bit-ones n k (omega arith))

pub pow-lt : (j n : ℕ) → j < n → 2 ^ j < 2 ^ n
pow-lt j zero h = absurd (omega arith)
pow-lt zero (suc n) h = omega (arith, pow-suc 2 n, one-le-pow n 2)
pow-lt (suc j) (suc n) h = omega (arith, pow-suc 2 n, pow-suc 2 j, pow-lt j n (omega arith))

-- The digits of the complement of one bit: all ones but that one.
pub bit-complement :
    (n j k : ℕ) → j < n → k < n → bit k (2 ^ n - 1 - 2 ^ j) ≡ (if k == j then 0 else 1)
unfolding bit
bit-complement zero j k p q = absurd (omega arith)
bit-complement (suc n) zero zero p q = omega (arith, pow-suc 2 n, one-le-pow n 2)
bit-complement (suc n) zero (suc k) p q =
    let half : (2 ^ suc n - 1 - 1) / 2 ≡ 2 ^ n - 1 = omega (arith, pow-suc 2 n, one-le-pow n 2) in
    rw half (ground (arith, bit-ones n k))
bit-complement (suc n) (suc j) zero p q =
    ground (arith, pow-suc 2 n, pow-suc 2 j, pow-lt j n (omega arith))
bit-complement (suc n) (suc j) (suc k) p q =
    let half : (2 ^ suc n - 1 - 2 ^ suc j) / 2 ≡ 2 ^ n - 1 - 2 ^ j =
      omega (arith, pow-suc 2 n, pow-suc 2 j, pow-lt j n (omega arith)) in
    rw half (ground (arith, bit-complement n j k))

-- The low digits of a number that ends in e ones.
pub bit-low_ones : (e j q : ℕ) → j < e → bit j (q * 2 ^ e + (2 ^ e - 1)) ≡ 1
unfolding bit
bit-low_ones zero j q h = absurd (omega arith)
bit-low_ones (suc e) zero q h =
    omega (arith, pow-suc 2 e, one-le-pow e 2, ap (λ (t : ℕ). q * t) (pow-suc 2 e))
bit-low_ones (suc e) (suc j) q h =
    let half : (q * 2 ^ suc e + (2 ^ suc e - 1)) / 2 ≡ q * 2 ^ e + (2 ^ e - 1) =
      omega (arith, pow-suc 2 e, one-le-pow e 2, ap (λ (t : ℕ). q * t) (pow-suc 2 e)) in
    rw half (bit-low_ones e j q (omega arith))

pub bit_or-lt : (n a b : ℕ) → a < 2 ^ n → b < 2 ^ n → bit_or a b < 2 ^ n
bit_or-lt zero a b p q =
    let a0 : a ≡ 0 = omega arith in let b0 : b ≡ 0 = omega arith in rw (a0, b0) (omega arith)
bit_or-lt (suc n) a b p q = omega (
  arith,
  pow-suc 2 n,
  bit_or_step a b,
  bit_or-lt n (a / 2) (b / 2) (omega (arith, pow-suc 2 n)) (omega (arith, pow-suc 2 n)),
)

-- `a | f << 4` of a number of four digits.
pub bit_or-nibbles : (a f : ℕ) → a < 16 → bit_or a (f * 16) ≡ a + f * 16
bit_or-nibbles a f h =
    let rest : a / 2 / 2 / 2 / 2 ≡ 0 = omega arith in
    let zero_or : bit_or (a / 2 / 2 / 2 / 2) (f * 16 / 2 / 2 / 2 / 2) ≡ f * 16 / 2 / 2 / 2 / 2 =
      rw rest (simp bit_or-bitwise refl) in
    omega (
      arith,
      zero_or,
      bit_or_step a (f * 16),
      bit_or_step (a / 2) (f * 16 / 2),
      bit_or_step (a / 2 / 2) (f * 16 / 2 / 2),
      bit_or_step (a / 2 / 2 / 2) (f * 16 / 2 / 2 / 2),
    )
