-- ===== src/Base/Bits/Parts.antt =====
-- What `&` and `|` do to numbers that are cut at a power of two.
use yotos.Base.Bits.Step.{bit_or_step, bit_and_step}
use Prim.Native.Nat.{ℕ, zero, suc, ◌+◌, ◌-◌, ◌*◌, ◌/◌, ◌^◌, ◌≤◌, ◌<◌, bit_and, bit_or}
use mathlib.Core.Path.{◌≡◌, refl, ap}
use native.Mathlib.Nat.{pow-suc, one-le-pow}
use native.Mathlib.Omega.{arith}

-- A product with the next power of two.
double : (n b : ℕ) → b * 2 ^ suc n ≡ 2 * (b * 2 ^ n)
double n b = omega (arith, ap (λ (t : ℕ). b * t) (pow-suc 2 n))

-- `|` acts on the two parts of its operands.
pub bit_or-parts :
    (n a b c d : ℕ)
    → a < 2 ^ n
    → c < 2 ^ n
    → bit_or (b * 2 ^ n + a) (d * 2 ^ n + c) ≡ bit_or b d * 2 ^ n + bit_or a c
bit_or-parts zero a b c d h k =
    let a0 : a ≡ 0 = omega arith in
    let c0 : c ≡ 0 = omega arith in
    let x : b * 2 ^ 0 + a ≡ b = omega arith in
    let y : d * 2 ^ 0 + c ≡ d = omega arith in rw (x, y, a0, c0) (omega (arith, zero_or))
  where
    zero_or : bit_or 0 0 ≡ 0
    zero_or = refl
bit_or-parts (suc n) a b c d h k =
    let x : (b * 2 ^ suc n + a) / 2 ≡ b * 2 ^ n + a / 2 = omega (arith, double n b) in
    let y : (d * 2 ^ suc n + c) / 2 ≡ d * 2 ^ n + c / 2 = omega (arith, double n d) in
    let halves : bit_or ((b * 2 ^ suc n + a) / 2) ((d * 2 ^ suc n + c) / 2)
        ≡ bit_or b d * 2 ^ n + bit_or (a / 2) (c / 2) =
      rw (x, y)
        (bit_or-parts n (a / 2) b (c / 2) d (omega (arith, pow-suc 2 n))
          (omega (arith, pow-suc 2 n))) in
    omega (
      arith,
      halves,
      double n b,
      double n d,
      double n (bit_or b d),
      bit_or_step a c,
      bit_or_step (b * 2 ^ suc n + a) (d * 2 ^ suc n + c),
    )

-- So does `&`.
pub bit_and-parts :
    (n a b c d : ℕ)
    → a < 2 ^ n
    → c < 2 ^ n
    → bit_and (b * 2 ^ n + a) (d * 2 ^ n + c) ≡ bit_and b d * 2 ^ n + bit_and a c
bit_and-parts zero a b c d h k =
    let a0 : a ≡ 0 = omega arith in
    let c0 : c ≡ 0 = omega arith in
    let x : b * 2 ^ 0 + a ≡ b = omega arith in
    let y : d * 2 ^ 0 + c ≡ d = omega arith in rw (x, y, a0, c0) (omega (arith, zero_and))
  where
    zero_and : bit_and 0 0 ≡ 0
    zero_and = refl
bit_and-parts (suc n) a b c d h k =
    let x : (b * 2 ^ suc n + a) / 2 ≡ b * 2 ^ n + a / 2 = omega (arith, double n b) in
    let y : (d * 2 ^ suc n + c) / 2 ≡ d * 2 ^ n + c / 2 = omega (arith, double n d) in
    let halves : bit_and ((b * 2 ^ suc n + a) / 2) ((d * 2 ^ suc n + c) / 2)
        ≡ bit_and b d * 2 ^ n + bit_and (a / 2) (c / 2) =
      rw (x, y)
        (bit_and-parts n (a / 2) b (c / 2) d (omega (arith, pow-suc 2 n))
          (omega (arith, pow-suc 2 n))) in
    omega (
      arith,
      halves,
      double n b,
      double n d,
      double n (bit_and b d),
      bit_and_step a c,
      bit_and_step (b * 2 ^ suc n + a) (d * 2 ^ suc n + c),
    )

-- `&` with a mask of ones, of a number that fits it.
pub bit_and-ones : (n a : ℕ) → a < 2 ^ n → bit_and a (2 ^ n - 1) ≡ a
bit_and-ones zero a h = let a0 : a ≡ 0 = omega arith in rw a0 refl
bit_and-ones (suc n) a h =
    let half : (2 ^ suc n - 1) / 2 ≡ 2 ^ n - 1 = omega (arith, pow-suc 2 n, one-le-pow n 2) in
    let ih : bit_and (a / 2) ((2 ^ suc n - 1) / 2) ≡ a / 2 =
      rw half (bit_and-ones n (a / 2) (omega (arith, pow-suc 2 n))) in
    omega (arith, ih, bit_and_step a (2 ^ suc n - 1), pow-suc 2 n, one-le-pow n 2)

pub bit_or-zero : (n a : ℕ) → a ≤ n → bit_or a 0 ≡ a
bit_or-zero zero a h = let a0 : a ≡ 0 = omega arith in rw a0 refl
bit_or-zero (suc n) zero h = refl
bit_or-zero (suc n) (suc a) h =
    omega (arith, bit_or_step (suc a) 0, bit_or-zero n (suc a / 2) (omega arith))

pub zero-bit_or : (n a : ℕ) → a ≤ n → bit_or 0 a ≡ a
zero-bit_or zero a h = let a0 : a ≡ 0 = omega arith in rw a0 refl
zero-bit_or (suc n) zero h = refl
zero-bit_or (suc n) (suc a) h =
    omega (arith, bit_or_step 0 (suc a), zero-bit_or n (suc a / 2) (omega arith))
