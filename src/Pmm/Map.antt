-- ===== src/Pmm/Map.antt =====
-- The bitmap operations of kernel/pmm.c, frame by frame.
use yotos.Base.{
  ℕ, ◌-◌, ◌/◌, ◌%◌, ◌^◌, ◌<◌, ◌≡◌, arith, ◌==◌, if◌then◌else◌, bit, bit-lt, bit-bit_or, bit-bit_and,
  bit-pow, bit_and-pow_iff, bit-complement,
}
use yotos.Pmm.{mmap_set, mmap_unset, mmap_test}

-- The bit of a frame, 1 when it is in use.
unfoldable pub frame_bit : (ℕ → ℕ) → ℕ → ℕ
frame_bit map n = bit (n % 32) (map (n / 32))

pub frame_bit-lt : (map : ℕ → ℕ) (n : ℕ) → frame_bit map n < 2
unfolding frame_bit
frame_bit-lt map n = bit-lt (n % 32) (map (n / 32))

-- `mmap_test` reads the frame's bit.
pub mmap_test-eq : (n : ℕ) (map : ℕ → ℕ) → mmap_test n map ≡ (frame_bit map n == 1)
unfolding mmap_test frame_bit
mmap_test-eq n map =
    ground (arith, bit_and-pow_iff (n % 32) (map (n / 32)), bit-lt (n % 32) (map (n / 32)))

-- `mmap_set` makes the frame's bit 1 and changes no other.
pub frame_bit-mmap_set :
    (n m : ℕ) (map : ℕ → ℕ) → frame_bit (mmap_set n map) m ≡ (if m == n then 1 else frame_bit map m)
unfolding mmap_set frame_bit
frame_bit-mmap_set n m map = ground (
  arith,
  bit-bit_or (m % 32) (map (n / 32)) (2 ^ (n % 32)),
  bit-pow (m % 32) (n % 32),
  bit-lt (m % 32) (map (n / 32)),
)

-- `mmap_unset` makes the frame's bit 0 and changes no other.
pub frame_bit-mmap_unset :
    (n m : ℕ) (map : ℕ → ℕ)
    → frame_bit (mmap_unset n map) m ≡ (if m == n then 0 else frame_bit map m)
unfolding mmap_unset frame_bit
frame_bit-mmap_unset n m map = ground (
  arith,
  bit-bit_and (m % 32) (map (n / 32)) (2 ^ 32 - 1 - 2 ^ (n % 32)),
  bit-complement 32 (n % 32) (m % 32),
  bit-lt (m % 32) (map (n / 32)),
)
