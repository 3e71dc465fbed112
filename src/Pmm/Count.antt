-- ===== src/Pmm/Count.antt =====
-- How many frames of the bitmap are in use, the number that `_mmngr_used_blocks` stands for.
use yotos.Base.{ℕ, zero, suc, ◌+◌, ◌≤◌, ◌<◌, ◌≡◌, refl, map, arith}
use yotos.Pmm.{mmap_set, mmap_unset}
use yotos.Pmm.Map.{frame_bit, frame_bit-lt, frame_bit-mmap_set, frame_bit-mmap_unset}

-- The frames below `n` that are in use.
unfoldable pub count_used : (ℕ → ℕ) → ℕ → ℕ
count_used map zero = 0
count_used map (suc n) = frame_bit map n + count_used map n

pub count_used-le : (map : ℕ → ℕ) (n : ℕ) → count_used map n ≤ n
unfolding count_used
count_used-le map zero = omega arith
count_used-le map (suc n) = omega (arith, count_used-le map n, frame_bit-lt map n)

-- Two bitmaps that agree below `n` count alike.
count_used_ext :
    (map map' : ℕ → ℕ) (n : ℕ)
    → ((m : ℕ) → m < n → frame_bit map' m ≡ frame_bit map m)
    → count_used map' n ≡ count_used map n
unfolding count_used
count_used_ext map map' zero same = refl
count_used_ext map map' (suc n) same =
    omega (arith, same n (omega arith), count_used_ext map map' n (λ m h. same m (omega arith)))

pub count_used-mmap_set :
    (map : ℕ → ℕ) (n f : ℕ)
    → f < n
    → count_used (mmap_set f map) n + frame_bit map f ≡ count_used map n + 1
unfolding count_used
count_used-mmap_set map zero f h = absurd (omega arith)
count_used-mmap_set map (suc n) f h = ground (
  arith,
  frame_bit-mmap_set f n map,
  count_used-mmap_set map n f,
  count_used_ext map (mmap_set f map) n,
  below,
)
  where
    below : n ≡ f → count_used (mmap_set f map) n ≡ count_used map n
    below e =
        count_used_ext map (mmap_set f map) n λ m lt. ground (arith, frame_bit-mmap_set f m map)

pub count_used-mmap_unset :
    (map : ℕ → ℕ) (n f : ℕ)
    → f < n
    → count_used (mmap_unset f map) n + frame_bit map f ≡ count_used map n
unfolding count_used
count_used-mmap_unset map zero f h = absurd (omega arith)
count_used-mmap_unset map (suc n) f h =
    ground (arith, frame_bit-mmap_unset f n map, count_used-mmap_unset map n f, below)
  where
    below : n ≡ f → count_used (mmap_unset f map) n ≡ count_used map n
    below e =
        count_used_ext map (mmap_unset f map) n λ m lt. ground (arith, frame_bit-mmap_unset f m map)

-- A free frame leaves room in the count.
pub count_used-lt : (map : ℕ → ℕ) (n f : ℕ) → f < n → frame_bit map f ≡ 0 → count_used map n < n
unfolding count_used
count_used-lt map zero f h e = absurd (omega arith)
count_used-lt map (suc n) f h e =
    ground (arith, count_used-lt map n f, frame_bit-lt map n, count_used-le map n)
