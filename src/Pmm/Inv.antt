-- ===== src/Pmm/Inv.antt =====
-- The invariant of the physical memory manager, and how one frame's change keeps it.
use yotos.Base.{
  ℕ, ◌+◌, ◌-◌, ◌/◌, ◌%◌, ◌^◌, ◌≤◌, ◌<◌, ◌≡◌, map, arith, bit_or-lt, pow-lt, bit_and-le,
}
use yotos.Pmm.{Pmm, mmap_set, mmap_unset}
use yotos.Pmm.Map.{frame_bit}
use yotos.Pmm.Count.{count_used, count_used-mmap_set, count_used-mmap_unset}

-- The words are 32 bits wide, the frames fit the 32-bit address space, and the counter is the
-- number of frames in use.
pub record IsValid (s : Pmm) : Type 0 where
  pub words : (i : ℕ) → s.memory_map i < 2 ^ 32
  pub frames : s.max_blocks ≤ 2 ^ 20
  pub counted : s.used_blocks ≡ count_used s.memory_map s.max_blocks

mmap_set-words :
    (n : ℕ) (map : ℕ → ℕ) → ((i : ℕ) → map i < 2 ^ 32) → (i : ℕ) → mmap_set n map i < 2 ^ 32
unfolding mmap_set
mmap_set-words n map small i =
    ground (
      arith,
      bit_or-lt 32 (map (n / 32)) (2 ^ (n % 32)),
      small i,
      small (n / 32),
      pow-lt (n % 32) 32,
    )

mmap_unset-words :
    (n : ℕ) (map : ℕ → ℕ) → ((i : ℕ) → map i < 2 ^ 32) → (i : ℕ) → mmap_unset n map i < 2 ^ 32
unfolding mmap_unset
mmap_unset-words n map small i = ground (
  arith,
  bit_and-le (map (n / 32)) (map (n / 32)) (2 ^ 32 - 1 - 2 ^ (n % 32)),
  small i,
  small (n / 32),
)

module _ {s : Pmm} (v : IsValid s) (f : ℕ) (inside : f < s.max_blocks) where
  -- Taking a free frame and counting it keeps the invariant.
  pub take-IsValid :
      (u : ℕ)
      → frame_bit s.memory_map f + u ≡ s.used_blocks + 1
      → IsValid (record s { used_blocks = u; memory_map = mmap_set f s.memory_map })
  take-IsValid u e = record {
    words = mmap_set-words f s.memory_map v.words;
    frames = v.frames;
    counted = omega (arith, v.counted, count_used-mmap_set s.memory_map s.max_blocks f inside);
  }

  -- So does giving up a frame, where the counter falls only if the frame was in use.
  pub release-IsValid :
      (u : ℕ)
      → frame_bit s.memory_map f + u ≡ s.used_blocks
      → IsValid (record s { used_blocks = u; memory_map = mmap_unset f s.memory_map })
  release-IsValid u e = record {
    words = mmap_unset-words f s.memory_map v.words;
    frames = v.frames;
    counted = omega (arith, v.counted, count_used-mmap_unset s.memory_map s.max_blocks f inside);
  }
