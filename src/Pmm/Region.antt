-- ===== src/Pmm/Region.antt =====
-- `pmmngr_init_region` and `pmmngr_deinit_region`: which frames change, and the counter.
use yotos.Base.{ℕ, zero, suc, ◌+◌, ◌/◌, ◌≤◌, ◌≡◌, Bool, ◌&&◌, arith, ltb, leb, if◌then◌else◌}
use yotos.Pmm.{
  Pmm, init_frame, deinit_frame, init_loop, deinit_loop, init_region, deinit_region, block_size,
}
use yotos.Pmm.Map.{frame_bit, frame_bit-lt, frame_bit-mmap_set, frame_bit-mmap_unset, mmap_test-eq}
use yotos.Pmm.Count.{count_used-le, count_used-mmap_unset}
use yotos.Pmm.Inv.{IsValid, take-IsValid, release-IsValid}

abbrev pub within : ℕ → ℕ → ℕ → Bool
within first count m = leb first m && ltb m (first + count)

frame_bit-init_loop :
    (n align : ℕ) (s : Pmm) (m : ℕ)
    → frame_bit (init_loop n align s).memory_map m
      ≡ (if within align n m then 0 else frame_bit s.memory_map m)
unfolding init_loop init_frame
frame_bit-init_loop zero align s m = ground arith
frame_bit-init_loop (suc n) align s m = ground (
  arith,
  frame_bit-init_loop n (align + 1) (init_frame align s) m,
  frame_bit-mmap_unset align m s.memory_map,
)

frame_bit-deinit_loop :
    (n align : ℕ) (s : Pmm) (m : ℕ)
    → frame_bit (deinit_loop n align s).memory_map m
      ≡ (if within align n m then 1 else frame_bit s.memory_map m)
unfolding deinit_loop deinit_frame
frame_bit-deinit_loop zero align s m = ground arith
frame_bit-deinit_loop (suc n) align s m = ground (
  arith,
  frame_bit-deinit_loop n (align + 1) (deinit_frame align s) m,
  frame_bit-mmap_set align m s.memory_map,
)

init_loop-IsValid :
    (n align : ℕ) (s : Pmm) → IsValid s → align + n ≤ s.max_blocks → IsValid (init_loop n align s)
unfolding init_loop init_frame
init_loop-IsValid zero align s v h = v
init_loop-IsValid (suc n) align s v h =
    init_loop-IsValid n (align + 1) (init_frame align s)
      (release-IsValid v align (omega arith) _ (
        ground (
          arith,
          mmap_test-eq align s.memory_map,
          frame_bit-lt s.memory_map align,
          v.counted,
          v.frames,
          count_used-le s.memory_map s.max_blocks,
          count_used-mmap_unset s.memory_map s.max_blocks align,
        )))
      (omega arith)

deinit_loop-IsValid :
    (n align : ℕ) (s : Pmm) → IsValid s → align + n ≤ s.max_blocks → IsValid (deinit_loop n align s)
unfolding deinit_loop deinit_frame
deinit_loop-IsValid zero align s v h = v
deinit_loop-IsValid (suc n) align s v h =
    deinit_loop-IsValid n (align + 1) (deinit_frame align s)
      (take-IsValid v align (omega arith) _ (
        ground (
          arith,
          mmap_test-eq align s.memory_map,
          frame_bit-lt s.memory_map align,
          v.counted,
          v.frames,
          count_used-le s.memory_map s.max_blocks,
        )))
      (omega arith)

pub init_region-frames :
    (base size : ℕ) (s : Pmm) (m : ℕ)
    → frame_bit (init_region base size s).memory_map m
      ≡ (if within (base / block_size) (size / block_size) m then 0 else frame_bit s.memory_map m)
unfolding init_region
init_region-frames base size = frame_bit-init_loop (size / block_size) (base / block_size)

-- From a valid state, with size / 4096 frames from base / 4096 on that lie in the managed memory,
-- `pmmngr_init_region` frees exactly these frames and leads to a valid state.
pub init_region_lem :
    (base size : ℕ) (s : Pmm)
    → IsValid s
    → base / block_size + size / block_size ≤ s.max_blocks
    → IsValid (init_region base size s)
      × ((m : ℕ)
          → frame_bit (init_region base size s).memory_map m ≡ (
              if within (base / block_size) (size / block_size) m
              then 0
              else frame_bit s.memory_map m))
unfolding init_region
init_region_lem base size s v h = (
  init_loop-IsValid (size / block_size) (base / block_size) s v h,
  init_region-frames base size s,
)

-- From a valid state, with size / 4096 frames from base / 4096 on that lie in the managed memory,
-- `pmmngr_deinit_region` takes exactly these frames and leads to a valid state.
pub deinit_region_lem :
    (base size : ℕ) (s : Pmm)
    → IsValid s
    → base / block_size + size / block_size ≤ s.max_blocks
    → IsValid (deinit_region base size s)
      × ((m : ℕ)
          → frame_bit (deinit_region base size s).memory_map m ≡ (
              if within (base / block_size) (size / block_size) m
              then 1
              else frame_bit s.memory_map m))
unfolding deinit_region
deinit_region_lem base size s v h = (
  deinit_loop-IsValid (size / block_size) (base / block_size) s v h,
  frame_bit-deinit_loop (size / block_size) (base / block_size) s,
)
