-- ===== src/Pmm/Tests.antt =====
-- The physical memory manager of 1 MiB of memory, 64 KiB of which, from 64 KiB on, is available.
use yotos.Base.{ℕ, zero, suc, ◌+◌, ◌/◌, ◌^◌, ◌≤◌, ◌<◌, ◌≡◌, refl, ◌≢◌, arith, bit}
use yotos.Pmm.{
  mmap_first_free, first_free_from, first_free_bit, mmap_unset, mmap_set, mmap_test, fill_ones,
  get_free_block_count, init_loop, init_frame, deinit_frame, deinit_loop, Pmm, MmapEntry,
  block_size, memory_available, init, init_region, deinit_region, alloc_block, free_block,
  deinit_special_regions,
}
use yotos.Pmm.Map.{frame_bit}
use yotos.Pmm.Inv.{IsValid}
use yotos.Pmm.Alloc.{Allocated, alloc_block-Allocated, alloc_block-null_iff, free_block-alloc_block}
use yotos.Pmm.Region.{init_region_lem, deinit_region_lem}
use yotos.Pmm.Boot.{init-IsValid, deinit_special_regions-safe}

abbrev blank : Pmm
blank = init 1024 (λ _. 0)

blank-IsValid : IsValid blank
blank-IsValid = (init-IsValid 1024 (λ _. 0) (λ i. omega arith) refl (omega arith)).0

blank_room : 0x10000 / block_size + 0x10000 / block_size ≤ blank.max_blocks
unfolding init
blank_room = omega arith

abbrev pub booted : Pmm
booted = init_region 0x10000 0x10000 blank

pub booted-IsValid : IsValid booted
booted-IsValid = (init_region_lem 0x10000 0x10000 blank blank-IsValid blank_room).0

-- The frame at 64 KiB is the first free one.
pub booted_run : (alloc_block booted).0 ≡ 0x10000
unfolding alloc_block init_region init_loop init_frame init mmap_first_free first_free_from
    first_free_bit mmap_unset mmap_test fill_ones get_free_block_count
booted_run = refl

-- The next one is behind it.
pub booted_again : (alloc_block (alloc_block booted).1).0 ≡ 0x11000
unfolding mmap_set alloc_block init_region init_loop init_frame init mmap_first_free first_free_from
    first_free_bit mmap_unset mmap_test fill_ones get_free_block_count
booted_again = refl

booted_not_null : (alloc_block booted).0 ≢ 0
booted_not_null = rw booted_run (λ e. absurd (omega arith))

alloc_block-Allocated_example :
    (f : ℕ) × Allocated booted f (alloc_block booted).0 (alloc_block booted).1
alloc_block-Allocated_example = alloc_block-Allocated booted-IsValid booted_not_null

free_block-alloc_block_example :
    let s = free_block (alloc_block booted).0 (alloc_block booted).1 in
    (s.used_blocks ≡ booted.used_blocks)
    × ((m : ℕ) → frame_bit s.memory_map m ≡ frame_bit booted.memory_map m)
free_block-alloc_block_example = free_block-alloc_block booted-IsValid booted_not_null

first_used : frame_bit booted.memory_map 0 ≡ 1
unfolding frame_bit init_region init_loop init_frame init mmap_unset mmap_test fill_ones bit
first_used = refl

frames_many : 0x10000 / block_size < booted.max_blocks
unfolding init init_region init_loop init_frame
frames_many = omega arith

sixteenth_free : frame_bit booted.memory_map 16 ≡ 0
unfolding frame_bit init_region init_loop init_frame init mmap_unset mmap_test fill_ones bit
sixteenth_free = refl

-- Eight MiB, so that there is memory above the reserved four.
abbrev large : Pmm
large = init 8192 (λ _. 0)

large-IsValid : IsValid large
large-IsValid = (init-IsValid 8192 (λ _. 0) (λ i. omega arith) refl (omega arith)).0

large_frames : 1024 ≤ large.max_blocks
unfolding init
large_frames = omega arith

abbrev loaded : Pmm
loaded = init_region 0x400000 0x1000 large

large_room : 0x400000 / block_size + 0x1000 / block_size ≤ large.max_blocks
unfolding init
large_room = omega arith

loaded-IsValid : IsValid loaded
loaded-IsValid = (init_region_lem 0x400000 0x1000 large large-IsValid large_room).0

loaded_size : loaded.max_blocks ≡ 2048
unfolding init_region init_loop init_frame init
loaded_size = refl

deinit_loop-max_blocks : (n align : ℕ) (s : Pmm) → (deinit_loop n align s).max_blocks ≡ s.max_blocks
unfolding deinit_loop deinit_frame
deinit_loop-max_blocks zero align s = refl
deinit_loop-max_blocks (suc n) align s = deinit_loop-max_blocks n (align + 1) (deinit_frame align s)

deinit_region-max_blocks :
    (base size : ℕ) (s : Pmm) → (deinit_region base size s).max_blocks ≡ s.max_blocks
unfolding deinit_region
deinit_region-max_blocks base size s =
    deinit_loop-max_blocks (size / block_size) (base / block_size) s

loaded_frames : 1024 ≤ loaded.max_blocks
unfolding init_region init_loop init_frame init
loaded_frames = omega arith

loaded_not_null : (alloc_block (deinit_special_regions loaded)).0 ≢ 0
unfolding deinit_special_regions
loaded_not_null null =
    let taken = deinit_region_lem 0 0x400000 loaded loaded-IsValid loaded_frames in
    let freed = init_region_lem 0x400000 0x1000 large large-IsValid large_room in
    let kept = deinit_region-max_blocks 0 0x400000 loaded in
    let all_used =
      (alloc_block-null_iff taken.0 (taken.1 0)).0 null 1024 (omega (arith, kept, loaded_size)) in
    ground (arith, all_used, taken.1 1024, freed.1 1024)

deinit_special_regions-safe_example : 0x400000 ≤ (alloc_block (deinit_special_regions loaded)).0
deinit_special_regions-safe_example =
    deinit_special_regions-safe loaded loaded-IsValid loaded_frames loaded_not_null

abbrev entry : MmapEntry
entry = record { size = 20; addr = 0x10000; len = 0x10000; type = memory_available }

abbrev high : MmapEntry
high = record { size = 20; addr = 2 ^ 32; len = 0x10000; type = memory_available }
