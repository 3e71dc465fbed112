-- ===== src/Pmm/Boot.antt =====
-- The start of the memory manager: `pmmngr_init`, the regions that the boot loader reports, and
-- the reservation of the first 4 MiB.
use yotos.Base.{
  ℕ, zero, suc, ◌+◌, ◌-◌, ◌*◌, ◌/◌, ◌%◌, ◌^◌, ◌≤◌, ◌<◌, ◌≡◌, refl, sym, ◌≢◌, List, [], ◌∷◌, map,
  arith, if◌then◌else◌, bit-low_ones, bit-ones, length, u32, lt→ltb,
}
use yotos.Pmm.{
  Pmm, init, fill_ones, block_size, deinit_special_regions, alloc_block, MmapEntry,
  memory_available, init_entry, available_loop, init_available_regions,
}
use yotos.Pmm.Map.{frame_bit}
use yotos.Pmm.Count.{count_used}
use yotos.Pmm.Inv.{IsValid}
use yotos.Pmm.Region.{deinit_region_lem, init_region-frames, within}
use yotos.Pmm.Alloc.{alloc_block-Allocated}
use native.Mathlib.Decide.{dec_lt}

fill_ones-frame : (n : ℕ) (map : ℕ → ℕ) (m : ℕ) → m < 8 * n → frame_bit (fill_ones n map) m ≡ 1
unfolding fill_ones frame_bit
fill_ones-frame n map m h = ground (
  arith,
  bit-ones 32 (m % 32),
  bit-low_ones (8 * (n - 4 * (m / 32))) (m % 32) (map (m / 32) / 2 ^ (8 * (n - 4 * (m / 32)))),
)

round_up-lt :
    (r w : ℕ) → r < 4 → w < 2 ^ 32 → w / 2 ^ (8 * r) * 2 ^ (8 * r) + (2 ^ (8 * r) - 1) < 2 ^ 32
round_up-lt zero w h p = omega arith
round_up-lt (suc zero) w h p = omega arith
round_up-lt (suc (suc zero)) w h p = omega arith
round_up-lt (suc (suc (suc zero))) w h p = omega arith
round_up-lt (suc (suc (suc (suc r)))) w h p = absurd (omega arith)

fill_ones-words :
    (n : ℕ) (map : ℕ → ℕ) → ((i : ℕ) → map i < 2 ^ 32) → (i : ℕ) → fill_ones n map i < 2 ^ 32
unfolding fill_ones
fill_ones-words n map small i = ground (arith, round_up-lt (n - 4 * i) (map i), small i)

all_used_count :
    (map : ℕ → ℕ) (n : ℕ) → ((m : ℕ) → m < n → frame_bit map m ≡ 1) → count_used map n ≡ n
unfolding count_used
all_used_count map zero h = refl
all_used_count map (suc n) h =
    omega (arith, h n (omega arith), all_used_count map n (λ m lt. h m (omega arith)))

-- After `pmmngr_init`, where the memory holds a whole number of bytes of the bitmap and at most
-- 4 GiB, the manager is valid and every frame is in use, whatever the memory held.
pub init-IsValid :
    (mem_size : ℕ) (memory : ℕ → ℕ)
    → ((i : ℕ) → memory i < 2 ^ 32)
    → mem_size / 4 % 8 ≡ 0
    → mem_size ≤ 2 ^ 22
    → IsValid (init mem_size memory)
      × ((m : ℕ) → m < mem_size / 4 → frame_bit (init mem_size memory).memory_map m ≡ 1)
unfolding init
init-IsValid mem_size memory words whole small =
    let all_used = λ (m : ℕ) (lt : m < mem_size / 4).
      fill_ones-frame (mem_size / 4 / 8) memory m (omega arith) in
    (
      record {
        words = fill_ones-words (mem_size / 4 / 8) memory words;
        frames = omega arith;
        counted = sym (all_used_count _ (mem_size / 4) all_used);
      },
      all_used,
    )

low_frame : (f b c : ℕ) → f < 1024 → b ≡ (if within 0 1024 f then 1 else c) → b ≡ 0 → ⊥
low_frame f b c low e z = ground arith

-- From a valid state of 4 MiB or more, once the special regions are reserved, an allocation that
-- does not return null returns no address below 4 MiB, where
-- the BIOS, the kernel and the bitmap lie.
pub deinit_special_regions-safe :
    (s : Pmm)
    → IsValid s
    → 1024 ≤ s.max_blocks
    → let s' = deinit_special_regions s in (alloc_block s').0 ≢ 0 → 0x400000 ≤ (alloc_block s').0
unfolding deinit_special_regions
deinit_special_regions-safe s v big ok =
    let (v', bits) = deinit_region_lem 0 0x400000 s v (omega arith) in
    let (f, a) = alloc_block-Allocated v' ok in
    elim (dec_lt f 1024) [
      | yes low ↦ absurd (low_frame f _ _ low (bits f) a.was_free)
      | no high ↦ omega (arith, a.address)
    ]

-- The entries lie one behind the other in memory, from `entry` up to `stop`.
abbrev pub LaidOut : (ℕ → MmapEntry) → ℕ → List MmapEntry → ℕ → Type 0
LaidOut read entry [] stop = entry ≡ stop
LaidOut read entry (e ∷ es) stop = (read entry ≡ e) × LaidOut read (entry + e.size + 4) es stop

-- Each entry in turn.
unfoldable pub init_entries : List MmapEntry → Pmm → Pmm
init_entries [] s = s
init_entries (e ∷ es) s = init_entries es (init_entry e s)

LaidOut-le :
    (read : ℕ → MmapEntry) (es : List MmapEntry) (entry stop : ℕ)
    → LaidOut read entry es stop
    → entry + 4 * length es ≤ stop
LaidOut-le read [] entry stop l = omega arith
LaidOut-le read (e ∷ es) entry stop l =
    omega (arith, LaidOut-le read es (entry + e.size + 4) stop l.1)

available_loop-entries :
    (fuel : ℕ) (read : ℕ → MmapEntry) (es : List MmapEntry) (entry stop : ℕ) (s : Pmm)
    → LaidOut read entry es stop
    → stop < 2 ^ 32
    → length es < fuel
    → available_loop fuel read stop entry s ≡ init_entries es s
unfolding available_loop init_entries
available_loop-entries zero read es entry stop s l small enough = absurd (omega arith)
available_loop-entries (suc fuel) read [] entry stop s l small enough = ground arith
available_loop-entries (suc fuel) read (e ∷ es) entry stop s l small enough =
    let below : entry + e.size + 4 ≤ stop =
      omega (arith, LaidOut-le read es (entry + e.size + 4) stop l.1) in
    let wrap : u32 (entry + e.size + 4) ≡ entry + e.size + 4 = omega arith in
    rw (lt→ltb entry stop (omega arith), l.0, wrap)
      (available_loop-entries fuel read es (entry + e.size + 4) stop (init_entry e s) l.1 small
        (omega arith))

-- Over a map whose entries lie one behind the other and fill its length, the loop ends and does
-- each entry once, in order.
pub init_available_regions-entries :
    (read : ℕ → MmapEntry) (es : List MmapEntry) (mmap_addr mmap_length : ℕ) (s : Pmm)
    → LaidOut read mmap_addr es (mmap_addr + mmap_length)
    → mmap_addr + mmap_length < 2 ^ 32
    → init_available_regions read mmap_addr mmap_length s ≡ init_entries es s
unfolding init_available_regions
init_available_regions-entries read es mmap_addr mmap_length s l small =
    let wrap : u32 (mmap_addr + mmap_length) ≡ mmap_addr + mmap_length = omega arith in
    rw wrap (
      available_loop-entries (suc mmap_length) read es mmap_addr (mmap_addr + mmap_length) s l small
        (omega (arith, LaidOut-le read es mmap_addr (mmap_addr + mmap_length) l)))

-- The addresses are cut to 32 bits: an available region of one frame or more that lies above
-- 4 GiB frees a frame below 4 GiB that is no part of it.
pub init_entry-truncates :
    (e : MmapEntry) (s : Pmm)
    → e.type ≡ memory_available
    → 2 ^ 32 ≤ e.addr
    → block_size ≤ u32 e.len
    → (m : ℕ) × (m < e.addr / block_size) × (frame_bit (init_entry e s).memory_map m ≡ 0)
unfolding init_entry
init_entry-truncates e s available above some_frame = (
  u32 e.addr / block_size,
  omega arith,
  rw available
      (ground (arith, init_region-frames (u32 e.addr) (u32 e.len) s (u32 e.addr / block_size))),
)
