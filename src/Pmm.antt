-- ===== src/Pmm.antt =====
-- kernel/pmm.c: the physical memory manager, a bitmap with one bit for each frame of 4 KiB.
-- The bitmap is memory: a function from the index of a 32-bit word to the word, so an index past
-- the bitmap reads and writes the word that lies there, as in C.
pub mod Map
pub mod Count
pub mod Alloc
pub mod Region
pub mod Boot
pub mod Search
pub mod Inv
pub mod Tests
use yotos.Base.{
  ℕ, zero, suc, ◌+◌, ◌-◌, ◌*◌, ◌/◌, ◌%◌, ◌^◌, Bool, true, false, not, ◌&&◌, Option, none, some,
  List, [], ◌∷◌, bit_and, bit_or, ltb, ◌==◌, if◌then◌else◌, update, u32, sub32,
}

abbrev pub blocks_per_byte : ℕ
blocks_per_byte = 8

abbrev pub block_size : ℕ
block_size = 4096

-- The static variables of pmm.c.
pub record Pmm : Type 0 where
  pub memory_size : ℕ
  pub used_blocks : ℕ
  pub max_blocks : ℕ
  pub memory_map : ℕ → ℕ

get_max_blocks : Pmm → ℕ
get_max_blocks s = s.max_blocks

get_used_blocks : Pmm → ℕ
get_used_blocks s = s.used_blocks

pub get_free_block_count : Pmm → ℕ
get_free_block_count s = sub32 s.max_blocks s.used_blocks

pub get_bitmap_size : Pmm → ℕ
get_bitmap_size s = u32 (s.max_blocks + blocks_per_byte - 1) / blocks_per_byte

-- `1 << (n % 32)`, as the 32-bit pattern that it is used as.
abbrev pub mask : ℕ → ℕ
mask n = 2 ^ (n % 32)

pub mmap_set : ℕ → (ℕ → ℕ) → ℕ → ℕ
mmap_set n map = update map (n / 32) (bit_or (map (n / 32)) (mask n))

pub mmap_unset : ℕ → (ℕ → ℕ) → ℕ → ℕ
mmap_unset n map = update map (n / 32) (bit_and (map (n / 32)) (2 ^ 32 - 1 - mask n))

pub mmap_test : ℕ → (ℕ → ℕ) → Bool
mmap_test n map = not (bit_and (map (n / 32)) (mask n) == 0)

-- The inner loop of `mmap_first_free`: the bits j, j + 1, … of a word, `left` of them.
pub first_free_bit : ℕ → ℕ → ℕ → Option ℕ
first_free_bit zero j word = none
first_free_bit (suc left) j word =
    let rest = first_free_bit left (j + 1) word in
    if bit_and word (2 ^ j) == 0 then some j else rest

-- The outer loop: the words i, i + 1, …, `left` of them.
pub first_free_from : ℕ → ℕ → (ℕ → ℕ) → Option ℕ
first_free_from zero i map = none
first_free_from (suc left) i map =
    let rest = first_free_from left (i + 1) map in
    if map i == 2 ^ 32 - 1
    then rest
    else elim (first_free_bit 32 0 (map i)) [ some j ↦ some (i * 4 * 8 + j) | none ↦ rest ]

-- `none` is the -1 of the C function.
pub mmap_first_free : Pmm → Option ℕ
unfolding first_free_from first_free_bit
mmap_first_free s = first_free_from (s.max_blocks / 32) 0 s.memory_map

-- memset(map, 0xff, n), seen by words of four bytes, the lowest byte first.
pub fill_ones : ℕ → (ℕ → ℕ) → ℕ → ℕ
fill_ones n map i =
    if ltb (4 * i + 3) n
    then 2 ^ 32 - 1
    else let k = 2 ^ (8 * (n - 4 * i)) in map i / k * k + (k - 1)

-- `memory` holds the words at the address that is given for the bitmap.
pub init : ℕ → (ℕ → ℕ) → Pmm
unfolding fill_ones
init mem_size memory = record {
  memory_size = mem_size;
  used_blocks = mem_size / 4;
  max_blocks = mem_size / 4;
  memory_map = fill_ones (mem_size / 4 / blocks_per_byte) memory;
}

-- The body of the loop of `pmmngr_init_region`.
pub init_frame : ℕ → Pmm → Pmm
init_frame align s = record s {
  used_blocks = if mmap_test align s.memory_map then sub32 s.used_blocks 1 else s.used_blocks;
  memory_map = mmap_unset align s.memory_map;
}

-- The loop of `pmmngr_init_region`: `blocks` rounds from the frame `align` on.
pub init_loop : ℕ → ℕ → Pmm → Pmm
init_loop zero align s = s
init_loop (suc blocks) align s = init_loop blocks (align + 1) (init_frame align s)

pub init_region : ℕ → ℕ → Pmm → Pmm
unfolding init_loop
init_region base size = init_loop (size / block_size) (base / block_size)

pub deinit_frame : ℕ → Pmm → Pmm
deinit_frame align s = record s {
  used_blocks =
      if not (mmap_test align s.memory_map) then u32 (s.used_blocks + 1) else s.used_blocks;
  memory_map = mmap_set align s.memory_map;
}

pub deinit_loop : ℕ → ℕ → Pmm → Pmm
deinit_loop zero align s = s
deinit_loop (suc blocks) align s = deinit_loop blocks (align + 1) (deinit_frame align s)

pub deinit_region : ℕ → ℕ → Pmm → Pmm
unfolding deinit_loop
deinit_region base size = deinit_loop (size / block_size) (base / block_size)

-- The frame's address, or 0 (the null pointer), and the new state.
pub alloc_block : Pmm → ℕ × Pmm
alloc_block s = if get_free_block_count s == 0 then (0, s) else elim (mmap_first_free s) [
  | none ↦ (0, s)
  | some frame ↦ (
    u32 (frame * block_size),
    record s { used_blocks = u32 (s.used_blocks + 1); memory_map = mmap_set frame s.memory_map },
  )
]

pub free_block : ℕ → Pmm → Pmm
free_block addr s = record s {
  used_blocks = sub32 s.used_blocks 1;
  memory_map = mmap_unset (addr / block_size) s.memory_map;
}

-- multiboot_mmap_entry_t
pub record MmapEntry : Type 0 where
  pub size : ℕ
  pub addr : ℕ
  pub len : ℕ
  pub type : ℕ

abbrev pub memory_available : ℕ
memory_available = 1

-- One round of `pmm_init_available_regions`. The 64-bit fields are passed as uint32_t.
pub init_entry : MmapEntry → Pmm → Pmm
unfolding init_region
init_entry e s = if e.type == memory_available then init_region (u32 e.addr) (u32 e.len) s else s

-- The loop: `entry` is the address of the current entry, `read` decodes the entry at an address.
pub available_loop : ℕ → (ℕ → MmapEntry) → ℕ → ℕ → Pmm → Pmm
available_loop zero read stop entry s = s
available_loop (suc fuel) read stop entry s =
    let rest =
      available_loop fuel read stop (u32 (entry + (read entry).size + 4))
        (init_entry (read entry) s) in
    if ltb entry stop then rest else s

-- An entry is at least four bytes long, so the length of the map bounds the rounds.
pub init_available_regions : (ℕ → MmapEntry) → ℕ → ℕ → Pmm → Pmm
unfolding available_loop init_entry
init_available_regions read mmap_addr mmap_length =
    available_loop (suc mmap_length) read (u32 (mmap_addr + mmap_length)) mmap_addr

-- kernel/kernel.c: the first 4 MiB belong to the BIOS, the kernel and the bitmap.
pub deinit_special_regions : Pmm → Pmm
unfolding deinit_region
deinit_special_regions = deinit_region 0 0x400000
