-- ===== src/Vmm.antt =====
-- kernel/vmm.c and include/vmm.h: page tables in physical memory, reached through the recursive slot
-- of the page directory. Memory is a function from the index of a 32-bit word to the word; `walk` is
-- the processor's own walk of the tables. A page fault is `none`. No translation is cached, so that
-- `invlpg` has no effect.
pub mod Entry
pub mod Window
pub mod Steps
pub mod NewTable
pub mod Table
pub mod Mapping
pub mod KernelPages
pub mod Boot
mod Tests
use yotos.Base.{
  ℕ, zero, suc, ◌+◌, ◌-◌, ◌*◌, ◌/◌, ◌%◌, ◌^◌, ◌≤◌, ◌<◌, ◌≡◌, refl, sym, ap, ◌∙◌, fun_ext, ◌≢◌, ◌↔◌,
  ◌⊎◌, inl, inr, Bool, true, false, not, ◌&&◌, ◌||◌, Option, none, some, List, [], ◌∷◌, ◌++◌, map,
  arith, bit_and, bit_or, bit_xor, ltb, leb, ◌==◌, if◌then◌else◌, update, min, max, bit, bit-lt,
  bit-bit_or, bit-bit_and, bit-pow, bit_and-pow_iff, bit-complement, bit_or-lt, bit-ones, pow-lt,
  bit_and-le, all_ones, Bool-cases, Option-cases, length, get_or, take, drop, for_loop,
  for_loop-zero, for_loop-suc, replicate, All, length-append, length-take, length-drop,
  length-replicate, u8, u16, u32, sub32, ==_iff, ltb→lt, lt→ltb, le→ltb, leb→le,
}
use yotos.Pmm.{Pmm, alloc_block, free_block}

abbrev pub page_size : ℕ
page_size = 4096

abbrev temp_map_addr : ℕ
temp_map_addr = 0xFFBFF000

abbrev pub page_present : ℕ
page_present = 1

abbrev pub page_writable : ℕ
page_writable = 2

abbrev pub page_user : ℕ
page_user = 4

-- PD_INDEX(addr), PT_INDEX(addr)
abbrev pub pd_index : ℕ → ℕ
pd_index addr = addr / 2 ^ 22

pub pt_index : ℕ → ℕ
pt_index addr = bit_and (addr / 2 ^ 12) 0x3FF

-- ENTRY_GET_FRAME(entry), ENTRY_HAS_FLAG(entry, flag)
pub entry_frame : ℕ → ℕ
entry_frame entry = bit_and entry 0xFFFFF000

pub has_flag : ℕ → ℕ → Bool
has_flag entry flag = not (bit_and entry flag == 0)

pub record Vmm : Type 0 where
  pub memory : ℕ → ℕ
  pub pmm : Pmm
  pub cr3 : ℕ
  pub paging : Bool
  pub kernel_directory : ℕ

-- The walk of the processor from the page directory at `dir`: the physical address.
pub walk : (ℕ → ℕ) → (dir virt : ℕ) → Option ℕ
walk memory dir virt =
    let pde = memory (dir / 4096 * 1024 + virt / 2 ^ 22) in
    let pte = memory (pde / 4096 * 1024 + virt / 4096 % 1024) in
    if pde % 2 == 0
    then none
    else if pte % 2 == 0
    then none
    else some (pte / 4096 * 4096 + virt % 4096)

-- A word that is read or written at a virtual address.
pub load : ℕ → Vmm → Option ℕ
load virt s = elim (walk s.memory s.cr3 virt) [ none ↦ none | some p ↦ some (s.memory (p / 4)) ]

pub store : (virt value : ℕ) → Vmm → Option Vmm
store virt value s = elim (walk s.memory s.cr3 virt) [
  | none ↦ none
  | some p ↦ some (record s { memory = update s.memory (p / 4) value })
]

-- The page of physical memory at `p`, filled with zeros.
abbrev pub zero_page : ℕ → (ℕ → ℕ) → ℕ → ℕ
zero_page p memory w =
    if leb (p / 4096 * 1024) w && ltb w (p / 4096 * 1024 + 1024) then 0 else memory w

-- memset((void *)virt, 0, PAGE_SIZE) for the address of a page.
pub clear_page : ℕ → Vmm → Option Vmm
clear_page virt s = elim (walk s.memory s.cr3 virt) [
  | none ↦ none
  | some p ↦ some (record s { memory = zero_page p s.memory })
]

-- The addresses of an entry of the directory and of a table in the recursive window.
abbrev pub pd_entry : ℕ → ℕ
pd_entry pd_idx = 0xFFFFF000 + 4 * pd_idx

abbrev pub pt_entry : (pd_idx pt_idx : ℕ) → ℕ
pt_entry pd_idx pt_idx = 0xFFC00000 + pd_idx * page_size + 4 * pt_idx

-- `(phys & ~0xFFF) | flags | PAGE_PRESENT`
pub page_entry : (phys flags : ℕ) → ℕ
page_entry phys flags = bit_or (bit_or (entry_frame phys) flags) page_present

-- The first part of `vmm_map_page`: the page table. The flag says whether there is one.
pub ensure_table : (pd_idx flags : ℕ) → Vmm → Option (Bool × Vmm)
ensure_table pd_idx flags s =
    let (new_table, pmm) = alloc_block s.pmm in
    let s1 = record s { pmm = pmm } in
    let pde =
      bit_or (bit_or (bit_or new_table page_present) page_writable) (bit_and flags page_user) in
    elim (load (pd_entry pd_idx) s) [
      | none ↦ none
      | some e ↦
          if not (has_flag e page_present)
          then if new_table == 0 then some (false, s1) else elim (store (pd_entry pd_idx) pde s1) [
            | none ↦ none
            | some s2 ↦ elim (clear_page (0xFFC00000 + pd_idx * page_size) s2) [
              | none ↦ none
              | some s3 ↦ some (true, s3)
            ]
          ]
          else if has_flag flags page_user
          then elim (store (pd_entry pd_idx) (bit_or e page_user) s) [
            | none ↦ none
            | some s2 ↦ some (true, s2)
          ]
          else some (true, s)
    ]

pub map_page : (virt phys flags : ℕ) → Vmm → Option Vmm
map_page virt phys flags s = elim (ensure_table (pd_index virt) flags s) [
  | none ↦ none
  | some (ready, s1) ↦
      if ready
      then store (pt_entry (pd_index virt) (pt_index virt)) (page_entry phys flags) s1
      else some s1
]

-- The address, or 0 for the null pointer.
pub alloc_page : (virt flags : ℕ) → Vmm → Option (ℕ × Vmm)
alloc_page virt flags s =
    let (phys, pmm) = alloc_block s.pmm in
    if phys == 0
    then some (0, record s { pmm = pmm })
    else elim (map_page virt phys flags (record s { pmm = pmm })) [
      | none ↦ none
      | some s1 ↦ some (virt, s1)
    ]

pub unmap_page : ℕ → Vmm → Option Vmm
unmap_page virt s =
    let at = pt_entry (pd_index virt) (pt_index virt) in
    elim (load (pd_entry (pd_index virt)) s) [
      | none ↦ none
      | some pde ↦ if not (has_flag pde page_present) then some s else elim (load at s) [
        | none ↦ none
        | some pte ↦ if not (has_flag pte page_present) then some s else elim (store at 0 s) [
          | none ↦ none
          | some s1 ↦ some (record s1 { pmm = free_block (entry_frame pte) s1.pmm })
        ]
      ]
    ]

-- `vmm_create_directory`: the frame of a new directory, or 0.
pub create_directory : Vmm → Option (ℕ × Vmm)
create_directory s =
    let (dir, pmm) = alloc_block s.pmm in
    if dir == 0
    then some (0, record s { pmm = pmm })
    else elim (map_page temp_map_addr dir (bit_or page_present page_writable)
        (record s { pmm = pmm })) [
          | none ↦ none
          | some s1 ↦ elim (clear_page temp_map_addr s1) [
            | none ↦ none
            | some s2 ↦ elim (unmap_page temp_map_addr s2) [
              | none ↦ none
              | some s3 ↦ some (dir, s3)
            ]
          ]
        ]

-- `vmm_early_identity_map` works on physical addresses, before paging is switched on.
pub early_identity_map : (dir virt phys flags : ℕ) → Vmm → Vmm
early_identity_map dir virt phys flags s =
    let at = dir / 4 + pd_index virt in
    let (new_table, pmm) = alloc_block s.pmm in
    let pde = bit_or (bit_or new_table page_present) page_writable in
    let s1 = record s { pmm = pmm } in
    let set = λ (t : Vmm). record t {
      memory =
          update t.memory (entry_frame (t.memory at) / 4 + pt_index virt) (page_entry phys flags);
    } in
    if not (has_flag (s.memory at) page_present)
    then if new_table == 0 then s1 else set (record s1 { memory = update s.memory at pde })
    else set s

-- One round of `vmm_map_kernel`, for the page number `page`.
pub map_kernel_page : ℕ → ℕ → Vmm → Vmm
map_kernel_page dir page =
    early_identity_map dir (page * page_size) (page * page_size) (bit_or page_present page_writable)

-- From 0x1000 to 0x400000: the pages 1 to 1023.
pub map_kernel : ℕ → Vmm → Vmm
map_kernel dir = for_loop 1023 1 (map_kernel_page dir)

pub vmm_init : Vmm → Vmm
vmm_init s =
    let (dir, pmm) = alloc_block s.pmm in
    let entry = bit_or (bit_or dir page_present) page_writable in
    let s1 = record s {
      pmm = pmm;
      kernel_directory = dir;
      memory = update (zero_page dir s.memory) (dir / 4 + 1023) entry;
    } in
    record (map_kernel dir s1) { cr3 = dir; paging = true }
