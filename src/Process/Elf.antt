-- ===== src/Process/Elf.antt =====
-- kernel/elf.c and include/elf.h: the loader of executables, over the virtual memory manager. A file is
-- a function from an offset and a size to the bytes that `vfs_read` gives, or none for -1; a read
-- leaves the page tables alone.
use yotos.Base.{
  ℕ, zero, suc, ◌+◌, ◌-◌, ◌*◌, ◌/◌, ◌%◌, ◌^◌, Bool, true, false, not, ◌&&◌, ◌||◌, Option, none,
  some, List, [], ◌∷◌, ◌++◌, ltb, leb, ◌==◌, if◌then◌else◌, update, length, get_or, take, replicate,
  u8, u32, sub32,
}
use yotos.Vmm.{Vmm, walk, alloc_page, page_size}

abbrev pub File : Type 0
File = (offset size : ℕ) → Option (List ℕ)

-- Numbers of two and of four bytes in a list of bytes, the lowest byte first.
abbrev le16 : List ℕ → ℕ → ℕ
le16 b i = get_or b i 0 + 256 * get_or b (i + 1) 0

abbrev le32 : List ℕ → ℕ → ℕ
le32 b i = le16 b i + 65536 * le16 b (i + 2)

-- The fields of Elf32_Ehdr that the loader reads.
pub record Ehdr : Type 0 where
  pub magic : List ℕ
  pub e_type : ℕ
  pub e_machine : ℕ
  pub e_entry : ℕ
  pub e_phoff : ℕ
  pub e_phentsize : ℕ
  pub e_phnum : ℕ

pub ehdr : List ℕ → Ehdr
ehdr b = record {
  magic = take 4 b;
  e_type = le16 b 16;
  e_machine = le16 b 18;
  e_entry = le32 b 24;
  e_phoff = le32 b 28;
  e_phentsize = le16 b 42;
  e_phnum = le16 b 44;
}

pub record Phdr : Type 0 where
  pub p_type : ℕ
  pub p_offset : ℕ
  pub p_vaddr : ℕ
  pub p_filesz : ℕ
  pub p_memsz : ℕ

pub phdr : List ℕ → Phdr
phdr b = record {
  p_type = le32 b 0;
  p_offset = le32 b 4;
  p_vaddr = le32 b 8;
  p_filesz = le32 b 16;
  p_memsz = le32 b 20;
}

-- Whether an address lies in the megabyte of the kernel heap. What is mapped or written there replaces
-- the process_t, with the array of pages that is being filled, and the headers of blocks, which are
-- not part of `Vmm`: such a file is left aside, as `none`.
abbrev pub in_heap : (heap virt : ℕ) → Bool
in_heap heap virt = leb heap virt && ltb virt (heap + 1024 * 1024)

-- A byte that is written at a virtual address; `none` is a page fault, or the heap.
store_byte : (heap virt value : ℕ) → Vmm → Option Vmm
store_byte heap virt value s = if in_heap heap virt then none else elim (walk s.memory s.cr3 virt) [
  | none ↦ none
  | some p ↦
      let weight = 2 ^ (8 * (p % 4)) in
      let word = s.memory (p / 4) in
      let rest = word - word / weight % 256 * weight in
      some (record s { memory = update s.memory (p / 4) (rest + u8 value * weight) })
]

-- `dst[j] = buf[j]` for the bytes of a list.
pub store_bytes : (heap dst : ℕ) → List ℕ → Vmm → Option Vmm
store_bytes heap dst [] s = some s
store_bytes heap dst (b ∷ bs) s = elim (store_byte heap (u32 dst) b s) [
  | none ↦ none
  | some s1 ↦ store_bytes heap (dst + 1) bs s1
]

-- `if (*count < max) pages[(*count)++] = vaddr;`: the list holds the first `count` entries.
unfoldable pub record_page : (max vaddr : ℕ) → List ℕ → List ℕ
record_page limit vaddr pages = if ltb (length pages) limit then pages ++ vaddr ∷ [] else pages

-- Success or failure, the recorded pages, and the page tables; `none` is a page fault, the end of the
-- fuel, or a file that asks for memory of the kernel heap.
abbrev pub Loaded : Type 0
Loaded = Bool × List ℕ × Vmm

-- The pages of a segment, `n` of them.
unfoldable pub alloc_pages : (heap n vaddr limit : ℕ) → List ℕ → Vmm → Option Loaded
alloc_pages heap zero vaddr limit pages s = some (true, pages, s)
alloc_pages heap (suc n) vaddr limit pages s =
    if in_heap heap vaddr then none else elim (alloc_page vaddr 7 s) [
      | none ↦ none
      | some (p, s1) ↦
          if p == 0
          then some (false, pages, s1)
          else alloc_pages heap n (vaddr + page_size) limit (record_page limit vaddr pages) s1
    ]

-- The copying loop. A read gives at most the chunk that is asked for.
pub copy_loop : (heap fuel : ℕ) → File → Phdr → (remaining read_off : ℕ) → Vmm → Option (Bool × Vmm)
copy_loop heap zero file ph remaining read_off s = none
copy_loop heap (suc fuel) file ph remaining read_off s =
    let chunk = if ltb remaining 512 then remaining else 512 in
    let round : Option (Bool × Vmm) = elim (file (u32 (ph.p_offset + read_off)) chunk) [
      | none ↦ some (false, s)
      | some got ↦
          if length got == 0
          then some (false, s)
          else elim (store_bytes heap (ph.p_vaddr + read_off) got s) [
            | none ↦ none
            | some s1 ↦
                copy_loop heap fuel file ph (sub32 remaining (length got))
                  (u32 (read_off + length got)) s1
          ]
    ] in
    if remaining == 0 then some (true, s) else round

-- One program header; a round of the copying loop reads a byte at least.
unfoldable pub load_segment : (heap : ℕ) → File → ℕ → Phdr → List ℕ → Vmm → Option Loaded
load_segment heap file limit ph pages s =
    let seg_start = ph.p_vaddr / page_size * page_size in
    let seg_end = u32 (ph.p_vaddr + ph.p_memsz + page_size - 1) / page_size * page_size in
    if not (ph.p_type == 1) || (ph.p_memsz == 0)
    then some (true, pages, s)
    else elim (alloc_pages heap ((seg_end - seg_start) / page_size) seg_start limit pages s) [
      | none ↦ none
      | some (false, pages1, s1) ↦ some (false, pages1, s1)
      | some (true, pages1, s1) ↦ elim (copy_loop heap (suc ph.p_filesz) file ph ph.p_filesz 0 s1) [
        | none ↦ none
        | some (false, s2) ↦ some (false, pages1, s2)
        | some (true, s2) ↦
            elim (store_bytes heap (ph.p_vaddr + ph.p_filesz)
              (replicate (ph.p_memsz - ph.p_filesz) 0) s2) [
                | none ↦ none
                | some s3 ↦ some (true, pages1, s3)
              ]
      ]
    ]

-- The program headers from number `i` on, `n` of them.
unfoldable pub load_segments : (heap n i limit : ℕ) → File → Ehdr → List ℕ → Vmm → Option Loaded
load_segments heap zero i limit file eh pages s = some (true, pages, s)
load_segments heap (suc n) i limit file eh pages s =
    elim (file (u32 (eh.e_phoff + i * eh.e_phentsize)) 32) [
      | none ↦ some (false, pages, s)
      | some b ↦
          if not (length b == 32)
          then some (false, pages, s)
          else elim (load_segment heap file limit (phdr b) pages s) [
            | none ↦ none
            | some (false, pages1, s1) ↦ some (false, pages1, s1)
            | some (true, pages1, s1) ↦ load_segments heap n (suc i) limit file eh pages1 s1
          ]
    ]

-- The four bytes that an executable starts with, and the tests of its kind.
pub is_executable : Ehdr → Bool
is_executable eh =
    (get_or eh.magic 0 0 == 0x7F)
    && (get_or eh.magic 1 0 == b'E')
    && (get_or eh.magic 2 0 == b'L')
    && (get_or eh.magic 3 0 == b'F')
    && (eh.e_type == 2)
    && (eh.e_machine == 3)

-- The entry point, or 0 for an error.
unfoldable pub elf_load : (heap : ℕ) → File → ℕ → List ℕ → Vmm → Option (ℕ × List ℕ × Vmm)
elf_load heap file limit pages s = elim (file 0 52) [
  | none ↦ some (0, pages, s)
  | some b ↦
      if not (length b == 52) || not (is_executable (ehdr b))
      then some (0, pages, s)
      else elim (load_segments heap (ehdr b).e_phnum 0 limit file (ehdr b) pages s) [
        | none ↦ none
        | some (false, pages1, s1) ↦ some (0, pages1, s1)
        | some (true, pages1, s1) ↦ some ((ehdr b).e_entry, pages1, s1)
      ]
]
