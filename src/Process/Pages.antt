-- ===== src/Process/Pages.antt =====
-- The array of mapped pages is never written past its end.
use yotos.Base.{
  ℕ, zero, suc, ◌+◌, ◌-◌, ◌*◌, ◌/◌, ◌≤◌, inl, inr, Bool, true, false, not, ◌||◌, Option, none, some,
  List, [], ◌∷◌, arith, ◌==◌, if◌then◌else◌, Bool-cases, length, replicate, length-append, u32,
}
use yotos.Kheap.{Store, kmalloc, kfree}
use yotos.Process.{
  process_max_pages, Created, map_stack, load_process, process_create, process_size,
  process_kstack_size, user_stack_virt, user_stack_pages,
}
use yotos.Process.Elf.{
  File, Ehdr, Phdr, Loaded, record_page, in_heap, alloc_pages, copy_loop, store_bytes, phdr, ehdr,
  is_executable, load_segment, load_segments, elf_load,
}
use yotos.Vmm.{Vmm, alloc_page, page_size}

-- A result whose list of pages has at most `limit` entries.
abbrev Fits : {A : Type 0} → ℕ → Option (A × List ℕ × Vmm) → Type 0
Fits limit none = Unit
Fits limit (some (a, pages, s)) = length pages ≤ limit

Fits-if :
    {A : Type 0} (limit : ℕ) (b : Bool) (x y : Option (A × List ℕ × Vmm))
    → Fits limit x
    → Fits limit y
    → Fits limit (if b then x else y)
Fits-if limit true x y h k = h
Fits-if limit false x y h k = k

-- A step that stops at a failure.
Fits-then :
    {A : Type 0} (limit : ℕ) (failed : A) (next : List ℕ → Vmm → Option (A × List ℕ × Vmm))
    → ((l : List ℕ) (s : Vmm) → length l ≤ limit → Fits limit (next l s))
    → (r : Option Loaded) → Fits limit r
    → Fits limit (elim r [
      | none ↦ none
      | some (false, l, s) ↦ some (failed, l, s)
      | some (true, l, s) ↦ next l s
    ])
Fits-then limit failed next h none k = tt
Fits-then limit failed next h (some (false, l, s)) k = k
Fits-then limit failed next h (some (true, l, s)) k = h l s k

record_page-le :
    (limit vaddr : ℕ) (pages : List ℕ)
    → length pages ≤ limit
    → length (record_page limit vaddr pages) ≤ limit
unfolding record_page
record_page-le limit vaddr pages h = ground (arith, length-append pages (vaddr ∷ []))

alloc_pages-Fits :
    (heap n vaddr limit : ℕ) (pages : List ℕ) (s : Vmm)
    → length pages ≤ limit
    → Fits limit (alloc_pages heap n vaddr limit pages s)
unfolding alloc_pages
alloc_pages-Fits heap zero vaddr limit pages s h = h
alloc_pages-Fits heap (suc n) vaddr limit pages s h = elim (Bool-cases (in_heap heap vaddr)) [
  | inl e ↦ rw e tt
  | inr e ↦
      rw e
        (elim (alloc_page vaddr 7 s)
          as (λ r. Fits limit (elim r [
            | none ↦ none
            | some (p, s1) ↦
                if p == 0
                then some (false, pages, s1)
                else alloc_pages heap n (vaddr + page_size) limit (record_page limit vaddr pages) s1
          ])) [
            | none ↦ tt
            | some (p, s1) ↦ Fits-if limit (p == 0) (some (false, pages, s1)) _ h (
                alloc_pages-Fits heap n (vaddr + page_size) limit (record_page limit vaddr pages) s1
                  (record_page-le limit vaddr pages h))
          ])
]

-- What follows the allocation of the pages of a segment.
fill_segment-Fits :
    (limit : ℕ) (l : List ℕ)
    → length l ≤ limit
    → (r : Option (Bool × Vmm)) (zeroed : Vmm → Option Vmm)
    → Fits limit (elim r [
      | none ↦ none
      | some (false, s2) ↦ some (false, l, s2)
      | some (true, s2) ↦ elim (zeroed s2) [ none ↦ none | some s3 ↦ some (true, l, s3) ]
    ])
fill_segment-Fits limit l k none zeroed = tt
fill_segment-Fits limit l k (some (false, s2)) zeroed = k
fill_segment-Fits limit l k (some (true, s2)) zeroed =
    elim (zeroed s2) as (λ r. Fits limit (elim r [ none ↦ none | some s3 ↦ some (true, l, s3) ])) [
      | none ↦ tt
      | some s3 ↦ k
    ]

load_segment-Fits :
    (heap : ℕ) (file : File) (limit : ℕ) (ph : Phdr) (pages : List ℕ) (s : Vmm)
    → length pages ≤ limit
    → Fits limit (load_segment heap file limit ph pages s)
unfolding load_segment
load_segment-Fits heap file limit ph pages s h =
    let seg_start = ph.p_vaddr / page_size * page_size in
    let seg_end = u32 (ph.p_vaddr + ph.p_memsz + page_size - 1) / page_size * page_size in
    let n = (seg_end - seg_start) / page_size in
    let bss = λ (t : Vmm).
      store_bytes heap (ph.p_vaddr + ph.p_filesz) (replicate (ph.p_memsz - ph.p_filesz) 0) t in
    Fits-if limit (not (ph.p_type == 1) || (ph.p_memsz == 0)) (some (true, pages, s)) _ h (
      Fits-then limit false _
        (λ l t k.
          fill_segment-Fits limit l k (copy_loop heap (suc ph.p_filesz) file ph ph.p_filesz 0 t)
            bss)
        (alloc_pages heap n seg_start limit pages s)
        (alloc_pages-Fits heap n seg_start limit pages s h))

load_segments-Fits :
    (heap n i limit : ℕ) (file : File) (eh : Ehdr) (pages : List ℕ) (s : Vmm)
    → length pages ≤ limit
    → Fits limit (load_segments heap n i limit file eh pages s)
unfolding load_segments
load_segments-Fits heap zero i limit file eh pages s h = h
load_segments-Fits heap (suc n) i limit file eh pages s h =
    elim (file (u32 (eh.e_phoff + i * eh.e_phentsize)) 32)
      as (λ r. Fits limit (elim r [
        | none ↦ some (false, pages, s)
        | some b ↦
            if not (length b == 32)
            then some (false, pages, s)
            else elim (load_segment heap file limit (phdr b) pages s) [
              | none ↦ none
              | some (false, pages1, s1) ↦ some (false, pages1, s1)
              | some (true, pages1, s1) ↦ load_segments heap n (suc i) limit file eh pages1 s1
            ]
      ])) [
        | none ↦ h
        | some b ↦ Fits-if limit (not (length b == 32)) (some (false, pages, s)) _ h (
            Fits-then limit false _ (λ l t k. load_segments-Fits heap n (suc i) limit file eh l t k)
              (load_segment heap file limit (phdr b) pages s)
              (load_segment-Fits heap file limit (phdr b) pages s h))
      ]

elf_load-Fits :
    (heap : ℕ) (file : File) (limit : ℕ) (pages : List ℕ) (s : Vmm)
    → length pages ≤ limit
    → Fits limit (elf_load heap file limit pages s)
unfolding elf_load
elf_load-Fits heap file limit pages s h =
    elim (file 0 52)
      as (λ r. Fits limit (elim r [
        | none ↦ some (0, pages, s)
        | some b ↦
            if not (length b == 52) || not (is_executable (ehdr b))
            then some (0, pages, s)
            else elim (load_segments heap (ehdr b).e_phnum 0 limit file (ehdr b) pages s) [
              | none ↦ none
              | some (false, pages1, s1) ↦ some (0, pages1, s1)
              | some (true, pages1, s1) ↦ some ((ehdr b).e_entry, pages1, s1)
            ]
      ])) [
        | none ↦ h
        | some b ↦
            Fits-if limit (not (length b == 52) || not (is_executable (ehdr b)))
              (some (0, pages, s)) _ h
              (Fits-then limit 0 _ (λ l t k. k)
                (load_segments heap (ehdr b).e_phnum 0 limit file (ehdr b) pages s)
                (load_segments-Fits heap (ehdr b).e_phnum 0 limit file (ehdr b) pages s h))
      ]

map_stack-Fits :
    (n i : ℕ) (pages : List ℕ) (s : Vmm)
    → length pages ≤ process_max_pages
    → Fits process_max_pages (map_stack n i pages s)
unfolding map_stack
map_stack-Fits zero i pages s h = h
map_stack-Fits (suc n) i pages s h =
    let vaddr = user_stack_virt - i * page_size in
    elim (alloc_page vaddr 7 s)
      as (λ r. Fits process_max_pages (elim r [
        | none ↦ none
        | some (p, s1) ↦
            if p == 0
            then some (false, pages, s1)
            else map_stack n (suc i) (record_page process_max_pages vaddr pages) s1
      ])) [
        | none ↦ tt
        | some (p, s1) ↦ Fits-if process_max_pages (p == 0) (some (false, pages, s1)) _ h (
            map_stack-Fits n (suc i) (record_page process_max_pages vaddr pages) s1
              (record_page-le process_max_pages vaddr pages h))
      ]

-- The pages of a process that is created fit its array.
abbrev pub FitsArray : Option Created → Type 0
FitsArray none = Unit
FitsArray (some (none, s, m)) = Unit
FitsArray (some (some (proc, p), s, m)) = length p.mapped_pages ≤ process_max_pages

FitsArray-if :
    (b : Bool) (x y : Option Created) → FitsArray x → FitsArray y → FitsArray (if b then x else y)
FitsArray-if true x y h k = h
FitsArray-if false x y h k = k

load_process-FitsArray :
    (heap proc kstack : ℕ) (file : File) (s : Vmm) (m : Store)
    → FitsArray (load_process heap proc kstack file s m)
unfolding load_process
load_process-FitsArray heap proc kstack file s m =
    loaded (elf_load heap file process_max_pages [] s)
      (elf_load-Fits heap file process_max_pages [] s (omega arith))
  where
    finish : ℕ → Option Loaded → Option Created
    finish entry r = elim r [
      | none ↦ none
      | some (false, pages1, s2) ↦ some (none, s2, kfree proc (kfree kstack m))
      | some (true, pages1, s2) ↦ some (
        some (
          proc,
          record {
            entry = entry;
            stack_top = 0xC0000000 - 4;
            exit_code = 0;
            kstack = kstack;
            kstack_top = u32 (kstack + process_kstack_size);
            mapped_pages = pages1;
          },
        ),
        s2,
        m,
      )
    ]

    finished :
        (entry : ℕ) (r : Option Loaded) → Fits process_max_pages r → FitsArray (finish entry r)
    finished entry none k = tt
    finished entry (some (false, l, t)) k = tt
    finished entry (some (true, l, t)) k = k

    loaded :
        (r : Option (ℕ × List ℕ × Vmm))
        → Fits process_max_pages r
        → FitsArray (elim r [
          | none ↦ none
          | some (entry, pages, s1) ↦
              if entry == 0
              then some (none, s1, kfree proc (kfree kstack m))
              else finish entry (map_stack user_stack_pages 0 pages s1)
        ])
    loaded none k = tt
    loaded (some (entry, pages, s1)) k =
        FitsArray-if (entry == 0) (some (none, s1, kfree proc (kfree kstack m))) _ tt (
          finished entry (map_stack user_stack_pages 0 pages s1)
            (map_stack-Fits user_stack_pages 0 pages s1 k))

-- Whatever the file holds, a process that `process_create` returns has at most 64 pages in its array
-- of 64 entries, unless the file has memory of the kernel heap mapped or written, where the array is.
pub process_create-FitsArray :
    (start : ℕ) (file : File) (s : Vmm) (m : Store) → FitsArray (process_create start file s m)
unfolding process_create
process_create-FitsArray start file s m =
    elim (kmalloc start process_size m)
      as (λ r. FitsArray (elim r [
        | none ↦ none
        | some (proc, m1) ↦
            if proc == 0
            then some (none, s, m1)
            else with_stack proc (kmalloc start process_kstack_size m1)
      ])) [
        | none ↦ tt
        | some (proc, m1) ↦
            FitsArray-if (proc == 0) (some (none, s, m1)) _ tt
              (stacked proc (kmalloc start process_kstack_size m1))
      ]
  where
    with_stack : ℕ → Option (ℕ × Store) → Option Created
    with_stack proc r = elim r [
      | none ↦ none
      | some (kstack, m2) ↦
          if kstack == 0
          then some (none, s, kfree proc m2)
          else load_process start proc kstack file s m2
    ]

    stacked : (proc : ℕ) (r : Option (ℕ × Store)) → FitsArray (with_stack proc r)
    stacked proc none = tt
    stacked proc (some (kstack, m2)) =
        FitsArray-if (kstack == 0) (some (none, s, kfree proc m2)) _ tt
          (load_process-FitsArray start proc kstack file s m2)
