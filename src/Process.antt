-- ===== src/Process.antt =====
-- kernel/process.c and include/process.h: the creation of a process over the kernel heap, the loader
-- and the virtual memory manager, its release, and the state that decides which process runs and
-- whether it is to be killed. Messages that are printed are left out.
pub mod Elf
pub mod Pages
pub mod Kill
mod Tests
use yotos.Base.{
  ℕ, zero, suc, ◌+◌, ◌-◌, ◌*◌, ◌/◌, ◌%◌, ◌^◌, ◌≤◌, ◌<◌, ◌≡◌, refl, sym, ap, ◌∙◌, fun_ext, ◌≢◌, ◌↔◌,
  ◌⊎◌, inl, inr, Bool, true, false, not, ◌&&◌, ◌||◌, Option, none, some, List, [], ◌∷◌, ◌++◌, map,
  arith, bit_and, bit_or, bit_xor, ltb, leb, ◌==◌, if◌then◌else◌, update, min, max, bit, bit-lt,
  bit-bit_or, bit-bit_and, bit-pow, bit_and-pow_iff, bit-complement, bit_or-lt, bit-ones, pow-lt,
  bit_and-le, all_ones, Bool-cases, Option-cases, length, get_or, take, drop, for_loop,
  for_loop-zero, for_loop-suc, replicate, All, length-append, length-take, length-drop,
  length-replicate, u8, u16, u32, sub32, ==_iff, ltb→lt, lt→ltb, le→ltb, leb→le,
}
use yotos.Kernel.Gdt.{Tss, set_kernel_stack}
use yotos.Kernel.Irq.{Pic, send_eoi}
use yotos.Kheap.{Store, kmalloc, kfree}
use yotos.Process.Elf.{File, Loaded, alloc_pages, record_page, elf_load}
use yotos.Vmm.{Vmm, page_size, alloc_page, unmap_page}

abbrev pub process_max_pages : ℕ
process_max_pages = 64

abbrev pub process_kstack_size : ℕ
process_kstack_size = 8192

abbrev pub user_stack_virt : ℕ
user_stack_virt = 0xBFFFF000

abbrev pub user_stack_pages : ℕ
user_stack_pages = 4

-- sizeof(process_t): 70 words of four bytes.
abbrev pub process_size : ℕ
process_size = 280

-- `mapped_pages` holds the first `mapped_count` entries of the array.
pub record Process : Type 0 where
  pub entry : ℕ
  pub stack_top : ℕ
  pub exit_code : ℕ
  pub kstack : ℕ
  pub kstack_top : ℕ
  pub mapped_pages : List ℕ

-- The pages of the user stack from number `i` on, `n` of them.
unfoldable pub map_stack : (n i : ℕ) → List ℕ → Vmm → Option Loaded
map_stack zero i pages s = some (true, pages, s)
map_stack (suc n) i pages s =
    let vaddr = user_stack_virt - i * page_size in
    elim (alloc_page vaddr 7 s) [
      | none ↦ none
      | some (p, s1) ↦
          if p == 0
          then some (false, pages, s1)
          else map_stack n (suc i) (record_page process_max_pages vaddr pages) s1
    ]

-- The address of the process_t and its contents, or none for NULL, the page tables and the heap.
abbrev pub Created : Type 0
Created = Option (ℕ × Process) × Vmm × Store

-- What follows the allocation of the process_t at `proc` and of its kernel stack.
unfoldable pub load_process : (heap proc kstack : ℕ) → File → Vmm → Store → Option Created
load_process heap proc kstack file s m = elim (elf_load heap file process_max_pages [] s) [
  | none ↦ none
  | some (entry, pages, s1) ↦
      if entry == 0
      then some (none, s1, kfree proc (kfree kstack m))
      else elim (map_stack user_stack_pages 0 pages s1) [
        | none ↦ none
        | some (false, pages1, s2) ↦ some (none, s2, kfree proc (kfree kstack m))
        | some (true, pages1, s2) ↦ some (
          some (
            proc,
            record {
              entry = entry;
              stack_top = 0xC0000000 - 4;
              exit_code = 0;
              kstack = kstack;
              kstack_top = u32 (kstack + process_kstack_size);
              mapped_pages = pages1;
            },
          ),
          s2,
          m,
        )
      ]
]

unfoldable pub process_create : (start : ℕ) → File → Vmm → Store → Option Created
process_create start file s m = elim (kmalloc start process_size m) [
  | none ↦ none
  | some (proc, m1) ↦
      if proc == 0 then some (none, s, m1) else elim (kmalloc start process_kstack_size m1) [
        | none ↦ none
        | some (kstack, m2) ↦
            if kstack == 0
            then some (none, s, kfree proc m2)
            else load_process start proc kstack file s m2
      ]
]

pub unmap_pages : List ℕ → Vmm → Option Vmm
unmap_pages [] s = some s
unmap_pages (p ∷ ps) s = elim (unmap_page p s) [ none ↦ none | some s1 ↦ unmap_pages ps s1 ]

pub process_free : ℕ → Process → Vmm → Store → Option (Vmm × Store)
process_free proc p s m = if proc == 0 then some (s, m) else elim (unmap_pages p.mapped_pages s) [
  | none ↦ none
  | some s1 ↦ some (s1, kfree proc (kfree p.kstack m))
]

-- The static variables, with the exit code of each process_t by its address. The pointer 0 is NULL.
pub record Control : Type 0 where
  pub current_process : ℕ
  pub kill_pending : Bool
  pub exit_codes : ℕ → ℕ
  pub tss : Tss
  pub pic : Pic

unfoldable pub process_is_running : Control → Bool
process_is_running s = not (s.current_process == 0)

unfoldable pub process_signal_kill : Control → Control
process_signal_kill s = record s { kill_pending = true }

-- `process_run` up to the jump into user mode.
unfoldable pub process_run : (proc kstack_top : ℕ) → Control → Control
process_run proc kstack_top s = record s {
  current_process = proc;
  tss = set_kernel_stack kstack_top s.tss;
}

-- `process_exit` up to the return behind `process_run`.
unfoldable pub process_exit : ℕ → Control → Control
process_exit code s = record s {
  exit_codes =
      if not (s.current_process == 0)
      then update s.exit_codes s.current_process code
      else s.exit_codes;
  current_process = 0;
}

unfoldable pub process_check_kill : Control → Control
process_check_kill s =
    let killed = record s { kill_pending = false; pic = send_eoi 0 s.pic } in
    let over = process_exit 1 killed in
    if not s.kill_pending || (s.current_process == 0) then s else over
