-- ===== src/Kernel/Idt.antt =====
-- kernel/idt.c, include/idt.h and kernel/syscall.c: the interrupt gates and the system calls.
-- The stub tables of cpu.asm are parameters.
pub mod Gates
pub mod Syscall
use yotos.Base.{
  ℕ, zero, suc, ◌+◌, ◌-◌, ◌*◌, ◌/◌, ◌%◌, ◌^◌, ◌≤◌, ◌<◌, ◌≡◌, refl, sym, ap, ◌∙◌, fun_ext, ◌≢◌, ◌↔◌,
  ◌⊎◌, inl, inr, Bool, true, false, not, ◌&&◌, ◌||◌, Option, none, some, List, [], ◌∷◌, ◌++◌, map,
  arith, bit_and, bit_or, bit_xor, ltb, leb, ◌==◌, if◌then◌else◌, update, min, max, bit, bit-lt,
  bit-bit_or, bit-bit_and, bit-pow, bit_and-pow_iff, bit-complement, bit_or-lt, bit-ones, pow-lt,
  bit_and-le, all_ones, Bool-cases, Option-cases, length, get_or, take, drop, for_loop,
  for_loop-zero, for_loop-suc, replicate, All, length-append, length-take, length-drop,
  length-replicate, u8, u16, u32, sub32, ==_iff, ltb→lt, lt→ltb, le→ltb, leb→le,
}

abbrev pub max_entries : ℕ
max_entries = 256

-- struct idt_entry
pub record IdtEntry : Type 0 where
  pub isr_low : ℕ
  pub kernel_cs : ℕ
  pub reserved : ℕ
  pub attributes : ℕ
  pub isr_high : ℕ

-- The static variables of idt.c.
pub record Idt : Type 0 where
  pub idt : ℕ → IdtEntry
  pub vectors : ℕ → Bool

pub set_descriptor : ℕ → ℕ → ℕ → Idt → Idt
set_descriptor vector isr flags s = record s {
  idt = update s.idt vector (record {
    isr_low = u16 isr;
    kernel_cs = 0x08;
    attributes = flags;
    isr_high = isr / 2 ^ 16;
    reserved = 0;
  });
}

-- A round of the two loops of `install_idt`.
pub load_stub : (stub : ℕ → ℕ) → (offset : ℕ) → ℕ → Idt → Idt
load_stub stub offset i s =
    let s1 = set_descriptor (u8 (offset + i)) (stub i) 0x8E s in
    record s1 { vectors = update s1.vectors (offset + i) true }

-- The limit and the base of the table's register are given to `lidt` by cpu.asm.
pub install_idt : (isr_stub_table irq_stub_table : ℕ → ℕ) → Idt → Idt
install_idt isr_stub_table irq_stub_table s =
    for_loop 16 0 (load_stub irq_stub_table 32) (for_loop 32 0 (load_stub isr_stub_table 0) s)

-- `stub` is the address of `syscall_stub`.
pub syscall_install : ℕ → Idt → Idt
syscall_install stub = set_descriptor 0x80 stub 0xEF
