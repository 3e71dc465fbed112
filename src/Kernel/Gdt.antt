-- ===== src/Kernel/Gdt.antt =====
-- kernel/gdt.c, include/gdt.h and kernel/tss.c: the segment descriptors. The table is memory, a
-- function from the index of a byte to the byte.
pub mod Descriptors
use yotos.Base.{
  ℕ, zero, suc, ◌+◌, ◌-◌, ◌*◌, ◌/◌, ◌%◌, ◌^◌, ◌≤◌, ◌<◌, ◌≡◌, refl, sym, ap, ◌∙◌, fun_ext, ◌≢◌, ◌↔◌,
  ◌⊎◌, inl, inr, Bool, true, false, not, ◌&&◌, ◌||◌, Option, none, some, List, [], ◌∷◌, ◌++◌, map,
  arith, bit_and, bit_or, bit_xor, ltb, leb, ◌==◌, if◌then◌else◌, update, min, max, bit, bit-lt,
  bit-bit_or, bit-bit_and, bit-pow, bit_and-pow_iff, bit-complement, bit_or-lt, bit-ones, pow-lt,
  bit_and-le, all_ones, Bool-cases, Option-cases, length, get_or, take, drop, for_loop,
  for_loop-zero, for_loop-suc, replicate, All, length-append, length-take, length-drop,
  length-replicate, u8, u16, u32, sub32, ==_iff, ltb→lt, lt→ltb, le→ltb, leb→le,
}

abbrev pub gdt_max_entries : ℕ
gdt_max_entries = 6

-- struct gdt_descriptor
pub record GdtDescriptor : Type 0 where
  pub limit : ℕ
  pub base : ℕ
  pub access_byte : ℕ
  pub flags : ℕ

-- `next` is the static variable `i` of gdt.c.
pub record Gdt : Type 0 where
  pub gdt : ℕ → ℕ
  pub next : ℕ

-- The eight bytes of a descriptor at the byte `at` of the table, in the order of the code.
pub encode : ℕ → GdtDescriptor → (ℕ → ℕ) → ℕ → ℕ
encode at source t0 =
    let t1 = update t0 at (u8 source.limit) in
    let t2 = update t1 (at + 1) (u8 (source.limit / 2 ^ 8)) in
    let t3 = update t2 (at + 6) (source.limit / 2 ^ 16 % 16) in
    let t4 = update t3 (at + 2) (u8 source.base) in
    let t5 = update t4 (at + 3) (u8 (source.base / 2 ^ 8)) in
    let t6 = update t5 (at + 4) (u8 (source.base / 2 ^ 16)) in
    let t7 = update t6 (at + 7) (u8 (source.base / 2 ^ 24)) in
    let t8 = update t7 (at + 5) source.access_byte in
    update t8 (at + 6) (u8 (bit_or (t8 (at + 6)) (source.flags * 16)))

pub set_descriptor : GdtDescriptor → Gdt → Gdt
set_descriptor source s =
    if leb gdt_max_entries s.next
    then s
    else record { gdt = encode (s.next * 8) source s.gdt; next = u8 (s.next + 1) }

abbrev pub null_segment : GdtDescriptor
null_segment = record { limit = 0; base = 0; access_byte = 0; flags = 0 }

-- A segment of all 4 GiB, of 32 bits and 4 KiB granularity.
abbrev pub flat_segment : ℕ → GdtDescriptor
flat_segment access = record { limit = 0xFFFFF; base = 0; access_byte = access; flags = 0xC }

-- The table that `install_gdt` builds before it is loaded: all bytes 0, then five descriptors.
pub install_gdt : Gdt → Gdt
install_gdt s =
    let s0 = record s { gdt = λ i. if ltb i (gdt_max_entries * 8) then 0 else s.gdt i } in
    let s1 = set_descriptor (flat_segment 0x9A) (set_descriptor null_segment s0) in
    let s2 = set_descriptor (flat_segment 0x92) s1 in
    set_descriptor (flat_segment 0xF2) (set_descriptor (flat_segment 0xFA) s2)

-- The fields of struct tss_structure that the kernel sets; the others stay 0.
pub record Tss : Type 0 where
  pub esp0 : ℕ
  pub ss0 : ℕ
  pub cs : ℕ
  pub ss : ℕ
  pub ds : ℕ
  pub es : ℕ
  pub fs : ℕ
  pub gs : ℕ

-- sizeof(struct tss_structure): 26 words of four bytes.
abbrev pub tss_size : ℕ
tss_size = 104

-- `tss` is the address of the structure.
pub gdt_set_tss_descriptor : ℕ → Gdt → Gdt
gdt_set_tss_descriptor tss =
    set_descriptor (record { limit = tss_size - 1; base = tss; access_byte = 0x89; flags = 0 })

pub install_tss : ℕ → ℕ → Gdt → Tss × Gdt
install_tss tss kernel_stack s = (
  record {
    esp0 = kernel_stack;
    ss0 = 0x10;
    cs = 0x1B;
    ss = 0x23;
    ds = 0x23;
    es = 0x23;
    fs = 0x23;
    gs = 0x23;
  },
  gdt_set_tss_descriptor tss s,
)

pub set_kernel_stack : ℕ → Tss → Tss
set_kernel_stack esp0 tss = record tss { esp0 = esp0 }
