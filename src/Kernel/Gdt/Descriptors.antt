-- ===== src/Kernel/Gdt/Descriptors.antt =====
-- What the processor reads from the segment descriptors.
use yotos.Base.{
  ℕ, suc, ◌+◌, ◌*◌, ◌/◌, ◌%◌, ◌^◌, ◌≤◌, ◌<◌, ◌≡◌, refl, ◌∙◌, ◌≢◌, ◌⊎◌, false, arith, bit_or, ltb,
  leb, if◌then◌else◌, bit_or-nibbles, u8,
}
use mathlib.Core.Path.{subst}
use yotos.Kernel.Gdt.{
  GdtDescriptor, Gdt, encode, set_descriptor, null_segment, flat_segment, install_gdt,
  gdt_set_tss_descriptor, install_tss,
}

-- The descriptor at a byte of the table, as the processor reads it.
pub decode : ℕ → (ℕ → ℕ) → GdtDescriptor
decode at t = record {
  limit = t at + 2 ^ 8 * t (at + 1) + 2 ^ 16 * (t (at + 6) % 16);
  base = t (at + 2) + 2 ^ 8 * t (at + 3) + 2 ^ 16 * t (at + 4) + 2 ^ 24 * t (at + 7);
  access_byte = t (at + 5);
  flags = t (at + 6) / 16;
}

-- The fields fit their places in a descriptor.
pub Encodable : GdtDescriptor → Type 0
Encodable d = (d.limit < 2 ^ 20) × (d.base < 2 ^ 32) × (d.access_byte < 2 ^ 8) × (d.flags < 2 ^ 4)

encode-bytes :
    (at : ℕ) (d : GdtDescriptor) (t : ℕ → ℕ)
    → let e = encode at d t in
      (e at ≡ u8 d.limit)
      × (e (at + 1) ≡ u8 (d.limit / 2 ^ 8))
      × (e (at + 2) ≡ u8 d.base)
      × (e (at + 3) ≡ u8 (d.base / 2 ^ 8))
      × (e (at + 4) ≡ u8 (d.base / 2 ^ 16))
      × (e (at + 5) ≡ d.access_byte)
      × (e (at + 6) ≡ u8 (bit_or (d.limit / 2 ^ 16 % 16) (d.flags * 16)))
      × (e (at + 7) ≡ u8 (d.base / 2 ^ 24))
unfolding encode
encode-bytes at d t = (
  ground arith,
  ground arith,
  ground arith,
  ground arith,
  ground arith,
  ground arith,
  ground arith,
  ground arith,
)

encode-frame :
    (at i : ℕ) (d : GdtDescriptor) (t : ℕ → ℕ) → (i < at) ⊎ (at + 8 ≤ i) → encode at d t i ≡ t i
unfolding encode
encode-frame at i d t h = ground arith

decode-encode :
    (at : ℕ) (d : GdtDescriptor) (t : ℕ → ℕ) → Encodable d → decode at (encode at d t) ≡ d
unfolding decode Encodable
decode-encode at d t (a, b, c, e) =
    let (b0, b1, b2, b3, b4, b5, b6, b7) = encode-bytes at d t in
    let join = bit_or-nibbles (d.limit / 2 ^ 16 % 16) d.flags (omega arith) in
    let limit : (decode at (encode at d t)).limit ≡ d.limit = omega (arith, b0, b1, b6, join) in
    let base : (decode at (encode at d t)).base ≡ d.base = omega (arith, b2, b3, b4, b7) in
    let flags : (decode at (encode at d t)).flags ≡ d.flags = omega (arith, b6, join) in
    λ i. record { limit = limit i; base = base i; access_byte = b5 i; flags = flags i }

decode-frame :
    (at k : ℕ) (d : GdtDescriptor) (t : ℕ → ℕ)
    → (k + 8 ≤ at) ⊎ (at + 8 ≤ k)
    → decode k (encode at d t) ≡ decode k t
unfolding decode
decode-frame at k d t h =
    let same : (j : ℕ) → j < 8 → encode at d t (k + j) ≡ t (k + j) =
      λ j lt. encode-frame at (k + j) d t (omega arith) in
    let first : encode at d t k ≡ t k = encode-frame at k d t (omega arith) in
    rw
      (
        first,
        same 1 (omega arith),
        same 2 (omega arith),
        same 3 (omega arith),
        same 4 (omega arith),
        same 5 (omega arith),
        same 6 (omega arith),
        same 7 (omega arith),
      )
      refl

-- A descriptor that fits is read back as it was given from its place in the table, the other places
-- keep what they had, and one more place is used; the seventh descriptor is dropped.
set_descriptor_lem :
    (d : GdtDescriptor) (s : Gdt)
    → Encodable d
    → (s.next < 6
        → (decode (s.next * 8) (set_descriptor d s).gdt ≡ d)
          × ((set_descriptor d s).next ≡ suc s.next)
          × ((k : ℕ) → k ≢ s.next → decode (k * 8) (set_descriptor d s).gdt ≡ decode (k * 8) s.gdt))
      × (6 ≤ s.next → set_descriptor d s ≡ s)
unfolding set_descriptor
set_descriptor_lem d s fits = (
  λ room. (
    let open_slot : leb 6 s.next ≡ false = ground arith in
        rw open_slot (decode-encode (s.next * 8) d s.gdt fits),
    ground arith,
    λ k ne.
        let open_slot : leb 6 s.next ≡ false = ground arith in
        rw open_slot (decode-frame (s.next * 8) (k * 8) d s.gdt (omega arith)),
  ),
  λ full. ground arith,
)

-- `install_gdt` and `install_tss` of a 32-bit address, on a table that nothing was put in, leave,
-- in this order, the null segment, the kernel's code and data, the user's code and data, all flat,
-- and the task's segment.
pub install_gdt_lem :
    (tss kernel_stack : ℕ) (s : Gdt)
    → tss < 2 ^ 32
    → s.next ≡ 0
    → let t = (install_tss tss kernel_stack (install_gdt s)).1.gdt in
      (decode 0 t ≡ null_segment)
      × (decode 8 t ≡ flat_segment 0x9A)
      × (decode 16 t ≡ flat_segment 0x92)
      × (decode 24 t ≡ flat_segment 0xFA)
      × (decode 32 t ≡ flat_segment 0xF2)
      × (decode 40 t ≡ record { limit = 103; base = tss; access_byte = 0x89; flags = 0 })
unfolding install_tss gdt_set_tss_descriptor install_gdt Encodable
install_gdt_lem tss kernel_stack s h z =
    let g0 : Gdt = record s { gdt = λ i. if ltb i 48 then 0 else s.gdt i } in
    let task : GdtDescriptor = record { limit = 103; base = tss; access_byte = 0x89; flags = 0 } in
    let g1 = set_descriptor null_segment g0 in
    let g2 = set_descriptor (flat_segment 0x9A) g1 in
    let g3 = set_descriptor (flat_segment 0x92) g2 in
    let g4 = set_descriptor (flat_segment 0xFA) g3 in
    let g5 = set_descriptor (flat_segment 0xF2) g4 in
    let (l0, n0, f0) =
      step 0 null_segment g0 (omega arith, omega arith, omega arith, omega arith) z (omega arith) in
    let (l1, n1, f1) =
      step 1 (flat_segment 0x9A) g1 (omega arith, omega arith, omega arith, omega arith) n0
        (omega arith) in
    let (l2, n2, f2) =
      step 2 (flat_segment 0x92) g2 (omega arith, omega arith, omega arith, omega arith) n1
        (omega arith) in
    let (l3, n3, f3) =
      step 3 (flat_segment 0xFA) g3 (omega arith, omega arith, omega arith, omega arith) n2
        (omega arith) in
    let (l4, n4, f4) =
      step 4 (flat_segment 0xF2) g4 (omega arith, omega arith, omega arith, omega arith) n3
        (omega arith) in
    let (l5, n5, f5) = step 5 task g5 (omega arith, h, omega arith, omega arith) n4 (omega arith) in
    (
      f5 0 (omega arith)
          ∙ f4 0 (omega arith)
          ∙ f3 0 (omega arith)
          ∙ f2 0 (omega arith)
          ∙ f1 0 (omega arith)
          ∙ l0,
      f5 1 (omega arith) ∙ f4 1 (omega arith) ∙ f3 1 (omega arith) ∙ f2 1 (omega arith) ∙ l1,
      f5 2 (omega arith) ∙ f4 2 (omega arith) ∙ f3 2 (omega arith) ∙ l2,
      f5 3 (omega arith) ∙ f4 3 (omega arith) ∙ l3,
      f5 4 (omega arith) ∙ l4,
      l5,
    )
  where
    step :
        (n : ℕ) (d : GdtDescriptor) (g : Gdt)
        → Encodable d
        → g.next ≡ n
        → n < 6
        → (decode (n * 8) (set_descriptor d g).gdt ≡ d)
          × ((set_descriptor d g).next ≡ suc n)
          × ((k : ℕ) → k ≢ n → decode (k * 8) (set_descriptor d g).gdt ≡ decode (k * 8) g.gdt)
    step n d g fits at lt =
        subst
          (λ m.
            (decode (m * 8) (set_descriptor d g).gdt ≡ d)
            × ((set_descriptor d g).next ≡ suc m)
            × ((k : ℕ) → k ≢ m → decode (k * 8) (set_descriptor d g).gdt ≡ decode (k * 8) g.gdt))
          at ((set_descriptor_lem d g fits).0 (omega arith))
