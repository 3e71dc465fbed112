-- ===== src/Kernel/Idt/Gates.antt =====
-- Which handler each interrupt reaches once the tables are built.
use yotos.Base.{
  ℕ, zero, suc, ◌+◌, ◌-◌, ◌*◌, ◌/◌, ◌^◌, ◌≤◌, ◌<◌, ◌≡◌, refl, ap, ◌∙◌, ◌≢◌, ◌⊎◌, inl, inr, true,
  false, arith, ◌==◌, for_loop, u8, u16,
}
use yotos.Kernel.Idt.{IdtEntry, Idt, set_descriptor, load_stub, install_idt, syscall_install}

-- The address that the processor jumps to.
pub target : IdtEntry → ℕ
target e = e.isr_low + 2 ^ 16 * e.isr_high

whole : (isr : ℕ) → u16 isr + 2 ^ 16 * (isr / 2 ^ 16) ≡ isr
whole isr = omega arith

load_one :
    (i offset : ℕ) (stub : ℕ → ℕ) (s : Idt) (v : ℕ)
    → offset + i < 256
    → let t = load_stub stub offset i s in
      (v ≡ offset + i → (target (t.idt v) ≡ stub (v - offset)) × ((t.idt v).attributes ≡ 0x8E))
      × (v ≢ offset + i → t.idt v ≡ s.idt v)
unfolding load_stub set_descriptor target
load_one i offset stub s v h =
    let byte : u8 (offset + i) ≡ offset + i = omega arith in
    (
      λ e.
          let index : v - offset ≡ i = omega arith in rw (byte, index) (ground arith, ground arith),
      λ ne. rw byte (ground arith),
    )

load_stubs :
    (n first offset : ℕ) (stub : ℕ → ℕ) (s : Idt) (v : ℕ)
    → offset + first + n ≤ 256
    → let t = for_loop n first (load_stub stub offset) s in
      (offset + first ≤ v
        → v < offset + first + n
        → (target (t.idt v) ≡ stub (v - offset)) × ((t.idt v).attributes ≡ 0x8E))
      × ((v < offset + first) ⊎ (offset + first + n ≤ v) → t.idt v ≡ s.idt v)
unfolding for_loop
load_stubs zero first offset stub s v h = (λ a b. absurd (omega arith), λ _. refl)
load_stubs (suc n) first offset stub s v h =
    let ih = load_stubs n (suc first) offset stub (load_stub stub offset first s) v (omega arith) in
    let one = load_one first offset stub s v (omega arith) in
    (
      λ a b. elim (cases v (offset + first) a) [
        | inl e ↦ rw (ih.1 (inl (omega arith))) (one.0 e)
        | inr l ↦ ih.0 (omega arith) (omega arith)
      ],
      λ out. ih.1 (omega arith) ∙ one.1 (omega arith),
    )
  where
    cases : (a b : ℕ) → b ≤ a → (a ≡ b) ⊎ (b < a)
    cases a b l = omega arith

-- `install_idt` and `syscall_install` send the exceptions 0 to 31 and the hardware interrupts 32 to
-- 47 to their stubs through interrupt gates of ring 0, and the interrupt 0x80 to its stub through a
-- trap gate of ring 3; every other entry keeps what it was.
pub install_idt_lem :
    (isrs irqs : ℕ → ℕ) (stub : ℕ) (s : Idt)
    → let t = (syscall_install stub (install_idt isrs irqs s)).idt in
      (v : ℕ)
      → (v < 32 → (target (t v) ≡ isrs v) × ((t v).attributes ≡ 0x8E))
        × (32 ≤ v → v < 48 → (target (t v) ≡ irqs (v - 32)) × ((t v).attributes ≡ 0x8E))
        × (v ≡ 0x80 → (target (t v) ≡ stub) × ((t v).attributes ≡ 0xEF))
        × (48 ≤ v → v ≢ 0x80 → t v ≡ s.idt v)
unfolding install_idt syscall_install set_descriptor target
install_idt_lem isrs irqs stub s v =
    let first = load_stubs 32 0 0 isrs s v (omega arith) in
    let second = load_stubs 16 0 32 irqs (for_loop 32 0 (load_stub isrs 0) s) v (omega arith) in
    (
      λ a.
          let ne : (128 == v) ≡ false = ground arith in
          let from_zero : v - 0 ≡ v = omega arith in
          let reached = first.0 (omega arith) (omega arith) in
          rw (ne, second.1 (inl (omega arith))) (reached.0 ∙ ap isrs from_zero, reached.1),
      λ a b.
          let ne : (128 == v) ≡ false = ground arith in
          rw ne (second.0 (omega arith) (omega arith)),
      λ e. let eq : (128 == v) ≡ true = ground arith in rw eq (whole stub, refl),
      λ a n.
          let ne : (128 == v) ≡ false = ground arith in
          rw ne (second.1 (inr (omega arith)) ∙ first.1 (inr (omega arith))),
    )
