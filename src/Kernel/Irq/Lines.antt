-- ===== src/Kernel/Irq/Lines.antt =====
-- The mask bits and the handlers of the sixteen lines.
use yotos.Base.{
  ℕ, ◌-◌, ◌^◌, ◌<◌, ◌≡◌, ◌≢◌, arith, bit_and, bit_or, ltb, ◌==◌, if◌then◌else◌, bit, bit-lt,
  bit-bit_or, bit-bit_and, bit-pow, bit-complement, bit_or-lt, pow-lt, bit_and-le, u8,
}
use yotos.Kernel.Irq.{
  Pic, pic1_data, pic2_data, port_of, set_mask, clear_mask, install_handler, uninstall_handler,
}

-- The mask bit of a line: 1 when the line is masked.
pub masked : ℕ → Pic → ℕ
masked line s =
    if ltb line 8 then bit line (s.masks pic1_data) else bit (line - 8) (s.masks pic2_data)

-- Both mask registers have eight bits.
unfoldable pub IsByte : Pic → Type 0
IsByte s = (s.masks pic1_data < 2 ^ 8) × (s.masks pic2_data < 2 ^ 8)

bit-set :
    (k n m : ℕ)
    → n < 8
    → k < 8
    → m < 2 ^ 8
    → bit k (u8 (bit_or m (2 ^ n))) ≡ (if k == n then 1 else bit k m)
bit-set k n m p q h =
    let small : u8 (bit_or m (2 ^ n)) ≡ bit_or m (2 ^ n) =
      omega (arith, bit_or-lt 8 m (2 ^ n) h (pow-lt n 8 p)) in
    rw (small, bit-bit_or k m (2 ^ n), bit-pow k n) (ground (arith, bit-lt k m))

bit-clear :
    (k n m : ℕ)
    → n < 8
    → k < 8
    → m < 2 ^ 8
    → bit k (u8 (bit_and m (2 ^ 32 - 1 - 2 ^ n))) ≡ (if k == n then 0 else bit k m)
bit-clear k n m p q h =
    let small : u8 (bit_and m (2 ^ 32 - 1 - 2 ^ n)) ≡ bit_and m (2 ^ 32 - 1 - 2 ^ n) =
      omega (arith, bit_and-le m m (2 ^ 32 - 1 - 2 ^ n) (omega arith)) in
    rw
      (
        small,
        bit-bit_and k m (2 ^ 32 - 1 - 2 ^ n),
        bit-complement 32 n k (omega arith) (omega arith),
      )
      (ground (arith, bit-lt k m))

-- With mask registers of eight bits, a handler that is installed on a line below 16 has it
-- unmasked, and no other line's mask or handler is changed.
pub install_handler_lem :
    (irq handler : ℕ) (s : Pic)
    → IsByte s
    → irq < 16
    → let t = install_handler irq handler s in
      (t.irq_handlers irq ≡ handler)
      × (masked irq t ≡ 0)
      × ((line : ℕ)
          → line < 16
          → line ≢ irq
          → (t.irq_handlers line ≡ s.irq_handlers line) × (masked line t ≡ masked line s))
      × IsByte t
unfolding install_handler clear_mask port_of masked IsByte
install_handler_lem irq handler s (a, b) h = (
  ground arith,
  ground (arith, bit-clear irq irq (s.masks 33), bit-clear (irq - 8) (irq - 8) (s.masks 161)),
  λ line l ne. (
    ground arith,
    ground (arith, bit-clear line irq (s.masks 33), bit-clear (line - 8) (irq - 8) (s.masks 161)),
  ),
  (ground arith, ground arith),
)

-- A removed handler has its line masked, and no other line's mask or handler is changed.
uninstall_handler_lem :
    (irq : ℕ) (s : Pic)
    → IsByte s
    → irq < 16
    → let t = uninstall_handler irq s in
      (t.irq_handlers irq ≡ 0)
      × (masked irq t ≡ 1)
      × ((line : ℕ)
          → line < 16
          → line ≢ irq
          → (t.irq_handlers line ≡ s.irq_handlers line) × (masked line t ≡ masked line s))
      × IsByte t
unfolding uninstall_handler set_mask port_of masked IsByte
uninstall_handler_lem irq s (a, b) h = (
  ground arith,
  ground (arith, bit-set irq irq (s.masks 33), bit-set (irq - 8) (irq - 8) (s.masks 161)),
  λ line l ne. (
    ground arith,
    ground (arith, bit-set line irq (s.masks 33), bit-set (line - 8) (irq - 8) (s.masks 161)),
  ),
  (ground arith, ground arith),
)
