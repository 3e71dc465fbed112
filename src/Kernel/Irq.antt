-- ===== src/Kernel/Irq.antt =====
-- kernel/irq.c and include/irq.h: the two interrupt controllers and the handlers of their lines.
-- A mask register of a controller (ports 0x21 and 0xA1, once it is initialised) reads back what was
-- written last, so `masks` holds it; `ports` lists what `outb` sent, in order.
pub mod Lines
use yotos.Base.{
  ℕ, zero, suc, ◌+◌, ◌-◌, ◌*◌, ◌/◌, ◌%◌, ◌^◌, ◌≤◌, ◌<◌, ◌≡◌, refl, sym, ap, ◌∙◌, fun_ext, ◌≢◌, ◌↔◌,
  ◌⊎◌, inl, inr, Bool, true, false, not, ◌&&◌, ◌||◌, Option, none, some, List, [], ◌∷◌, ◌++◌, map,
  arith, bit_and, bit_or, bit_xor, ltb, leb, ◌==◌, if◌then◌else◌, update, min, max, bit, bit-lt,
  bit-bit_or, bit-bit_and, bit-pow, bit_and-pow_iff, bit-complement, bit_or-lt, bit-ones, pow-lt,
  bit_and-le, all_ones, Bool-cases, Option-cases, length, get_or, take, drop, for_loop,
  for_loop-zero, for_loop-suc, replicate, All, length-append, length-take, length-drop,
  length-replicate, u8, u16, u32, sub32, ==_iff, ltb→lt, lt→ltb, le→ltb, leb→le,
}

abbrev pub pic1_command : ℕ
pic1_command = 0x20

abbrev pub pic1_data : ℕ
pic1_data = 0x21

abbrev pub pic2_command : ℕ
pic2_command = 0xA0

abbrev pub pic2_data : ℕ
pic2_data = 0xA1

-- A handler is its address; 0 is none.
pub record Pic : Type 0 where
  pub irq_handlers : ℕ → ℕ
  pub masks : ℕ → ℕ
  pub ports : List (ℕ × ℕ)

abbrev pub outb : ℕ → ℕ → Pic → Pic
outb port value s = record s { ports = s.ports ++ ((port, value) ∷ []) }

-- `outb` to a mask register.
abbrev pub set_register : ℕ → ℕ → Pic → Pic
set_register port value s = record (outb port value s) { masks = update s.masks port value }

pub send_eoi : ℕ → Pic → Pic
send_eoi irq s = outb pic1_command 0x20 (if leb 8 irq then outb pic2_command 0x20 s else s)

remap : ℕ → ℕ → Pic → Pic
remap offset1 offset2 s =
    let s1 = outb pic2_command 0x11 (outb pic1_command 0x11 s) in
    let s2 = outb pic2_data (u8 offset2) (outb pic1_data (u8 offset1) s1) in
    let s3 = outb pic2_data 2 (outb pic1_data (2 ^ 2) s2) in
    let s4 = outb pic2_data 1 (outb pic1_data 1 s3) in
    set_register pic2_data 0xFF (set_register pic1_data 0xFF s4)

-- The port and the bit of a line, as both `IRQ_set_mask` and `IRQ_clear_mask` find them.
pub port_of : ℕ → Option (ℕ × ℕ)
port_of line =
    if ltb line 8
    then some (pic1_data, line)
    else if ltb line 16
    then some (pic2_data, line - 8)
    else none

pub set_mask : ℕ → Pic → Pic
set_mask line s = elim (port_of line) [
  | none ↦ s
  | some (port, n) ↦ set_register port (u8 (bit_or (s.masks port) (2 ^ n))) s
]

pub clear_mask : ℕ → Pic → Pic
clear_mask line s = elim (port_of line) [
  | none ↦ s
  | some (port, n) ↦ set_register port (u8 (bit_and (s.masks port) (2 ^ 32 - 1 - 2 ^ n))) s
]

pub install_handler : ℕ → ℕ → Pic → Pic
install_handler irq handler s =
    if leb 16 irq
    then s
    else clear_mask irq (record s { irq_handlers = update s.irq_handlers irq handler })

pub uninstall_handler : ℕ → Pic → Pic
uninstall_handler irq s =
    if leb 16 irq then s else set_mask irq (record s { irq_handlers = update s.irq_handlers irq 0 })

-- `call` is what the handler at an address does to the controllers.
dispatch : (call : ℕ → Pic → Pic) → ℕ → Pic → Pic
dispatch call vector s =
    let irq = u8 vector in
    send_eoi irq
      (if ltb irq 16 && not (s.irq_handlers irq == 0) then call (s.irq_handlers irq) s else s)
