-- ===== src/Kernel/Idt/Syscall.antt =====
-- kernel/syscall.c: the dispatch of `int 0x80`. The memory of the process is a function from an
-- address to a byte.
use yotos.Base.{
  ℕ, zero, suc, ◌+◌, ◌≡◌, refl, ◌≢◌, inl, inr, false, Option, none, some, arith, ◌==◌,
  if◌then◌else◌, Bool-cases, for_loop, u8, u32,
}
use yotos.Drivers.Vga.{Terminal, terminal_putchar}
use yotos.Drivers.Vga.Cursor.{InScreen, terminal_putchar-InScreen}
use yotos.Drivers.Keyboard.{Keyboard, keyboard_getchar}
use yotos.Drivers.Timer.{Timer, sleep}

-- The registers of struct regs that the handler uses.
pub record Regs : Type 0 where
  pub eax : ℕ
  pub ebx : ℕ
  pub ecx : ℕ

-- The drivers that the calls use.
pub record Devices : Type 0 where
  pub terminal : Terminal
  pub keyboard : Keyboard
  pub timer : Timer

-- `process_exit` does not return.
pub data Outcome : Type 0 where
  exits : ℕ → Outcome
  returns : Regs → Devices → Outcome

-- The round of the loop of `sys_write`.
write_char : (ℕ → ℕ) → ℕ → ℕ → Terminal → Terminal
write_char memory buf i = terminal_putchar (memory (u32 (buf + i)))

sys_write : (ℕ → ℕ) → ℕ → ℕ → Terminal → Terminal
unfolding write_char
sys_write memory buf len = for_loop len 0 (write_char memory buf)

-- `none` means that the fuel of `sleep` ran out.
syscall_handler : (fuel : ℕ) → (ℕ → ℕ) → Regs → Devices → Option Outcome
syscall_handler fuel memory r d =
    if r.eax == 1
    then some (exits r.ebx)
    else if r.eax == 2
    then some (returns r (record d { terminal = sys_write memory r.ebx r.ecx d.terminal }))
    else if r.eax == 3
    then (let got = keyboard_getchar d.keyboard in
        some (returns (record r { eax = u8 got.0 }) (record d { keyboard = got.1 })))
    else if r.eax == 4
    then elim (sleep fuel r.ebx d.timer) [
      | none ↦ none
      | some timer ↦ some (returns r (record d { timer = timer }))
    ]
    else some (returns r d)

write_chars :
    (n first : ℕ) (memory : ℕ → ℕ) (buf : ℕ) (t : Terminal)
    → ((i : ℕ) → memory i ≢ 8)
    → InScreen t
    → InScreen (for_loop n first (write_char memory buf) t)
unfolding for_loop write_char
write_chars zero first memory buf t clean h = h
write_chars (suc n) first memory buf t clean h =
    write_chars n (suc first) memory buf (terminal_putchar (memory (u32 (buf + first))) t) clean
      (terminal_putchar-InScreen (memory (u32 (buf + first))) t h
        (λ e. absurd (clean (u32 (buf + first)) e))).0

-- A system call other than `exit`, of a process without a backspace in its memory, returns when its
-- sleep does, with the cursor still on the screen.
syscall_handler-InScreen :
    (fuel : ℕ) (memory : ℕ → ℕ) (r : Regs) (d : Devices)
    → ((i : ℕ) → memory i ≢ 8)
    → InScreen d.terminal
    → r.eax ≢ 1
    → r.eax ≢ 4
    → (q : Regs) × (e : Devices) × (syscall_handler fuel memory r d ≡ some (returns q e))
      × InScreen e.terminal
unfolding syscall_handler sys_write
syscall_handler-InScreen fuel memory r d clean h x y =
    let n1 : (r.eax == 1) ≡ false = ground arith in
    let n4 : (r.eax == 4) ≡ false = ground arith in
    elim (Bool-cases (r.eax == 2)) [
      | inl e ↦
          rw (n1, e)
            (
              r,
              record d { terminal = sys_write memory r.ebx r.ecx d.terminal },
              refl,
              write_chars r.ecx 0 memory r.ebx d.terminal clean h,
            )
      | inr e ↦ elim (Bool-cases (r.eax == 3)) [
        | inl k ↦
            rw (n1, e, k)
              (
                record r { eax = u8 (keyboard_getchar d.keyboard).0 },
                record d { keyboard = (keyboard_getchar d.keyboard).1 },
                refl,
                h,
              )
        | inr k ↦ rw (n1, e, k, n4) (r, d, refl, h)
      ]
    ]
