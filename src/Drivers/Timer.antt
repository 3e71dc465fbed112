-- ===== src/Drivers/Timer.antt =====
-- drivers/timer.c: the programmable interval timer. `ports` lists what `outb` sent, in order.
pub mod Wait
use yotos.Base.{
  ℕ, zero, suc, ◌+◌, ◌-◌, ◌*◌, ◌/◌, ◌%◌, ◌^◌, ◌≤◌, ◌<◌, ◌≡◌, refl, sym, ap, ◌∙◌, fun_ext, ◌≢◌, ◌↔◌,
  ◌⊎◌, inl, inr, Bool, true, false, not, ◌&&◌, ◌||◌, Option, none, some, List, [], ◌∷◌, ◌++◌, map,
  arith, bit_and, bit_or, bit_xor, ltb, leb, ◌==◌, if◌then◌else◌, update, min, max, bit, bit-lt,
  bit-bit_or, bit-bit_and, bit-pow, bit_and-pow_iff, bit-complement, bit_or-lt, bit-ones, pow-lt,
  bit_and-le, all_ones, Bool-cases, Option-cases, length, get_or, take, drop, for_loop,
  for_loop-zero, for_loop-suc, replicate, All, length-append, length-take, length-drop,
  length-replicate, u8, u16, u32, sub32, ==_iff, ltb→lt, lt→ltb, le→ltb, leb→le,
}

abbrev pub pit_base_frequency : ℕ
pit_base_frequency = 1193180

pub record Timer : Type 0 where
  pub timer_ticks : ℕ
  pub timer_frequency : ℕ
  pub ports : List (ℕ × ℕ)

-- `timer_handler` increments the ticks before it calls `process_check_kill`.
pub tick : Timer → Timer
tick s = record s { timer_ticks = u32 (s.timer_ticks + 1) }

abbrev pub divisor_of : ℕ → ℕ
divisor_of frequency_hz =
    let divisor = pit_base_frequency / frequency_hz in if divisor == 0 then 1 else divisor

timer_set_frequency : ℕ → Timer → Timer
timer_set_frequency frequency_hz s =
    let hz = if frequency_hz == 0 then 100 else frequency_hz in
    record s {
      timer_frequency = hz;
      ports =
          s.ports
          ++ ((0x43, 0x36) ∷ (0x40, u8 (divisor_of hz)) ∷ (0x40, u8 (divisor_of hz / 256)) ∷ []);
    }

-- `timer_install`, but for the handler of IRQ 0 that it registers.
timer_install : ℕ → Timer → Timer
timer_install frequency_hz s = timer_set_frequency frequency_hz (record s { timer_ticks = 0 })

-- The loop of `timer_wait`, with one tick between two looks at the ticks; `none` means that the
-- fuel ran out.
pub wait_loop : ℕ → ℕ → Timer → Option Timer
wait_loop zero target s = none
wait_loop (suc fuel) target s =
    let rest = wait_loop fuel target (tick s) in if ltb s.timer_ticks target then rest else some s

pub timer_wait : ℕ → ℕ → Timer → Option Timer
timer_wait fuel ticks s = wait_loop fuel (u32 (s.timer_ticks + ticks)) s

-- The ticks that `sleep` waits for.
pub sleep_ticks : ℕ → Timer → ℕ
sleep_ticks milliseconds s =
    let ticks = u32 (milliseconds * s.timer_frequency) / 1000 in
    if (ticks == 0) && ltb 0 milliseconds then 1 else ticks

pub sleep : ℕ → ℕ → Timer → Option Timer
sleep fuel milliseconds s = timer_wait fuel (sleep_ticks milliseconds s) s
