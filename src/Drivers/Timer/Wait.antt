-- ===== src/Drivers/Timer/Wait.antt =====
-- How long the timer's waits last.
use yotos.Base.{
  ℕ, zero, suc, ◌+◌, ◌*◌, ◌/◌, ◌^◌, ◌≤◌, ◌<◌, ◌≡◌, refl, ◌&&◌, some, arith, ltb, ◌==◌,
  if◌then◌else◌, min, max, u32, lt→ltb,
}
use yotos.Drivers.Timer.{Timer, tick, wait_loop, timer_wait, sleep_ticks, sleep}

wait_loop-ticks :
    (n fuel : ℕ) (s : Timer)
    → n < fuel
    → s.timer_ticks + n < 2 ^ 32
    → wait_loop fuel (s.timer_ticks + n) s ≡ some (record s { timer_ticks = s.timer_ticks + n })
unfolding wait_loop tick
wait_loop-ticks n zero s f h = absurd (omega arith)
wait_loop-ticks zero (suc fuel) s f h = ground arith
wait_loop-ticks (suc n) (suc fuel) s f h =
    let next : u32 (s.timer_ticks + 1) ≡ s.timer_ticks + 1 = omega arith in
    let more : s.timer_ticks + suc n ≡ s.timer_ticks + 1 + n = omega arith in
    let ih =
      wait_loop-ticks n fuel (record s { timer_ticks = s.timer_ticks + 1 }) (omega arith)
        (omega arith) in
    rw (lt→ltb s.timer_ticks (s.timer_ticks + suc n) (omega arith), next, more) ih

-- `timer_wait` ends after exactly the ticks that it is given, unless the counter wraps meanwhile.
timer_wait_lem :
    (ticks : ℕ) (s : Timer)
    → s.timer_ticks + ticks < 2 ^ 32
    → timer_wait (suc ticks) ticks s ≡ some (record s { timer_ticks = s.timer_ticks + ticks })
unfolding timer_wait
timer_wait_lem ticks s h =
    let target : u32 (s.timer_ticks + ticks) ≡ s.timer_ticks + ticks = omega arith in
    rw target (wait_loop-ticks ticks (suc ticks) s (omega arith) h)

-- When the target wraps past 2 ^ 32, `timer_wait` does not wait at all.
timer_wait-wrap :
    (ticks : ℕ) (s : Timer)
    → s.timer_ticks < 2 ^ 32
    → ticks < 2 ^ 32
    → 2 ^ 32 ≤ s.timer_ticks + ticks
    → timer_wait 1 ticks s ≡ some s
unfolding timer_wait wait_loop
timer_wait-wrap ticks s h k o = ground arith

u32-small : (n : ℕ) → n < 2 ^ 32 → u32 n ≡ n
u32-small n h = omega arith

rounding :
    (milliseconds n : ℕ)
    → (milliseconds ≡ 0 → n ≡ 0)
    → (if (n == 0) && ltb 0 milliseconds then 1 else n) ≡ max n (min 1 milliseconds)
rounding zero n h = ground (arith, h refl)
rounding (suc milliseconds) n h = ground arith

-- A sleep whose milliseconds times the frequency are below 2 ^ 32 ends after the whole ticks in it,
-- at least one when it is not empty, unless the counter wraps meanwhile.
pub sleep_lem :
    (milliseconds : ℕ) (s : Timer)
    → milliseconds * s.timer_frequency < 2 ^ 32
    → let ticks = max (milliseconds * s.timer_frequency / 1000) (min 1 milliseconds) in
      s.timer_ticks + ticks < 2 ^ 32
      → sleep (suc ticks) milliseconds s ≡ some (record s { timer_ticks = s.timer_ticks + ticks })
unfolding sleep sleep_ticks
sleep_lem milliseconds s h k =
    let product : u32 (milliseconds * s.timer_frequency) ≡ milliseconds * s.timer_frequency =
      u32-small (milliseconds * s.timer_frequency) h in
    let same : (if (milliseconds * s.timer_frequency / 1000 == 0) && ltb 0 milliseconds
          then 1
          else milliseconds * s.timer_frequency / 1000)
        ≡ max (milliseconds * s.timer_frequency / 1000) (min 1 milliseconds) =
      rounding milliseconds (milliseconds * s.timer_frequency / 1000) (λ e. rw e (omega arith)) in
    rw (product, same)
      (timer_wait_lem (max (milliseconds * s.timer_frequency / 1000) (min 1 milliseconds)) s k)
