-- ===== src/Process/Kill.antt =====
-- The process that runs and the request to kill it, as a state machine: the keyboard handler asks
-- for the kill, the timer handler looks for the request at every tick, a process may exit by itself,
-- and the shell starts the next one.
use yotos.Base.{ℕ, ◌≡◌, refl, ◌≢◌, Bool, true, false, List, [], ◌∷◌, arith, ◌==◌, if◌then◌else◌}
use yotos.Kernel.Irq.{send_eoi}
use yotos.Process.{
  Control, process_is_running, process_signal_kill, process_run, process_exit, process_check_kill,
}

-- What happens, in the order of time. `control_c` is the branch of the keyboard handler.
pub data Event : Type 0 where
  control_c : Event
  tick : Event
  exits : ℕ → Event
  runs : (proc kstack_top : ℕ) → Event

-- `if (process_is_running()) process_signal_kill();`
unfoldable pub react : Event → Control → Control
react control_c s = if process_is_running s then process_signal_kill s else s
react tick s = process_check_kill s
react (exits code) s = process_exit code s
react (runs proc kstack_top) s = process_run proc kstack_top s

-- A history, the first event first.
unfoldable pub history : List Event → Control → Control
history [] s = s
history (e ∷ es) s = history es (react e s)

-- Events of a history without a tick.
abbrev pub is_tick : Event → Bool
is_tick control_c = false
is_tick tick = true
is_tick (exits code) = false
is_tick (runs proc kstack_top) = false

abbrev pub HasNoTick : List Event → Type 0
HasNoTick [] = Unit
HasNoTick (e ∷ es) = (is_tick e ≡ false) × HasNoTick es

react-pending :
    (e : Event) (s : Control)
    → is_tick e ≡ false
    → s.kill_pending ≡ true
    → (react e s).kill_pending ≡ true
unfolding react process_is_running process_signal_kill process_exit process_run
react-pending control_c s h k = ground (arith, k)
react-pending tick s h k = absurd (ground (arith, h))
react-pending (exits code) s h k = k
react-pending (runs proc kstack_top) s h k = k

history-pending :
    (es : List Event) (s : Control)
    → HasNoTick es
    → s.kill_pending ≡ true
    → (history es s).kill_pending ≡ true
unfolding history
history-pending [] s h k = k
history-pending (e ∷ es) s h k = history-pending es (react e s) h.1 (react-pending e s h.0 k)

-- When Ctrl+C is pressed while a process runs, and no tick comes before the other events of a history,
-- then the first tick after them ends whichever process runs by then: its exit code is 1, no process
-- runs and no kill is pending afterwards, and the end of the interrupt was signalled.
pub control_c-tick :
    (s : Control) (es : List Event)
    → s.current_process ≢ 0
    → HasNoTick es
    → (history es (react control_c s)).current_process ≢ 0
    → let t = history es (react control_c s) in
      let u = react tick t in
      (u.current_process ≡ 0)
      × (u.kill_pending ≡ false)
      × (u.exit_codes t.current_process ≡ 1)
      × (u.pic ≡ send_eoi 0 t.pic)
unfolding react process_is_running process_signal_kill process_check_kill process_exit
control_c-tick s es running quiet there =
    let start = react control_c s in
    let t = history es start in
    let asked : start.kill_pending ≡ true = ground (arith, running) in
    let waiting = history-pending es start quiet asked in
    let present : (t.current_process == 0) ≡ false = ground (arith, there) in
    rw (react, process_check_kill, waiting, present) (refl, refl, ground arith, refl)

-- A kill that is asked for while one process runs, and that the process escapes by its own exit before
-- the next tick, stays pending: the process that runs next is ended at its first tick, with exit code
-- 1, and the first one keeps its own exit code.
pub kill_hits_next :
    (s : Control) (code q kstack_top : ℕ)
    → s.current_process ≢ 0
    → q ≢ 0
    → q ≢ s.current_process
    → let u = history (control_c ∷ exits code ∷ runs q kstack_top ∷ tick ∷ []) s in
      (u.current_process ≡ 0) × (u.exit_codes q ≡ 1) × (u.exit_codes s.current_process ≡ code)
unfolding history react process_is_running process_signal_kill process_check_kill process_exit
    process_run
kill_hits_next s code q kstack_top running next other =
    let here : (s.current_process == 0) ≡ false = ground (arith, running) in
    let there : (q == 0) ≡ false = ground (arith, next) in
    (ground (arith, here, there), ground (arith, here, there), ground (arith, here, there, other))
