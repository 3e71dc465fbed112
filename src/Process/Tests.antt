-- ===== src/Process/Tests.antt =====
-- A machine with sixteen free frames and an executable with one segment; two processes and a Ctrl+C.
use yotos.Base.{
  ℕ, ◌≡◌, refl, true, false, Option, none, some, List, [], ◌∷◌, arith, ◌==◌, if◌then◌else◌, take,
  drop,
}
use yotos.Kernel.Irq.{send_eoi}
use yotos.Kheap.Tests.{start, fresh}
use yotos.Pmm.Tests.{booted}
use yotos.Process.Elf.{File}
use yotos.Process.{Created, Control, process_create, process_is_running, process_signal_kill}
use yotos.Process.Kill.{Event, react, history, control_c-tick, kill_hits_next}
use yotos.Process.Pages.{FitsArray, process_create-FitsArray}
use yotos.Vmm.{Vmm}

-- A directory at address 0, whose last entry is itself.
abbrev machine : Vmm
machine = record {
  memory = λ w. if w == 1023 then 3 else 0;
  pmm = booted;
  cr3 = 0;
  paging = true;
  kernel_directory = 0;
}

-- The header, one program header, and the four bytes of a segment of eight bytes at 0x40000000.
abbrev image : List ℕ
image =
    127 ∷ 69 ∷ 76 ∷ 70 ∷ 1 ∷ 1 ∷ 1 ∷ 0 ∷ 0 ∷ 0 ∷ 0 ∷ 0 ∷ 0 ∷ 0 ∷ 0 ∷ 0 ∷ 2 ∷ 0 ∷ 3 ∷ 0 ∷ 1 ∷ 0 ∷ 0
    ∷ 0 ∷ 0 ∷ 0 ∷ 0 ∷ 64 ∷ 52 ∷ 0 ∷ 0 ∷ 0 ∷ 0 ∷ 0 ∷ 0 ∷ 0 ∷ 0 ∷ 0 ∷ 0 ∷ 0 ∷ 52 ∷ 0 ∷ 32 ∷ 0 ∷ 1 ∷ 0
    ∷ 0 ∷ 0 ∷ 0 ∷ 0 ∷ 0 ∷ 0 ∷ 1 ∷ 0 ∷ 0 ∷ 0 ∷ 84 ∷ 0 ∷ 0 ∷ 0 ∷ 0 ∷ 0 ∷ 0 ∷ 64 ∷ 0 ∷ 0 ∷ 0 ∷ 64 ∷ 4
    ∷ 0 ∷ 0 ∷ 0 ∷ 8 ∷ 0 ∷ 0 ∷ 0 ∷ 7 ∷ 0 ∷ 0 ∷ 0 ∷ 0 ∷ 16 ∷ 0 ∷ 0 ∷ 235 ∷ 254 ∷ 144 ∷ 144 ∷ []

abbrev executable : File
executable offset size = some (take size (drop offset image))

-- What is left of a result: the pages of the process, or none.
abbrev pages_of : Option Created → Option (List ℕ)
pages_of none = none
pages_of (some (none, s, m)) = none
pages_of (some (some (proc, p), s, m)) = some p.mapped_pages

-- The pages of the process that is made of it: that of the segment, and four of stack.
abbrev pages_created : Option (List ℕ)
pages_created = pages_of (process_create start executable machine fresh)

process_create-FitsArray_example : FitsArray (process_create start executable machine fresh)
process_create-FitsArray_example = process_create-FitsArray start executable machine fresh

abbrev running : Control
running = record {
  current_process = 5;
  kill_pending = false;
  exit_codes = λ _. 0;
  tss = record { esp0 = 0; ss0 = 0; cs = 0; ss = 0; ds = 0; es = 0; fs = 0; gs = 0 };
  pic = record { irq_handlers = λ _. 0; masks = λ _. 0; ports = [] };
}

still_running : (history (Event.control_c ∷ []) (react Event.control_c running)).current_process ≡ 5
unfolding history react process_is_running process_signal_kill
still_running = refl

control_c-tick_example :
    let t = history (Event.control_c ∷ []) (react Event.control_c running) in
    let u = react Event.tick t in
    (u.current_process ≡ 0)
    × (u.kill_pending ≡ false)
    × (u.exit_codes t.current_process ≡ 1)
    × (u.pic ≡ send_eoi 0 t.pic)
control_c-tick_example =
    control_c-tick running (Event.control_c ∷ []) (omega arith) (refl, tt)
      (λ e. absurd (omega (arith, e, still_running)))

kill_hits_next_example :
    let u =
      history (Event.control_c ∷ Event.exits 7 ∷ Event.runs 9 4096 ∷ Event.tick ∷ []) running in
    (u.current_process ≡ 0) × (u.exit_codes 9 ≡ 1) × (u.exit_codes 5 ≡ 7)
kill_hits_next_example = kill_hits_next running 7 9 4096 (omega arith) (omega arith) (omega arith)
