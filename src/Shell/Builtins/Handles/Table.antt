-- ===== src/Shell/Builtins/Handles/Table.antt =====
-- A line that the shell runs gives back what it opens.
use yotos.Base.{ℕ, ◌≡◌, refl, ◌∙◌, Option, none, some, List, map}
use mathlib.Core.Option.{map as map_option}
use yotos.Shell.{shell_execute, Action}
use yotos.Shell.Builtins.{System, cmd_help, cmd_clear, cmd_mem}
use yotos.Shell.Builtins.Table.{
  Command, command_at, commands, command_name, run_command, execute_line, perform,
}
use yotos.Handles.{Handle, Held}
use yotos.Shell.Builtins.Handles.{Accounts, after_print, watched, watched-Accounts}
use yotos.Shell.Builtins.Handles.Making.{cmd_touch-held, cmd_mkdir-held, cmd_cd-held, cmd_exec-held}
use yotos.Shell.Builtins.Handles.Listing.{IsKept, cmd_ls-held, cmd_cat-held}
use yotos.Shell.Builtins.Handles.Echo.{cmd_echo-held}

-- If there is a result, its state has the list open.
pub IsBalanced : {S : Type 0} → (S → Held) → Option (List ℕ × S) → List Handle → Type 0
IsBalanced held none l = Unit
IsBalanced held (some (path, s)) l = held s ≡ some l

module _ {S : Type 0} (sys : System S) (held : S → Held) (laws : Accounts sys held) where
  kept-IsBalanced :
      (path : List ℕ) (o : Option S) (l : List Handle)
      → IsKept held o l
      → IsBalanced held (map_option (λ t. (path, t)) o) l
  unfolding IsKept IsBalanced
  kept-IsBalanced path none l h = tt
  kept-IsBalanced path (some s) l h = h

  cmd_mem-held : (s : S) {h : Held} → held s ≡ h → held (cmd_mem sys s) ≡ h
  unfolding cmd_mem
  cmd_mem-held s e =
      after_print sys held laws _ _
        (after_print sys held laws _ _ (after_print sys held laws _ _ e))

  run_command-IsBalanced :
      (fuel : ℕ) (c : Command) (path arg : List ℕ) (s : S) (l : List Handle)
      → held s ≡ some l
      → IsBalanced held (run_command sys fuel c path arg s) l
  unfolding run_command IsBalanced cmd_help cmd_clear
  run_command-IsBalanced fuel Command.help path arg s l h = after_print sys held laws _ _ h
  run_command-IsBalanced fuel Command.clear path arg s l h = laws.shows _ s ∙ h
  run_command-IsBalanced fuel Command.mem path arg s l h = cmd_mem-held s h
  run_command-IsBalanced fuel Command.ls path arg s l h =
      kept-IsBalanced path _ l (cmd_ls-held sys held laws fuel path arg l h)
  run_command-IsBalanced fuel Command.cat path arg s l h =
      kept-IsBalanced path _ l (cmd_cat-held sys held laws fuel path arg l h)
  run_command-IsBalanced fuel Command.cd path arg s l h = cmd_cd-held sys held laws path arg l h
  run_command-IsBalanced fuel Command.touch path arg s l h =
      cmd_touch-held sys held laws path arg l h
  run_command-IsBalanced fuel Command.mkdir path arg s l h =
      cmd_mkdir-held sys held laws path arg l h
  run_command-IsBalanced fuel Command.echo path arg s l h = cmd_echo-held sys held laws path arg l h
  run_command-IsBalanced fuel Command.exec path arg s l h = cmd_exec-held sys held laws path arg l h

  perform-IsBalanced :
      (fuel : ℕ) (a : Action) (path : List ℕ) (s : S) (l : List Handle)
      → held s ≡ some l
      → IsBalanced held (perform sys fuel a path s) l
  unfolding perform IsBalanced
  perform-IsBalanced fuel (Action.run n arg) path s l h =
      elim (command_at n commands)
        as (λ o.
          IsBalanced held (elim o [ none ↦ none | some c ↦ run_command sys fuel c path arg s ]) l) [
            | none ↦ tt
            | some c ↦ run_command-IsBalanced fuel c path arg s l h
          ]
  perform-IsBalanced fuel (Action.unknown cmd) path s l h = after_print sys held laws _ _ h
  perform-IsBalanced fuel Action.nothing path s l h = h

-- Whatever line the shell runs, if it ends: a node or a process that it opened was given back once,
-- and none was passed to a call, had its flags or its exit code read or was given back while it was
-- not open, so that what is open is what was open before.
pub execute_line-IsBalanced :
    {S : Type 0} (sys : System S) (fuel : ℕ) (path input : List ℕ) (s : S) (l : List Handle)
    → IsBalanced (λ t. t.1) (execute_line (watched sys) fuel path input (s, some l)) l
unfolding execute_line
execute_line-IsBalanced sys fuel path input s l =
    perform-IsBalanced (watched sys) (λ t. t.1) (watched-Accounts sys) fuel
      (shell_execute (map command_name commands) input) path (s, some l) l refl
