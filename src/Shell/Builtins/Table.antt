-- ===== src/Shell/Builtins/Table.antt =====
-- shell/builtins.c: the table of commands; shell/shell.c: a line that is run.
use yotos.Base.{ℕ, zero, suc, Option, none, some, List, [], ◌∷◌, map}
use yotos.Klibc.{string}
use yotos.Shell.Builtins.{System, print, cmd_help, cmd_clear, cmd_mem}
use yotos.Shell.{shell_execute, Action}
use mathlib.Core.Option.{map as map_option}
use yotos.Shell.Builtins.Listing.{cmd_ls, cmd_cat}
use yotos.Shell.Builtins.Cd.{cmd_cd}
use yotos.Shell.Builtins.Make.{cmd_touch, cmd_mkdir}
use yotos.Shell.Builtins.Echo.{cmd_echo}
use yotos.Shell.Builtins.Exec.{cmd_exec}

-- The entries of the table `commands`.
pub data Command : Type 0 where
  help clear mem ls cat cd touch mkdir echo exec : Command

abbrev pub commands : List Command
commands = help ∷ clear ∷ mem ∷ ls ∷ cat ∷ cd ∷ touch ∷ mkdir ∷ echo ∷ exec ∷ []

abbrev pub command_name : Command → List ℕ
command_name help = b'h' ∷ b'e' ∷ b'l' ∷ b'p' ∷ []
command_name clear = b'c' ∷ b'l' ∷ b'e' ∷ b'a' ∷ b'r' ∷ []
command_name mem = b'm' ∷ b'e' ∷ b'm' ∷ []
command_name ls = b'l' ∷ b's' ∷ []
command_name cat = b'c' ∷ b'a' ∷ b't' ∷ []
command_name cd = b'c' ∷ b'd' ∷ []
command_name touch = b't' ∷ b'o' ∷ b'u' ∷ b'c' ∷ b'h' ∷ []
command_name mkdir = b'm' ∷ b'k' ∷ b'd' ∷ b'i' ∷ b'r' ∷ []
command_name echo = b'e' ∷ b'c' ∷ b'h' ∷ b'o' ∷ []
command_name exec = b'e' ∷ b'x' ∷ b'e' ∷ b'c' ∷ []

abbrev pub command_at : ℕ → List Command → Option Command
command_at n [] = none
command_at zero (c ∷ cs) = some c
command_at (suc n) (c ∷ cs) = command_at n cs

module _ {S : Type 0} (sys : System S) where
  -- The entry `n` of the table `commands`, called with an argument: the current path and the state
  -- that it leaves.
  unfoldable pub run_command :
      (fuel : ℕ) → Command → (current_path arg : List ℕ) → S → Option (List ℕ × S)
  run_command fuel help current_path arg s = some (current_path, cmd_help sys s)
  run_command fuel clear current_path arg s = some (current_path, cmd_clear sys s)
  run_command fuel mem current_path arg s = some (current_path, cmd_mem sys s)
  run_command fuel ls current_path arg s =
      map_option (λ t. (current_path, t)) (cmd_ls sys fuel current_path arg s)
  run_command fuel cat current_path arg s =
      map_option (λ t. (current_path, t)) (cmd_cat sys fuel current_path arg s)
  run_command fuel cd current_path arg s = some (cmd_cd sys current_path arg s)
  run_command fuel touch current_path arg s = some (current_path, cmd_touch sys current_path arg s)
  run_command fuel mkdir current_path arg s = some (current_path, cmd_mkdir sys current_path arg s)
  run_command fuel echo current_path arg s = some (current_path, cmd_echo sys current_path arg s)
  run_command fuel exec current_path arg s = some (current_path, cmd_exec sys current_path arg s)

  -- What a line comes to, done; the table has an entry at every index that the search gives.
  unfoldable pub perform : (fuel : ℕ) → Action → (current_path : List ℕ) → S → Option (List ℕ × S)
  perform fuel (Action.run n arg) current_path s = elim (command_at n commands) [
    | none ↦ none
    | some c ↦ run_command fuel c current_path arg s
  ]
  perform fuel (Action.unknown cmd) current_path s = some (
    current_path,
    print sys
        (b'u' ∷ b'n' ∷ b'k' ∷ b'n' ∷ b'o' ∷ b'w' ∷ b'n' ∷ b' ' ∷ b'c' ∷ b'o' ∷ b'm' ∷ b'm' ∷ b'a'
          ∷ b'n' ∷ b'd' ∷ b':' ∷ b' ' ∷ b'%' ∷ b's' ∷ 10 ∷ [])
        (string cmd ∷ []) s,
  )
  perform fuel Action.nothing current_path s = some (current_path, s)

  -- A line of input, split, looked up and run.
  unfoldable pub execute_line : (fuel : ℕ) (current_path input : List ℕ) → S → Option (List ℕ × S)
  execute_line fuel current_path input s =
      perform fuel (shell_execute (map command_name commands) input) current_path s
