-- ===== src/Shell.antt =====
-- shell/shell.c: the line that is being typed, and how a line becomes a command and its argument.
-- A C string is the list of its bytes.
pub mod Paths
pub mod Builtins
mod Tests
use yotos.Base.{
  ℕ, zero, suc, ◌+◌, ◌-◌, ◌≤◌, ◌<◌, ◌≡◌, Bool, true, false, Option, none, some, List, [], ◌∷◌,
  arith, ltb, ◌==◌, if◌then◌else◌, update,
}
use yotos.Base.Int.{pos}
use yotos.Klibc.{strcmp}

abbrev pub input_size : ℕ
input_size = 256

-- The buffer and the index of `shell_run`.
pub record Line : Type 0 where
  pub input : ℕ → ℕ
  pub i : ℕ

-- What `shell_run` does to its line for a character other than a newline.
edit : ℕ → Line → Line
edit c s =
    if c == 8
    then if ltb 0 s.i then record s { i = s.i - 1 } else s
    else if ltb s.i (input_size - 1)
    then record { input = update s.input s.i c; i = s.i + 1 }
    else s

-- A newline ends the string in the buffer and starts the line again; the line is executed between.
end_line : Line → Line
end_line s = record { input = update s.input s.i 0; i = 0 }

-- `while (*arg == ' ') arg++;`
unfoldable pub skip_spaces : List ℕ → List ℕ
skip_spaces [] = []
skip_spaces (c ∷ s) = let rest = skip_spaces s in if c == b' ' then rest else c ∷ s

-- The command name up to the first space, and the argument.
unfoldable pub split_line : List ℕ → List ℕ × List ℕ
unfolding skip_spaces
split_line [] = ([], [])
split_line (c ∷ s) =
    let rest = split_line s in if c == b' ' then ([], skip_spaces s) else (c ∷ rest.0, rest.1)

-- What a line comes to: the index of a command with its argument, an unknown name, or nothing.
pub data Action : Type 0 where
  run : ℕ → List ℕ → Action
  unknown : List ℕ → Action
  nothing : Action

abbrev pub same_string : List ℕ → List ℕ → Bool
same_string s t = elim (strcmp s t) [ pos zero ↦ true | _ ↦ false ]

-- The loop over the table of commands, from the index `n` on.
unfoldable pub find_command : ℕ → List (List ℕ) → List ℕ → Option ℕ
find_command n [] cmd = none
find_command n (name ∷ names) cmd =
    let rest = find_command (suc n) names cmd in if same_string cmd name then some n else rest

-- `names` are the names of the table `commands`.
unfoldable pub shell_execute : List (List ℕ) → List ℕ → Action
unfolding split_line find_command
shell_execute names input =
    let (cmd, arg) = split_line input in
    elim (find_command 0 names cmd) [
      | some n ↦ Action.run n arg
      | none ↦ if same_string cmd [] then Action.nothing else Action.unknown cmd
    ]

-- However many characters are typed, the index stays inside the buffer, with room for the final
-- zero, and the memory behind the buffer is not written.
edit-bounds :
    (c : ℕ) (s : Line)
    → s.i < input_size
    → ((edit c s).i < input_size)
      × ((j : ℕ) → input_size ≤ j → (end_line (edit c s)).input j ≡ s.input j)
unfolding edit end_line
edit-bounds c s h = (ground arith, λ j k. ground arith)
