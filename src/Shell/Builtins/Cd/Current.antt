-- ===== src/Shell/Builtins/Cd/Current.antt =====
-- The path of the current directory, over all commands.
use yotos.Base.{
  ℕ, zero, suc, ◌+◌, ◌≤◌, ◌<◌, ◌≡◌, refl, ap, ◌∙◌, inl, inr, ◌&&◌, ◌||◌, Option, none, some, List,
  [], ◌∷◌, map, arith, ◌==◌, if◌then◌else◌, Bool-cases, length, get_or, take, length-take,
}
use mathlib.Core.Option.{map as map_option}
use yotos.Klibc.{strlcpy}
use yotos.Klibc.Strings.{strlcpy_lem}
use yotos.Vfs.{vfs_dir}
use yotos.Shell.{shell_execute, Action, same_string}
use yotos.Shell.Paths.{is_empty, path_resolve, last_slash}
use yotos.Shell.Paths.Resolve.{absolute, path_resolve-take}
use yotos.Shell.Builtins.{System, has}
use yotos.Shell.Builtins.Cd.{go_up, enter, cmd_cd}
use yotos.Shell.Builtins.Table.{
  Command, command_at, commands, command_name, run_command, perform, execute_line,
}

-- An absolute path that fits into its buffer of 256 bytes.
pub record IsCurrent (path : List ℕ) : Type 0 where
  pub from_root : get_or path 0 0 ≡ b'/'
  pub fits : length path < 256

cut-IsCurrent :
    (n : ℕ) (path : List ℕ) → 0 < n → n < 256 → get_or path 0 0 ≡ b'/' → IsCurrent (take n path)
cut-IsCurrent zero path h k e = absurd (omega (arith, h))
cut-IsCurrent (suc n) [] h k e = record { from_root = e; fits = omega arith }
cut-IsCurrent (suc n) (c ∷ path) h k e = record {
  from_root = e;
  fits = omega (arith, k, length-take n path);
}

absolute_from_root :
    (path arg : List ℕ) → get_or path 0 0 ≡ b'/' → get_or (absolute path arg) 0 0 ≡ b'/'
absolute_from_root path [] e = e
absolute_from_root [] (c ∷ arg) e = absurd (ground (arith, e))
absolute_from_root (b ∷ path) (c ∷ arg) e = ground (arith, e)

last_slash-bound :
    (i last : ℕ) (s : List ℕ) → last ≤ i + length s → last_slash i last s ≤ i + length s
unfolding last_slash
last_slash-bound i last [] h = h
last_slash-bound i last (c ∷ s) h =
    omega (arith, last_slash-bound (suc i) (if c == b'/' then i else last) s (ground (arith, h)))

go_up-IsCurrent : (path : List ℕ) → IsCurrent path → IsCurrent (go_up path)
unfolding go_up
go_up-IsCurrent path h =
    let last = last_slash 0 0 path in
    elim (Bool-cases (length path == 1 && get_or path 0 0 == b'/')) [
      | inl e ↦ rw e h
      | inr e ↦ rw e (elim (Bool-cases (last == 0)) [
        | inl k ↦ rw k (cut-IsCurrent 1 path (omega arith) (omega arith) h.from_root)
        | inr k ↦ rw k (
            cut-IsCurrent last path (ground (arith, k))
              (omega (arith, h.fits, last_slash-bound 0 0 path (omega arith))) h.from_root)
      ])
    ]

resolved_from_root :
    (path arg : List ℕ) → IsCurrent path → get_or (path_resolve path arg 256) 0 0 ≡ b'/'
resolved_from_root path arg h =
    let whole = absolute path arg in
    let cut =
      cut-IsCurrent 255 whole (omega arith) (omega arith)
        (absolute_from_root path arg h.from_root) in
    ap (λ p. get_or p 0 0) (path_resolve-take path arg 256 (omega arith)) ∙ cut.from_root

-- What `strlcpy` into the buffer of the current path leaves.
copied-IsCurrent : (dst path : List ℕ) → get_or path 0 0 ≡ b'/' → IsCurrent (strlcpy dst path 256).0
copied-IsCurrent dst path e =
    rw ((strlcpy_lem dst path 256 (omega arith)).0)
      (cut-IsCurrent 255 path (omega arith) (omega arith) e)

module _ {S : Type 0} (sys : System S) where
  enter-IsCurrent :
      (path arg : List ℕ) (s : S) → IsCurrent path → IsCurrent (enter sys path arg s).0
  unfolding enter
  enter-IsCurrent path arg s h =
      let resolved = path_resolve path arg 256 in
      let node = (sys.vfs_open resolved s).0 in
      let is_dir = has vfs_dir (sys.flags node (sys.vfs_open resolved s).1).0 in
      elim (Bool-cases (node == 0)) [
        | inl null ↦ rw null h
        | inr there ↦ rw there (elim (Bool-cases is_dir) [
          | inl e ↦ rw e (copied-IsCurrent path resolved (resolved_from_root path arg h))
          | inr e ↦ rw e h
        ])
      ]

  cmd_cd-IsCurrent :
      (path arg : List ℕ) (s : S) → IsCurrent path → IsCurrent (cmd_cd sys path arg s).0
  unfolding cmd_cd
  cmd_cd-IsCurrent path arg s h = elim (Bool-cases (is_empty arg || same_string arg (b'/' ∷ []))) [
    | inl e ↦ rw e (copied-IsCurrent path (b'/' ∷ []) refl)
    | inr e ↦ rw e (elim (Bool-cases (same_string arg (b'.' ∷ b'.' ∷ []))) [
      | inl e ↦ rw e (go_up-IsCurrent path h)
      | inr e ↦ rw e (enter-IsCurrent path arg s h)
    ])
  ]

-- A path that a line leaves, if it ends, is one that the shell can stand in.
pub LeavesCurrent : {S : Type 0} → Option (List ℕ × S) → Type 0
LeavesCurrent none = Unit
LeavesCurrent (some (path, s)) = IsCurrent path

kept_path :
    {S : Type 0} (path : List ℕ) (o : Option S)
    → IsCurrent path
    → LeavesCurrent (map_option (λ t. (path, t)) o)
unfolding LeavesCurrent
kept_path path none h = tt
kept_path path (some s) h = h

module _ {S : Type 0} (sys : System S) where
  run_command-LeavesCurrent :
      (fuel : ℕ) (c : Command) (path arg : List ℕ) (s : S)
      → IsCurrent path
      → LeavesCurrent (run_command sys fuel c path arg s)
  unfolding run_command LeavesCurrent
  run_command-LeavesCurrent fuel Command.cd path arg s h = cmd_cd-IsCurrent sys path arg s h
  run_command-LeavesCurrent fuel Command.ls path arg s h = kept_path path _ h
  run_command-LeavesCurrent fuel Command.cat path arg s h = kept_path path _ h
  run_command-LeavesCurrent fuel Command.help path arg s h = h
  run_command-LeavesCurrent fuel Command.clear path arg s h = h
  run_command-LeavesCurrent fuel Command.mem path arg s h = h
  run_command-LeavesCurrent fuel Command.touch path arg s h = h
  run_command-LeavesCurrent fuel Command.mkdir path arg s h = h
  run_command-LeavesCurrent fuel Command.echo path arg s h = h
  run_command-LeavesCurrent fuel Command.exec path arg s h = h

  perform-LeavesCurrent :
      (fuel : ℕ) (a : Action) (path : List ℕ) (s : S)
      → IsCurrent path
      → LeavesCurrent (perform sys fuel a path s)
  unfolding perform LeavesCurrent
  perform-LeavesCurrent fuel (Action.run n arg) path s h =
      elim (command_at n commands)
        as (λ o.
          LeavesCurrent (elim o [ none ↦ none | some c ↦ run_command sys fuel c path arg s ])) [
            | none ↦ tt
            | some c ↦ run_command-LeavesCurrent fuel c path arg s h
          ]
  perform-LeavesCurrent fuel (Action.unknown cmd) path s h = h
  perform-LeavesCurrent fuel Action.nothing path s h = h

  -- Whatever line the shell runs in an absolute path that is shorter than 256 bytes, if it ends, the
  -- current path that it leaves is again absolute and shorter than 256 bytes.
  pub execute_line-LeavesCurrent :
      (fuel : ℕ) (path input : List ℕ) (s : S)
      → IsCurrent path
      → LeavesCurrent (execute_line sys fuel path input s)
  unfolding execute_line
  execute_line-LeavesCurrent fuel path input s h =
      perform-LeavesCurrent fuel (shell_execute (map command_name commands) input) path s h
