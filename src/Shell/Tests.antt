-- ===== src/Shell/Tests.antt =====
-- A system with a directory "/", a file "/f" and a directory "/d".
use yotos.Base.{
  ℕ, ◌+◌, ◌≡◌, refl, ap, none, some, List, [], ◌∷◌, ◌++◌, arith, ◌==◌, if◌then◌else◌, length, take,
  drop,
}
use yotos.Klibc.{strlen, strlcpy}
use yotos.Shell.Paths.{path_resolve, path_parent_and_name, resolve_relative}
use yotos.Shell.Paths.Resolve.{absolute, path_resolve-take}
use yotos.Shell.Paths.Parent.{path_parent_and_name-path_resolve}
use yotos.Shell.Builtins.{System, Shown}
use yotos.Shell.Builtins.Listing.{cmd_cat}
use yotos.Shell.Builtins.Listing.Content.{IsReadable, Prints, cmd_cat-Prints}
use yotos.Shell.Builtins.Cd.{cmd_cd}
use yotos.Shell.Builtins.Cd.Current.{LeavesCurrent, execute_line-LeavesCurrent}
use yotos.Shell.Builtins.Cd.RoundTrip.{cmd_cd-cmd_cd}
use yotos.Shell.Builtins.Echo.{cmd_echo}
use yotos.Shell.Builtins.Echo.Redirect.{redirected, cmd_echo-writes}
use yotos.Shell.Builtins.Table.{execute_line}
use yotos.Shell.Builtins.Handles.{watched}
use yotos.Shell.Builtins.Handles.Table.{IsBalanced, execute_line-IsBalanced}

record Toy : Type 0 where
  pub shown : List Shown
  pub file : List ℕ

abbrev node_of : List ℕ → ℕ
node_of (a ∷ []) = 1
node_of (a ∷ b ∷ []) = if b == b'f' then 2 else 3
node_of _ = 0

abbrev toy : System Toy
toy = record {
  show = λ x s. record s { shown = s.shown ++ (x ∷ []) };
  free_blocks = λ s. 5;
  used_blocks = λ s. 3;
  max_blocks = λ s. 8;
  vfs_open = λ path s. (node_of path, s);
  flags = λ n s. (if n == 2 then 1 else 2, s);
  vfs_close = λ n s. s;
  vfs_readdir = λ dir i s. (none, s);
  vfs_read = λ file offset size s. (some (take size (drop offset s.file)), s);
  vfs_write = λ file offset buf s. (
    some (length buf),
    record s { file = take offset s.file ++ (buf ++ drop (offset + length buf) s.file) },
  );
  vfs_create = λ dir name flags s. (4, s);
  process_create = λ file s. (6, s);
  process_run = λ n s. s;
  exit_code = λ n s. (0, s);
  process_free = λ n s. s;
  keyboard_flush = λ s. s;
}

abbrev start : Toy
start = record { shown = []; file = b'h' ∷ b'i' ∷ [] }

readable : IsReadable toy 2 (b'h' ∷ b'i' ∷ []) (λ s. s.file ≡ b'h' ∷ b'i' ∷ []) (λ s. s.shown)
readable = record {
  reads = λ offset size s g. ap (λ r. some (take size (drop offset r))) g;
  read_good = λ offset size s g. g;
  read_silent = λ offset size s. refl;
  show_good = λ x s g. g;
  shows = λ x s. refl;
  close_silent = λ s. refl;
}

path_parent_and_name-path_resolve_example :
    path_parent_and_name (path_resolve (b'/' ∷ b'd' ∷ []) (b'n' ∷ b'e' ∷ b'w' ∷ []) 256) 256 128
    ≡ ((b'/' ∷ b'd' ∷ []), (b'n' ∷ b'e' ∷ b'w' ∷ []))
path_parent_and_name-path_resolve_example =
    path_parent_and_name-path_resolve (b'/' ∷ b'd' ∷ []) (b'n' ∷ b'e' ∷ b'w' ∷ []) refl
      (ground arith) (omega arith) (omega arith) (omega arith)

path_resolve-take_example :
    path_resolve (b'/' ∷ b'd' ∷ []) (b'f' ∷ []) 3 ≡ take 2 (absolute (b'/' ∷ b'd' ∷ []) (b'f' ∷ []))
path_resolve-take_example = path_resolve-take (b'/' ∷ b'd' ∷ []) (b'f' ∷ []) 3 (omega arith)

cmd_cat-Prints_example :
    Prints toy 2
      (b'h' ∷ b'i' ∷ [])
      (λ s. s.file ≡ (b'h' ∷ b'i' ∷ []))
      (λ s. s.shown)
      readable
      (cmd_cat toy 3 (b'/' ∷ []) (b'f' ∷ []) start)
      start
      (b'h' ∷ b'i' ∷ 10 ∷ [])
unfolding path_resolve resolve_relative strlen strlcpy
cmd_cat-Prints_example =
    cmd_cat-Prints toy 2 (b'h' ∷ b'i' ∷ []) (λ s. s.file ≡ (b'h' ∷ b'i' ∷ [])) (λ s. s.shown)
      readable 3 (b'/' ∷ []) (b'f' ∷ []) start start start 1 (omega arith) refl (omega arith) refl
      refl refl (omega arith) (omega arith)

cmd_cd-cmd_cd_example :
    (cmd_cd toy (b'/' ∷ []) (b'd' ∷ []) start ≡ ((b'/' ∷ b'd' ∷ []), start))
    × (cmd_cd toy (b'/' ∷ b'd' ∷ []) (b'.' ∷ b'.' ∷ []) start ≡ ((b'/' ∷ []), start))
cmd_cd-cmd_cd_example =
    cmd_cd-cmd_cd toy [] (b'd' ∷ []) start start start start 3 2 tt (ground arith) (omega arith)
      (omega arith) (ground arith) (omega arith) refl (omega arith) refl refl

cmd_echo-writes_example :
    cmd_echo toy (b'/' ∷ []) (redirected (b'n' ∷ b'o' ∷ []) 1 2 (b'f' ∷ [])) start
    ≡ record { shown = []; file = b'n' ∷ b'o' ∷ 10 ∷ [] }
unfolding path_resolve resolve_relative strlen strlcpy
cmd_echo-writes_example =
    cmd_echo-writes toy (b'/' ∷ []) (b'n' ∷ b'o' ∷ []) (b'f' ∷ []) 1 2 start start start 2 1
      (record { plain = ground arith; stripped = ground arith }) (ground arith) (omega arith)
      (omega arith) refl (omega arith) refl refl

execute_line-LeavesCurrent_example :
    LeavesCurrent (execute_line toy 5 (b'/' ∷ []) (b'c' ∷ b'd' ∷ b' ' ∷ b'd' ∷ []) start)
execute_line-LeavesCurrent_example =
    execute_line-LeavesCurrent toy 5 (b'/' ∷ []) (b'c' ∷ b'd' ∷ b' ' ∷ b'd' ∷ []) start
      (record { from_root = refl; fits = omega arith })

execute_line-IsBalanced_example :
    IsBalanced
      (λ t. t.1)
      (execute_line
        (watched toy)
        5
        (b'/' ∷ [])
        (b'e' ∷ b'x' ∷ b'e' ∷ b'c' ∷ b' ' ∷ b'f' ∷ [])
        (start, some []))
      []
execute_line-IsBalanced_example =
    execute_line-IsBalanced toy 5 (b'/' ∷ []) (b'e' ∷ b'x' ∷ b'e' ∷ b'c' ∷ b' ' ∷ b'f' ∷ []) start
      []
