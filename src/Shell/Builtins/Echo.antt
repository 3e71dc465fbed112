-- ===== src/Shell/Builtins/Echo.antt =====
-- shell/builtins.c: the command echo.
pub mod Redirect
use yotos.Base.{
  ℕ, zero, suc, not, Option, none, some, List, [], ◌∷◌, ◌==◌, if◌then◌else◌, get_or, take, u32,
}
use yotos.Klibc.{string, strlen}
use yotos.Vfs.{vfs_file}
use yotos.Shell.Builtins.{System, has, print}
use yotos.Shell.Paths.{is_empty, path_resolve, path_parent_and_name}
use yotos.Shell.{skip_spaces}
use mathlib.Core.Option.{map as map_option}

-- The first '>' of an argument: what stands before it, and behind it.
unfoldable pub split_at_gt : List ℕ → Option (List ℕ × List ℕ)
split_at_gt [] = none
split_at_gt (c ∷ s) =
    let rest = split_at_gt s in
    if c == b'>' then some ([], s) else map_option (λ p. (c ∷ p.0, p.1)) rest

-- `while (end >= 0 && arg[end] == ' ') arg[end--] = '\0';`, with `n` for end + 1.
unfoldable pub strip_loop : (n : ℕ) → List ℕ → List ℕ
strip_loop zero s = []
strip_loop (suc n) s =
    let rest = strip_loop n s in if get_or s n 0 == b' ' then rest else take (suc n) s

module _ {S : Type 0} (sys : System S) where
  -- The file that `echo` writes to, opened or made; 0 once a message says why there is none.
  unfoldable pub echo_make : (filename resolved : List ℕ) → S → ℕ × S
  echo_make filename resolved s =
      let (parent, base) = path_parent_and_name resolved 256 128 in
      let (dir, s1) = sys.vfs_open parent s in
      let (file, s2) = sys.vfs_create dir base vfs_file s1 in
      let s3 = sys.vfs_close dir s2 in
      if dir == 0
      then (
        0,
        print sys
            (b'e' ∷ b'c' ∷ b'h' ∷ b'o' ∷ b':' ∷ b' ' ∷ b'%' ∷ b's' ∷ b':' ∷ b' ' ∷ b'n' ∷ b'o'
              ∷ b't' ∷ b' ' ∷ b'f' ∷ b'o' ∷ b'u' ∷ b'n' ∷ b'd' ∷ 10 ∷ [])
            (string parent ∷ []) s1,
      )
      else if file == 0
      then (
        0,
        print sys
            (b'e' ∷ b'c' ∷ b'h' ∷ b'o' ∷ b':' ∷ b' ' ∷ b'f' ∷ b'a' ∷ b'i' ∷ b'l' ∷ b'e' ∷ b'd'
              ∷ b' ' ∷ b't' ∷ b'o' ∷ b' ' ∷ b'c' ∷ b'r' ∷ b'e' ∷ b'a' ∷ b't' ∷ b'e' ∷ b' ' ∷ b'%'
              ∷ b's' ∷ 10 ∷ [])
            (string filename ∷ []) s3,
      )
      else (file, s3)

  unfoldable pub echo_open : (current_path filename : List ℕ) → S → ℕ × S
  echo_open current_path filename s =
      let resolved = path_resolve current_path filename 256 in
      let (file, s1) = sys.vfs_open resolved s in
      let made = echo_make filename resolved s1 in if file == 0 then made else (file, s1)

  unfoldable pub echo_to : (current_path content filename : List ℕ) → S → S
  echo_to current_path content filename s =
      let (file, s1) = echo_open current_path filename s in
      let (flags, s2) = sys.flags file s1 in
      if is_empty filename
      then print sys
          (b'e' ∷ b'c' ∷ b'h' ∷ b'o' ∷ b':' ∷ b' ' ∷ b'm' ∷ b'i' ∷ b's' ∷ b's' ∷ b'i' ∷ b'n' ∷ b'g'
            ∷ b' ' ∷ b'f' ∷ b'i' ∷ b'l' ∷ b'e' ∷ b'n' ∷ b'a' ∷ b'm' ∷ b'e' ∷ b' ' ∷ b'a' ∷ b'f'
            ∷ b't' ∷ b'e' ∷ b'r' ∷ b' ' ∷ b'>' ∷ 10 ∷ [])
          [] s
      else if file == 0
      then s1
      else if not (has vfs_file flags)
      then sys.vfs_close file (
          print sys
            (b'e' ∷ b'c' ∷ b'h' ∷ b'o' ∷ b':' ∷ b' ' ∷ b'%' ∷ b's' ∷ b':' ∷ b' ' ∷ b'i' ∷ b's'
              ∷ b' ' ∷ b'a' ∷ b' ' ∷ b'd' ∷ b'i' ∷ b'r' ∷ b'e' ∷ b'c' ∷ b't' ∷ b'o' ∷ b'r' ∷ b'y'
              ∷ 10 ∷ [])
            (string filename ∷ []) s2)
      else let (_, s3) = sys.vfs_write file 0 content s2 in
        let (_, s4) = sys.vfs_write file (u32 (strlen content)) (10 ∷ []) s3 in
        sys.vfs_close file s4

  unfoldable pub cmd_echo : (current_path arg : List ℕ) → S → S
  cmd_echo current_path arg s =
      let whole : S = elim (split_at_gt arg) [
        | none ↦ print sys (b'%' ∷ b's' ∷ 10 ∷ []) (string arg ∷ []) s
        | some (content, behind) ↦
            echo_to current_path (strip_loop (strlen content) content) (skip_spaces behind) s
      ] in
      if is_empty arg then print sys (10 ∷ []) [] s else whole
