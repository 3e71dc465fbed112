-- ===== src/Shell/Builtins/Cd.antt =====
-- shell/builtins.c: the command cd.
pub mod Current
pub mod RoundTrip
use yotos.Base.{ℕ, not, ◌&&◌, ◌||◌, List, [], ◌∷◌, ◌==◌, if◌then◌else◌, length, get_or, take}
use yotos.Klibc.{string, strlcpy}
use yotos.Vfs.{vfs_dir}
use yotos.Shell.Builtins.{System, has, print}
use yotos.Shell.Paths.{is_empty, path_resolve, last_slash}
use yotos.Shell.{same_string}

-- `cd ..` on a path: what is left when it ends at its last '/'.
unfoldable pub go_up : List ℕ → List ℕ
go_up current_path =
    let last = last_slash 0 0 current_path in
    if length current_path == 1 && get_or current_path 0 0 == b'/'
    then current_path
    else if last == 0
    then take 1 current_path
    else take last current_path

module _ {S : Type 0} (sys : System S) where
  unfoldable pub enter : (current_path arg : List ℕ) → S → List ℕ × S
  enter current_path arg s =
      let resolved = path_resolve current_path arg 256 in
      let (node, s1) = sys.vfs_open resolved s in
      let (flags, s2) = sys.flags node s1 in
      if node == 0
      then (
        current_path,
        print sys
            (b'c' ∷ b'd' ∷ b':' ∷ b' ' ∷ b'%' ∷ b's' ∷ b':' ∷ b' ' ∷ b'n' ∷ b'o' ∷ b't' ∷ b' '
              ∷ b'f' ∷ b'o' ∷ b'u' ∷ b'n' ∷ b'd' ∷ 10 ∷ [])
            (string resolved ∷ []) s1,
      )
      else if not (has vfs_dir flags)
      then (
        current_path,
        sys.vfs_close node (
            print sys
              (b'c' ∷ b'd' ∷ b':' ∷ b' ' ∷ b'%' ∷ b's' ∷ b':' ∷ b' ' ∷ b'n' ∷ b'o' ∷ b't' ∷ b' '
                ∷ b'a' ∷ b' ' ∷ b'd' ∷ b'i' ∷ b'r' ∷ b'e' ∷ b'c' ∷ b't' ∷ b'o' ∷ b'r' ∷ b'y' ∷ 10
                ∷ [])
              (string resolved ∷ []) s2),
      )
      else ((strlcpy current_path resolved 256).0, sys.vfs_close node s2)

  -- The current path that `cd` leaves, in its buffer of 256 bytes.
  unfoldable pub cmd_cd : (current_path arg : List ℕ) → S → List ℕ × S
  cmd_cd current_path arg s =
      if is_empty arg || same_string arg (b'/' ∷ [])
      then ((strlcpy current_path (b'/' ∷ []) 256).0, s)
      else if same_string arg (b'.' ∷ b'.' ∷ [])
      then (go_up current_path, s)
      else enter current_path arg s
