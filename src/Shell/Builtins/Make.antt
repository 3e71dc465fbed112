-- ===== src/Shell/Builtins/Make.antt =====
-- shell/builtins.c: the commands touch and mkdir.
use yotos.Base.{ℕ, not, List, [], ◌∷◌, ◌==◌, if◌then◌else◌}
use yotos.Klibc.{string}
use yotos.Vfs.{vfs_file, vfs_dir}
use yotos.Shell.Builtins.{System, has, print}
use yotos.Shell.Paths.{is_empty, path_resolve, path_parent_and_name}

module _ {S : Type 0} (sys : System S) where
  -- The part of `touch` that has the parent open: a node is made in it and closed again.
  unfoldable pub touch_in : (dir : ℕ) (base : List ℕ) → S → S
  touch_in dir base s =
      let (node, s1) = sys.vfs_create dir base vfs_file s in
      let s2 =
        if node == 0
        then print sys
            (b't' ∷ b'o' ∷ b'u' ∷ b'c' ∷ b'h' ∷ b':' ∷ b' ' ∷ b'f' ∷ b'a' ∷ b'i' ∷ b'l' ∷ b'e'
              ∷ b'd' ∷ b' ' ∷ b't' ∷ b'o' ∷ b' ' ∷ b'c' ∷ b'r' ∷ b'e' ∷ b'a' ∷ b't' ∷ b'e' ∷ b' '
              ∷ b'%' ∷ b's' ∷ 10 ∷ [])
            (string base ∷ []) s1
        else sys.vfs_close node s1 in
      sys.vfs_close dir s2

  unfoldable pub cmd_touch : (current_path arg : List ℕ) → S → S
  cmd_touch current_path arg s =
      let resolved = path_resolve current_path arg 256 in
      let (parent, base) = path_parent_and_name resolved 256 128 in
      let (dir, s1) = sys.vfs_open parent s in
      let (flags, s2) = sys.flags dir s1 in
      if is_empty arg
      then print sys
          (b't' ∷ b'o' ∷ b'u' ∷ b'c' ∷ b'h' ∷ b':' ∷ b' ' ∷ b'm' ∷ b'i' ∷ b's' ∷ b's' ∷ b'i' ∷ b'n'
            ∷ b'g' ∷ b' ' ∷ b'f' ∷ b'i' ∷ b'l' ∷ b'e' ∷ b'n' ∷ b'a' ∷ b'm' ∷ b'e' ∷ 10 ∷ [])
          [] s
      else if is_empty base
      then print sys
          (b't' ∷ b'o' ∷ b'u' ∷ b'c' ∷ b'h' ∷ b':' ∷ b' ' ∷ b'i' ∷ b'n' ∷ b'v' ∷ b'a' ∷ b'l' ∷ b'i'
            ∷ b'd' ∷ b' ' ∷ b'p' ∷ b'a' ∷ b't' ∷ b'h' ∷ 10 ∷ [])
          [] s
      else if dir == 0
      then print sys
          (b't' ∷ b'o' ∷ b'u' ∷ b'c' ∷ b'h' ∷ b':' ∷ b' ' ∷ b'%' ∷ b's' ∷ b':' ∷ b' ' ∷ b'n' ∷ b'o'
            ∷ b't' ∷ b' ' ∷ b'f' ∷ b'o' ∷ b'u' ∷ b'n' ∷ b'd' ∷ 10 ∷ [])
          (string parent ∷ []) s1
      else if not (has vfs_dir flags)
      then sys.vfs_close dir (
          print sys
            (b't' ∷ b'o' ∷ b'u' ∷ b'c' ∷ b'h' ∷ b':' ∷ b' ' ∷ b'%' ∷ b's' ∷ b':' ∷ b' ' ∷ b'n'
              ∷ b'o' ∷ b't' ∷ b' ' ∷ b'a' ∷ b' ' ∷ b'd' ∷ b'i' ∷ b'r' ∷ b'e' ∷ b'c' ∷ b't' ∷ b'o'
              ∷ b'r' ∷ b'y' ∷ 10 ∷ [])
            (string parent ∷ []) s2)
      else touch_in dir base s2

  -- The part of `mkdir` that has the parent open: a node is made in it and closed again.
  unfoldable pub mkdir_in : (dir : ℕ) (base : List ℕ) → S → S
  mkdir_in dir base s =
      let (node, s1) = sys.vfs_create dir base vfs_dir s in
      let s2 =
        if node == 0
        then print sys
            (b'm' ∷ b'k' ∷ b'd' ∷ b'i' ∷ b'r' ∷ b':' ∷ b' ' ∷ b'f' ∷ b'a' ∷ b'i' ∷ b'l' ∷ b'e'
              ∷ b'd' ∷ b' ' ∷ b't' ∷ b'o' ∷ b' ' ∷ b'c' ∷ b'r' ∷ b'e' ∷ b'a' ∷ b't' ∷ b'e' ∷ b' '
              ∷ b'%' ∷ b's' ∷ 10 ∷ [])
            (string base ∷ []) s1
        else sys.vfs_close node s1 in
      sys.vfs_close dir s2

  unfoldable pub cmd_mkdir : (current_path arg : List ℕ) → S → S
  cmd_mkdir current_path arg s =
      let resolved = path_resolve current_path arg 256 in
      let (parent, base) = path_parent_and_name resolved 256 128 in
      let (dir, s1) = sys.vfs_open parent s in
      let (flags, s2) = sys.flags dir s1 in
      if is_empty arg
      then print sys
          (b'm' ∷ b'k' ∷ b'd' ∷ b'i' ∷ b'r' ∷ b':' ∷ b' ' ∷ b'm' ∷ b'i' ∷ b's' ∷ b's' ∷ b'i' ∷ b'n'
            ∷ b'g' ∷ b' ' ∷ b'n' ∷ b'a' ∷ b'm' ∷ b'e' ∷ 10 ∷ [])
          [] s
      else if is_empty base
      then print sys
          (b'm' ∷ b'k' ∷ b'd' ∷ b'i' ∷ b'r' ∷ b':' ∷ b' ' ∷ b'i' ∷ b'n' ∷ b'v' ∷ b'a' ∷ b'l' ∷ b'i'
            ∷ b'd' ∷ b' ' ∷ b'p' ∷ b'a' ∷ b't' ∷ b'h' ∷ 10 ∷ [])
          [] s
      else if dir == 0
      then print sys
          (b'm' ∷ b'k' ∷ b'd' ∷ b'i' ∷ b'r' ∷ b':' ∷ b' ' ∷ b'%' ∷ b's' ∷ b':' ∷ b' ' ∷ b'n' ∷ b'o'
            ∷ b't' ∷ b' ' ∷ b'f' ∷ b'o' ∷ b'u' ∷ b'n' ∷ b'd' ∷ 10 ∷ [])
          (string parent ∷ []) s1
      else if not (has vfs_dir flags)
      then sys.vfs_close dir (
          print sys
            (b'm' ∷ b'k' ∷ b'd' ∷ b'i' ∷ b'r' ∷ b':' ∷ b' ' ∷ b'%' ∷ b's' ∷ b':' ∷ b' ' ∷ b'n'
              ∷ b'o' ∷ b't' ∷ b' ' ∷ b'a' ∷ b' ' ∷ b'd' ∷ b'i' ∷ b'r' ∷ b'e' ∷ b'c' ∷ b't' ∷ b'o'
              ∷ b'r' ∷ b'y' ∷ 10 ∷ [])
            (string parent ∷ []) s2)
      else mkdir_in dir base s2
