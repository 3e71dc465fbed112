-- ===== src/Shell/Builtins/Exec.antt =====
-- shell/builtins.c: the command exec.
use yotos.Base.{ℕ, not, List, [], ◌∷◌, ◌==◌, if◌then◌else◌}
use yotos.Klibc.{int, string}
use yotos.Vfs.{vfs_file}
use yotos.Shell.Builtins.{initialize, System, has, print}
use yotos.Shell.Paths.{is_empty, path_resolve}

module _ {S : Type 0} (sys : System S) where
  -- Loading, running and freeing a program.
  unfoldable pub exec_run : (path : List ℕ) (file : ℕ) → S → S
  exec_run path file s =
      let (proc, s1) = sys.process_create file s in
      let s2 = sys.vfs_close file s1 in
      let s3 = sys.process_run proc (sys.keyboard_flush s2) in
      let s4 = sys.show initialize (
        print sys
          (b'[' ∷ b'e' ∷ b'x' ∷ b'e' ∷ b'c' ∷ b']' ∷ b' ' ∷ b'r' ∷ b'e' ∷ b't' ∷ b'u' ∷ b'r' ∷ b'n'
            ∷ b'e' ∷ b'd' ∷ 10 ∷ [])
          [] s3) in
      let (code, s5) = sys.exit_code proc s4 in
      let s6 =
        print sys
          (b'[' ∷ b'e' ∷ b'x' ∷ b'e' ∷ b'c' ∷ b']' ∷ b' ' ∷ b'e' ∷ b'x' ∷ b'i' ∷ b't' ∷ b'e' ∷ b'd'
            ∷ b' ' ∷ b'w' ∷ b'i' ∷ b't' ∷ b'h' ∷ b' ' ∷ b'c' ∷ b'o' ∷ b'd' ∷ b'e' ∷ b' ' ∷ b'%'
            ∷ b'd' ∷ 10 ∷ [])
          (int code ∷ []) s5 in
      if proc == 0
      then print sys
          (b'e' ∷ b'x' ∷ b'e' ∷ b'c' ∷ b':' ∷ b' ' ∷ b'f' ∷ b'a' ∷ b'i' ∷ b'l' ∷ b'e' ∷ b'd' ∷ b' '
            ∷ b't' ∷ b'o' ∷ b' ' ∷ b'l' ∷ b'o' ∷ b'a' ∷ b'd' ∷ b' ' ∷ b'%' ∷ b's' ∷ 10 ∷ [])
          (string path ∷ []) s2
      else sys.process_free proc s6

  unfoldable pub cmd_exec : (current_path arg : List ℕ) → S → S
  cmd_exec current_path arg s =
      let path = path_resolve current_path arg 256 in
      let (file, s1) = sys.vfs_open path s in
      let (flags, s2) = sys.flags file s1 in
      if is_empty arg
      then print sys
          (b'e' ∷ b'x' ∷ b'e' ∷ b'c' ∷ b':' ∷ b' ' ∷ b'm' ∷ b'i' ∷ b's' ∷ b's' ∷ b'i' ∷ b'n' ∷ b'g'
            ∷ b' ' ∷ b'f' ∷ b'i' ∷ b'l' ∷ b'e' ∷ b'n' ∷ b'a' ∷ b'm' ∷ b'e' ∷ 10 ∷ [])
          [] s
      else if file == 0
      then print sys
          (b'e' ∷ b'x' ∷ b'e' ∷ b'c' ∷ b':' ∷ b' ' ∷ b'%' ∷ b's' ∷ b':' ∷ b' ' ∷ b'n' ∷ b'o' ∷ b't'
            ∷ b' ' ∷ b'f' ∷ b'o' ∷ b'u' ∷ b'n' ∷ b'd' ∷ 10 ∷ [])
          (string path ∷ []) s1
      else if not (has vfs_file flags)
      then sys.vfs_close file (
          print sys
            (b'e' ∷ b'x' ∷ b'e' ∷ b'c' ∷ b':' ∷ b' ' ∷ b'%' ∷ b's' ∷ b':' ∷ b' ' ∷ b'n' ∷ b'o'
              ∷ b't' ∷ b' ' ∷ b'a' ∷ b' ' ∷ b'f' ∷ b'i' ∷ b'l' ∷ b'e' ∷ 10 ∷ [])
            (string path ∷ []) s2)
      else exec_run path file s2
