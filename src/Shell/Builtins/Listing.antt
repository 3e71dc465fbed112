-- ===== src/Shell/Builtins/Listing.antt =====
-- shell/builtins.c: the commands ls and cat.
pub mod Content
use yotos.Base.{
  ℕ, zero, suc, ◌+◌, not, Option, none, some, List, [], ◌∷◌, ◌==◌, if◌then◌else◌, length, u32,
}
use yotos.Klibc.{string}
use yotos.Vfs.{vfs_file, vfs_dir, VfsDirent}
use yotos.Shell.Builtins.{System, has, put, print}
use yotos.Shell.Paths.{is_empty, path_resolve}
use mathlib.Core.Option.{map as map_option}

module _ {S : Type 0} (sys : System S) where
  -- The line that `ls` prints for an entry.
  unfoldable pub list_entry : VfsDirent → S → S
  list_entry entry s =
      if has vfs_dir entry.flags
      then print sys (b'[' ∷ b'D' ∷ b'I' ∷ b'R' ∷ b']' ∷ b' ' ∷ b' ' ∷ b'%' ∷ b's' ∷ 10 ∷ [])
          (string entry.name ∷ []) s
      else print sys (b'[' ∷ b'F' ∷ b'I' ∷ b'L' ∷ b'E' ∷ b']' ∷ b' ' ∷ b'%' ∷ b's' ∷ 10 ∷ [])
          (string entry.name ∷ []) s

  -- `while ((entry = vfs_readdir(dir, i++)) != 0)`
  unfoldable pub ls_loop : (fuel dir i : ℕ) → S → Option S
  ls_loop zero dir i s = none
  ls_loop (suc fuel) dir i s =
      let (entry, s1) = sys.vfs_readdir dir i s in
      elim entry [ none ↦ some s1 | some e ↦ ls_loop fuel dir (u32 (i + 1)) (list_entry e s1) ]

  unfoldable pub cmd_ls : (fuel : ℕ) (current_path arg : List ℕ) → S → Option S
  cmd_ls fuel current_path arg s =
      let path = path_resolve current_path arg 256 in
      let (dir, s1) = sys.vfs_open path s in
      let (flags, s2) = sys.flags dir s1 in
      if dir == 0
      then some (
          print sys
            (b'l' ∷ b's' ∷ b':' ∷ b' ' ∷ b'%' ∷ b's' ∷ b':' ∷ b' ' ∷ b'n' ∷ b'o' ∷ b't' ∷ b' '
              ∷ b'f' ∷ b'o' ∷ b'u' ∷ b'n' ∷ b'd' ∷ 10 ∷ [])
            (string path ∷ []) s1)
      else if not (has vfs_dir flags)
      then some (
          sys.vfs_close dir (
            print sys
              (b'l' ∷ b's' ∷ b':' ∷ b' ' ∷ b'%' ∷ b's' ∷ b':' ∷ b' ' ∷ b'n' ∷ b'o' ∷ b't' ∷ b' '
                ∷ b'a' ∷ b' ' ∷ b'd' ∷ b'i' ∷ b'r' ∷ b'e' ∷ b'c' ∷ b't' ∷ b'o' ∷ b'r' ∷ b'y' ∷ 10
                ∷ [])
              (string path ∷ []) s2))
      else map_option (sys.vfs_close dir) (ls_loop fuel dir 0 s2)

  -- The loop that reads the file 512 bytes at a time; a read of -1 or 0 bytes ends it.
  unfoldable pub cat_loop : (fuel file offset : ℕ) → S → Option S
  cat_loop zero file offset s = none
  cat_loop (suc fuel) file offset s =
      let (bytes, s1) = sys.vfs_read file offset 512 s in
      elim bytes [
        | none ↦ some s1
        | some [] ↦ some s1
        | some (c ∷ buf) ↦
            cat_loop fuel file (u32 (offset + length (c ∷ buf))) (put sys (c ∷ buf) s1)
      ]

  unfoldable pub cmd_cat : (fuel : ℕ) (current_path arg : List ℕ) → S → Option S
  cmd_cat fuel current_path arg s =
      let path = path_resolve current_path arg 256 in
      let (file, s1) = sys.vfs_open path s in
      let (flags, s2) = sys.flags file s1 in
      if is_empty arg
      then some (
          print sys
            (b'c' ∷ b'a' ∷ b't' ∷ b':' ∷ b' ' ∷ b'm' ∷ b'i' ∷ b's' ∷ b's' ∷ b'i' ∷ b'n' ∷ b'g'
              ∷ b' ' ∷ b'f' ∷ b'i' ∷ b'l' ∷ b'e' ∷ b'n' ∷ b'a' ∷ b'm' ∷ b'e' ∷ 10 ∷ [])
            [] s)
      else if file == 0
      then some (
          print sys
            (b'c' ∷ b'a' ∷ b't' ∷ b':' ∷ b' ' ∷ b'%' ∷ b's' ∷ b':' ∷ b' ' ∷ b'n' ∷ b'o' ∷ b't'
              ∷ b' ' ∷ b'f' ∷ b'o' ∷ b'u' ∷ b'n' ∷ b'd' ∷ 10 ∷ [])
            (string path ∷ []) s1)
      else if not (has vfs_file flags)
      then some (
          sys.vfs_close file (
            print sys
              (b'c' ∷ b'a' ∷ b't' ∷ b':' ∷ b' ' ∷ b'%' ∷ b's' ∷ b':' ∷ b' ' ∷ b'i' ∷ b's' ∷ b' '
                ∷ b'a' ∷ b' ' ∷ b'd' ∷ b'i' ∷ b'r' ∷ b'e' ∷ b'c' ∷ b't' ∷ b'o' ∷ b'r' ∷ b'y' ∷ 10
                ∷ [])
              (string path ∷ []) s2))
      else map_option (λ t. sys.vfs_close file (print sys (10 ∷ []) [] t)) (cat_loop fuel file 0 s2)
