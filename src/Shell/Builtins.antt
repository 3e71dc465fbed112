-- ===== src/Shell/Builtins.antt =====
-- shell/builtins.c: what the commands of the shell call of the other parts, how they print, and the
-- commands without a path. A command takes the path of the current directory and its argument; an
-- argument that is the null pointer is handled as the empty one. A loop whose fuel runs out gives
-- `none`.
pub mod Handles
pub mod Listing
pub mod Cd
pub mod Make
pub mod Echo
pub mod Exec
pub mod Table
use yotos.Base.{
  ℕ, zero, suc, ◌+◌, ◌-◌, ◌*◌, ◌/◌, ◌%◌, ◌^◌, ◌≤◌, ◌<◌, ◌≡◌, refl, sym, ap, ◌∙◌, fun_ext, ◌≢◌, ◌↔◌,
  ◌⊎◌, inl, inr, Bool, true, false, not, ◌&&◌, ◌||◌, Option, none, some, List, [], ◌∷◌, ◌++◌, map,
  arith, bit_and, bit_or, bit_xor, ltb, leb, ◌==◌, if◌then◌else◌, update, min, max, bit, bit-lt,
  bit-bit_or, bit-bit_and, bit-pow, bit_and-pow_iff, bit-complement, bit_or-lt, bit-ones, pow-lt,
  bit_and-le, all_ones, Bool-cases, Option-cases, length, get_or, take, drop, for_loop,
  for_loop-zero, for_loop-suc, replicate, All, length-append, length-take, length-drop,
  length-replicate, u8, u16, u32, sub32, ==_iff, ltb→lt, lt→ltb, le→ltb, leb→le, append_nil,
  append_assoc, take_all, take-append, drop-append,
}
use yotos.Base.Int.{pos}
use yotos.Klibc.{Arg, int, string, printf, strlcpy, strlen, strcmp}
use yotos.Vfs.{vfs_file, vfs_dir, VfsDirent}

-- What reaches the terminal: a byte for `putchar`, or `terminal_initialize`.
pub data Shown : Type 0 where
  byte : ℕ → Shown
  initialize : Shown

-- What the commands call of the other parts, over states of a type. A node or a process that is 0 is
-- the null pointer. `flags` and `exit_code` read a field through the pointer. A read gives the bytes, or
-- none for -1, a write the number of bytes.
pub record System (S : Type 0) : Type 1 where
  pub show : Shown → S → S
  pub free_blocks : S → ℕ
  pub used_blocks : S → ℕ
  pub max_blocks : S → ℕ
  pub vfs_open : List ℕ → S → ℕ × S
  pub flags : ℕ → S → ℕ × S
  pub vfs_close : ℕ → S → S
  pub vfs_readdir : (node index : ℕ) → S → Option VfsDirent × S
  pub vfs_read : (node offset size : ℕ) → S → Option (List ℕ) × S
  pub vfs_write : (node offset : ℕ) → List ℕ → S → Option ℕ × S
  pub vfs_create : ℕ → List ℕ → ℕ → S → ℕ × S
  pub process_create : ℕ → S → ℕ × S
  pub process_run : ℕ → S → S
  pub exit_code : ℕ → S → ℕ × S
  pub process_free : ℕ → S → S
  pub keyboard_flush : S → S

-- `node->flags & flag`
abbrev pub has : ℕ → ℕ → Bool
has flag flags = not (bit_and flags flag == 0)

module _ {S : Type 0} (sys : System S) where
  abbrev pub put : List ℕ → S → S
  put [] s = s
  put (c ∷ out) s = put out (sys.show (byte c) s)

  unfoldable pub print : List ℕ → List Arg → S → S
  print fmt args s = put (printf fmt args) s

  unfoldable pub cmd_help : S → S
  cmd_help s =
      print
        (b'Y' ∷ b'O' ∷ b'T' ∷ b'O' ∷ b'S' ∷ b' ' ∷ b'-' ∷ b'-' ∷ b'-' ∷ b'=' ∷ b'=' ∷ b'=' ∷ b'-'
          ∷ b'-' ∷ b'-' ∷ b' ' ∷ b'Y' ∷ b'O' ∷ b'T' ∷ b'A' ∷ b'M' ∷ 39 ∷ b'S' ∷ b' ' ∷ b'O' ∷ b'S'
          ∷ 10 ∷ b'c' ∷ b'o' ∷ b'm' ∷ b'm' ∷ b'a' ∷ b'n' ∷ b'd' ∷ b's' ∷ b':' ∷ 10 ∷ b'h' ∷ b'e'
          ∷ b'l' ∷ b'p' ∷ b',' ∷ b' ' ∷ b'c' ∷ b'l' ∷ b'e' ∷ b'a' ∷ b'r' ∷ b',' ∷ b' ' ∷ b'm' ∷ b'e'
          ∷ b'm' ∷ b',' ∷ b' ' ∷ b'l' ∷ b's' ∷ b',' ∷ b' ' ∷ b'c' ∷ b'a' ∷ b't' ∷ b',' ∷ b' ' ∷ b'c'
          ∷ b'd' ∷ b',' ∷ b' ' ∷ b't' ∷ b'o' ∷ b'u' ∷ b'c' ∷ b'h' ∷ b',' ∷ b' ' ∷ b'm' ∷ b'k' ∷ b'd'
          ∷ b'i' ∷ b'r' ∷ b',' ∷ b' ' ∷ b'e' ∷ b'c' ∷ b'h' ∷ b'o' ∷ b',' ∷ b' ' ∷ b'e' ∷ b'x' ∷ b'e'
          ∷ b'c' ∷ 10 ∷ b' ' ∷ b' ' ∷ b' ' ∷ b' ' ∷ b' ' ∷ b' ' ∷ b'-' ∷ b'-' ∷ b'-' ∷ b'=' ∷ b'='
          ∷ b'=' ∷ b'-' ∷ b'-' ∷ b'-' ∷ 10 ∷ [])
        [] s

  unfoldable pub cmd_clear : S → S
  cmd_clear s = sys.show initialize s

  unfoldable pub cmd_mem : S → S
  cmd_mem s =
      let s1 =
        print
          (b'f' ∷ b'r' ∷ b'e' ∷ b'e' ∷ b':' ∷ b' ' ∷ b' ' ∷ b'%' ∷ b'd' ∷ b' ' ∷ b'f' ∷ b'r' ∷ b'a'
            ∷ b'm' ∷ b'e' ∷ b's' ∷ 10 ∷ [])
          (int (sys.free_blocks s) ∷ []) s in
      let s2 =
        print
          (b'u' ∷ b's' ∷ b'e' ∷ b'd' ∷ b':' ∷ b' ' ∷ b' ' ∷ b'%' ∷ b'd' ∷ b' ' ∷ b'f' ∷ b'r' ∷ b'a'
            ∷ b'm' ∷ b'e' ∷ b's' ∷ 10 ∷ [])
          (int (sys.used_blocks s1) ∷ []) s1 in
      print
        (b't' ∷ b'o' ∷ b't' ∷ b'a' ∷ b'l' ∷ b':' ∷ b' ' ∷ b'%' ∷ b'd' ∷ b' ' ∷ b'f' ∷ b'r' ∷ b'a'
          ∷ b'm' ∷ b'e' ∷ b's' ∷ 10 ∷ [])
        (int (sys.max_blocks s2) ∷ []) s2
