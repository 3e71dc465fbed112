-- ===== src/Shell/Builtins/Handles.antt =====
-- The nodes and processes that the commands hold, kept in a record beside the state.
mod Making
mod Listing
mod Echo
pub mod Table
use yotos.Base.{
  ℕ, zero, suc, ◌+◌, ◌-◌, ◌*◌, ◌/◌, ◌%◌, ◌^◌, ◌≤◌, ◌<◌, ◌≡◌, refl, sym, ap, ◌∙◌, fun_ext, ◌≢◌, ◌↔◌,
  ◌⊎◌, inl, inr, Bool, true, false, not, ◌&&◌, ◌||◌, Option, none, some, List, [], ◌∷◌, ◌++◌, map,
  arith, bit_and, bit_or, bit_xor, ltb, leb, ◌==◌, if◌then◌else◌, update, min, max, bit, bit-lt,
  bit-bit_or, bit-bit_and, bit-pow, bit_and-pow_iff, bit-complement, bit_or-lt, bit-ones, pow-lt,
  bit_and-le, all_ones, Bool-cases, Option-cases, length, get_or, take, drop, for_loop,
  for_loop-zero, for_loop-suc, replicate, All, length-append, length-take, length-drop,
  length-replicate, u8, u16, u32, sub32, ==_iff, ltb→lt, lt→ltb, le→ltb, leb→le, append_nil,
  append_assoc, take_all, take-append, drop-append,
}
use mathlib.Core.Option.{map as map_option}
use yotos.Klibc.{Arg, printf}
use yotos.Vfs.{vfs_file, vfs_dir}
use yotos.Shell.Paths.{path_resolve, path_parent_and_name, is_empty}
use yotos.Handles.{
  Handle, node, process, Held, taken, used, given_back, used-open, given_back-open,
  given_back-second, given_back-process, taken-null, taken-open,
}
use yotos.Shell.Builtins.{has, Shown, System, put, print, cmd_help, cmd_mem}
use yotos.Shell.Builtins.Make.{cmd_touch, cmd_mkdir, touch_in, mkdir_in}

module _ {S : Type 0} where
  -- The same calls, with a record of what is open kept beside the state. A call that takes a node or
  -- a process uses it, and so does a read of a field of one.
  pub watched : System S → System (S × Held)
  watched sys = record {
    show = λ x (s, held). (sys.show x s, held);
    free_blocks = λ (s, _). sys.free_blocks s;
    used_blocks = λ (s, _). sys.used_blocks s;
    max_blocks = λ (s, _). sys.max_blocks s;
    vfs_open =
        λ path (s, held). let (n, t) = sys.vfs_open path s in (n, (t, taken n (node n) held));
    flags = λ n (s, held). let (f, t) = sys.flags n s in (f, (t, used (node n) held));
    vfs_close = λ n (s, held). (sys.vfs_close n s, given_back (node n) held);
    vfs_readdir = λ dir i (s, held).
        let (entry, t) = sys.vfs_readdir dir i s in (entry, (t, used (node dir) held));
    vfs_read = λ file offset size (s, held).
        let (bytes, t) = sys.vfs_read file offset size s in (bytes, (t, used (node file) held));
    vfs_write = λ file offset buf (s, held).
        let (n, t) = sys.vfs_write file offset buf s in (n, (t, used (node file) held));
    vfs_create = λ dir name flags (s, held).
        let (n, t) = sys.vfs_create dir name flags s in
        (n, (t, taken n (node n) (used (node dir) held)));
    process_create = λ file (s, held).
        let (n, t) = sys.process_create file s in
        (n, (t, taken n (process n) (used (node file) held)));
    process_run = λ proc (s, held). (sys.process_run proc s, used (process proc) held);
    exit_code = λ proc (s, held).
        let (code, t) = sys.exit_code proc s in (code, (t, used (process proc) held));
    process_free = λ proc (s, held). (sys.process_free proc s, given_back (process proc) held);
    keyboard_flush = λ (s, held). (sys.keyboard_flush s, held);
  }

-- What the calls of a system do to what is open.
pub record Accounts {S : Type 0} (sys : System S) (held : S → Held) : Type 0 where
  pub shows : (x : Shown) (s : S) → held (sys.show x s) ≡ held s
  pub opens :
      (path : List ℕ) (s : S)
      → held (sys.vfs_open path s).1
        ≡ taken (sys.vfs_open path s).0 (node (sys.vfs_open path s).0) (held s)
  pub looks : (n : ℕ) (s : S) → held (sys.flags n s).1 ≡ used (node n) (held s)
  pub closes : (n : ℕ) (s : S) → held (sys.vfs_close n s) ≡ given_back (node n) (held s)
  pub lists : (dir i : ℕ) (s : S) → held (sys.vfs_readdir dir i s).1 ≡ used (node dir) (held s)
  pub reads :
      (file offset size : ℕ) (s : S)
      → held (sys.vfs_read file offset size s).1 ≡ used (node file) (held s)
  pub writes :
      (file offset : ℕ) (buf : List ℕ) (s : S)
      → held (sys.vfs_write file offset buf s).1 ≡ used (node file) (held s)
  pub creates :
      (dir : ℕ) (name : List ℕ) (flags : ℕ) (s : S)
      → let (n, t) = sys.vfs_create dir name flags s in
        held t ≡ taken n (node n) (used (node dir) (held s))
  pub loads :
      (file : ℕ) (s : S)
      → let (n, t) = sys.process_create file s in
        held t ≡ taken n (process n) (used (node file) (held s))
  pub runs : (n : ℕ) (s : S) → held (sys.process_run n s) ≡ used (process n) (held s)
  pub exits : (n : ℕ) (s : S) → held (sys.exit_code n s).1 ≡ used (process n) (held s)
  pub frees : (n : ℕ) (s : S) → held (sys.process_free n s) ≡ given_back (process n) (held s)
  pub flushes : (s : S) → held (sys.keyboard_flush s) ≡ held s

pub watched-Accounts : {S : Type 0} (sys : System S) → Accounts (watched sys) (λ t. t.1)
unfolding watched
watched-Accounts sys = record {
  shows = λ x s. refl;
  opens = λ path s. refl;
  looks = λ n s. refl;
  closes = λ n s. refl;
  lists = λ dir i s. refl;
  reads = λ file offset size s. refl;
  writes = λ file offset buf s. refl;
  creates = λ dir name flags s. refl;
  loads = λ file s. refl;
  runs = λ n s. refl;
  exits = λ n s. refl;
  frees = λ n s. refl;
  flushes = λ s. refl;
}

module _ {S : Type 0} (sys : System S) (held : S → Held) (laws : Accounts sys held) where
  pub put-held : {s : S} (out : List ℕ) {h : Held} → held s ≡ h → held (put sys out s) ≡ h
  put-held [] e = e
  put-held {s = s} (c ∷ out) e = put-held {s = sys.show (Shown.byte c) s} out (laws.shows _ s ∙ e)

  pub after_print :
      {s : S} (fmt : List ℕ) (args : List Arg) {h : Held}
      → held s ≡ h
      → held (print sys fmt args s) ≡ h
  unfolding print
  after_print fmt args e = put-held (printf fmt args) e

  pub after_close :
      {s : S} {n : ℕ} {l : List Handle}
      → held s ≡ some (node n ∷ l)
      → held (sys.vfs_close n s) ≡ some l
  after_close {s = s} {n = n} e = laws.closes n s ∙ given_back-open (node n) _ _ e

  pub after_close_second :
      {s : S} {m n : ℕ} {l : List Handle}
      → held s ≡ some (node m ∷ node n ∷ l)
      → held (sys.vfs_close n s) ≡ some (node m ∷ l)
  after_close_second {s = s} {m = m} {n = n} e = laws.closes n s ∙ given_back-second m n _ _ e

  pub not_opened :
      {s : S} {path : List ℕ} {h : Held}
      → held s ≡ h
      → ((sys.vfs_open path s).0 == 0) ≡ true
      → held (sys.vfs_open path s).1 ≡ h
  not_opened {s = s} {path = path} e k = laws.opens path s ∙ taken-null _ _ _ k ∙ e

  pub opened :
      {s : S} {path : List ℕ} {l : List Handle}
      → held s ≡ some l
      → ((sys.vfs_open path s).0 == 0) ≡ false
      → held (sys.vfs_open path s).1 ≡ some (node (sys.vfs_open path s).0 ∷ l)
  opened {s = s} {path = path} e k = laws.opens path s ∙ taken-open _ _ _ _ k e

  pub not_created :
      {s : S} {dir : ℕ} {name : List ℕ} {flags : ℕ} {l : List Handle}
      → held s ≡ some (node dir ∷ l)
      → ((sys.vfs_create dir name flags s).0 == 0) ≡ true
      → held (sys.vfs_create dir name flags s).1 ≡ some (node dir ∷ l)
  not_created {s = s} {dir = dir} {name = name} {flags = flags} e k =
      laws.creates dir name flags s ∙ taken-null _ _ _ k ∙ used-open (node dir) _ _ e

  pub created :
      {s : S} {dir : ℕ} {name : List ℕ} {flags : ℕ} {l : List Handle}
      → held s ≡ some (node dir ∷ l)
      → ((sys.vfs_create dir name flags s).0 == 0) ≡ false
      → held (sys.vfs_create dir name flags s).1
        ≡ some (node (sys.vfs_create dir name flags s).0 ∷ node dir ∷ l)
  created {s = s} {dir = dir} {name = name} {flags = flags} e k =
      laws.creates dir name flags s ∙ taken-open _ _ _ _ k (used-open (node dir) _ _ e)

  pub after_use :
      {a : Handle} {s : S} {l : List Handle} {h : Held}
      → h ≡ used a (held s)
      → held s ≡ some (a ∷ l)
      → h ≡ some (a ∷ l)
  after_use {a = a} law e = law ∙ used-open a _ _ e

  -- A node whose flags are read.
  pub looked :
      {s : S} {n : ℕ} {l : List Handle}
      → held s ≡ some (node n ∷ l)
      → held (sys.flags n s).1 ≡ some (node n ∷ l)
  looked {s = s} {n = n} e = after_use {a = node n} {s = s} (laws.looks n s) e

  pub not_loaded :
      {s : S} {file : ℕ} {l : List Handle}
      → held s ≡ some (node file ∷ l)
      → ((sys.process_create file s).0 == 0) ≡ true
      → held (sys.process_create file s).1 ≡ some (node file ∷ l)
  not_loaded {s = s} {file = file} e k =
      laws.loads file s ∙ taken-null _ _ _ k ∙ used-open (node file) _ _ e

  -- A process that is loaded while the file is open, which is closed then.
  pub loaded :
      {s : S} {file : ℕ} {l : List Handle}
      → held s ≡ some (node file ∷ l)
      → ((sys.process_create file s).0 == 0) ≡ false
      → let (proc, t) = sys.process_create file s in
        held (sys.vfs_close file t) ≡ some (process proc ∷ l)
  loaded {s = s} {file = file} {l = l} e k =
      let (proc, t) = sys.process_create file s in
      laws.closes file t
      ∙ ap (given_back (node file))
          (laws.loads file s ∙ taken-open proc _ _ _ k (used-open (node file) _ _ e))
      ∙ given_back-process file proc l
