-- ===== src/Shell/Builtins/Echo/Redirect.antt =====
-- How echo takes its argument apart.
use yotos.Base.{
  ℕ, zero, suc, ◌+◌, ◌-◌, ◌^◌, ◌≤◌, ◌<◌, ◌≡◌, refl, ap, ◌∙◌, ◌≢◌, true, false, some, List, [], ◌∷◌,
  ◌++◌, arith, ◌==◌, length, get_or, replicate, All, length-append, length-replicate, u32, take_all,
  take_full, get_or-append, get_or-behind, get_or-replicate,
}
use yotos.Klibc.{strlen}
use yotos.Klibc.Strings.{strlen-length}
use yotos.Vfs.{vfs_file}
use yotos.Shell.{skip_spaces}
use yotos.Shell.Paths.{path_resolve, is_empty}
use yotos.Shell.Builtins.{System, has}
use yotos.Shell.Builtins.Echo.{cmd_echo, echo_open, echo_to, split_at_gt, strip_loop}

abbrev pub spaces : ℕ → List ℕ
spaces n = replicate n b' '

not_empty : (s : List ℕ) (c : ℕ) (t : List ℕ) → is_empty (s ++ (c ∷ t)) ≡ false
not_empty [] c t = refl
not_empty (b ∷ s) c t = refl

split_at_gt-append :
    (before behind : List ℕ)
    → All (λ c. c ≢ b'>') before
    → split_at_gt (before ++ (b'>' ∷ behind)) ≡ some (before, behind)
unfolding split_at_gt
split_at_gt-append [] behind h = refl
split_at_gt-append (c ∷ before) behind (n, h) =
    let other : (c == b'>') ≡ false = ground (arith, n) in
    rw (other, split_at_gt-append before behind h) refl

skip_spaces-append :
    (n : ℕ) (name : List ℕ) → get_or name 0 0 ≢ b' ' → skip_spaces (spaces n ++ name) ≡ name
unfolding skip_spaces
skip_spaces-append zero [] h = refl
skip_spaces-append zero (c ∷ name) h = ground (arith, h)
skip_spaces-append (suc n) name h = skip_spaces-append n name h

-- Trailing spaces are stripped one by one.
strip_loop-spaces :
    (n k : ℕ) (content : List ℕ)
    → n ≤ k
    → get_or content (length content - 1) 0 ≢ b' '
    → strip_loop (length content + n) (content ++ spaces k) ≡ content
unfolding strip_loop
strip_loop-spaces zero k [] hn h = refl
strip_loop-spaces zero k (c ∷ s) hn h =
    let count : suc (length s) + 0 ≡ suc (length s) = omega arith in
    let last : get_or ((c ∷ s) ++ spaces k) (length s) 0 ≡ get_or (c ∷ s) (length s) 0 =
      get_or-append (c ∷ s) (spaces k) (length s) 0 (omega arith) in
    rw count (
      ground (
        arith,
        h,
        last,
        take_full (suc (length s)) (c ∷ s) (spaces k) (omega arith),
        take_all (suc (length s)) (c ∷ s) (omega arith),
      ))
strip_loop-spaces (suc n) k content hn h =
    let count : length content + suc n ≡ suc (length content + n) = omega arith in
    let space : get_or (content ++ spaces k) (length content + n) 0 ≡ b' ' =
      get_or-behind content (spaces k) n 0 ∙ get_or-replicate k b' ' n 0 (omega (arith, hn)) in
    rw (count, space) (strip_loop-spaces n k content (omega (arith, hn)) h)

-- The argument of `echo` that asks for a content to be written to a file.
abbrev pub redirected : (content : List ℕ) (before behind : ℕ) (filename : List ℕ) → List ℕ
redirected content before behind filename =
    (content ++ spaces before) ++ (b'>' ∷ (spaces behind ++ filename))

-- A content that echo keeps as it is: it has no '>' and does not end in a space.
pub record IsContent (content : List ℕ) : Type 0 where
  pub plain : All (λ c. c ≢ b'>') content
  pub stripped : get_or content (length content - 1) 0 ≢ b' '

All-spaces :
    (content : List ℕ) (n : ℕ)
    → All (λ c. c ≢ b'>') content
    → All (λ c. c ≢ b'>') (content ++ spaces n)
All-spaces [] zero h = tt
All-spaces [] (suc n) h = (ground arith, All-spaces [] n tt)
All-spaces (c ∷ content) n (k, h) = (k, All-spaces content n h)

module _ {S : Type 0} (sys : System S) where
  cmd_echo-redirected :
      (path content filename : List ℕ) (before behind : ℕ) (s : S)
      → IsContent content
      → get_or filename 0 0 ≢ b' '
      → cmd_echo sys path (redirected content before behind filename) s
        ≡ echo_to sys path content filename s
  unfolding cmd_echo
  cmd_echo-redirected path content filename before behind s h name =
      let front = content ++ spaces before in
      let split =
        split_at_gt-append front (spaces behind ++ filename) (All-spaces content before h.plain) in
      let count : strlen front ≡ length content + before =
        strlen-length front
        ∙ length-append content (spaces before)
        ∙ ap (λ n. length content + n) (length-replicate before b' ') in
      let kept = strip_loop-spaces before before content (omega arith) h.stripped in
      let given : is_empty (redirected content before behind filename) ≡ false =
        not_empty front _ _ in
      rw (given, split, count, kept, skip_spaces-append behind filename name) refl

  -- `echo content > file`, with any spaces around the '>', writes the content at the start of the
  -- file, a newline behind it, and closes the file, when the file is there and is not a directory.
  pub cmd_echo-writes :
      (path content filename : List ℕ) (before behind : ℕ) (s s0 s1 : S) (file flags : ℕ)
      → IsContent content
      → get_or filename 0 0 ≢ b' '
      → 0 < length filename
      → length content < 2 ^ 32
      → sys.vfs_open (path_resolve path filename 256) s ≡ (file, s0)
      → 0 < file
      → sys.flags file s0 ≡ (flags, s1)
      → has vfs_file flags ≡ true
      → let (_, s2) = sys.vfs_write file 0 content s1 in
        let (_, s3) = sys.vfs_write file (length content) (10 ∷ []) s2 in
        cmd_echo sys path (redirected content before behind filename) s ≡ sys.vfs_close file s3
  unfolding echo_to echo_open
  cmd_echo-writes path content [] before behind s s0 s1 file flags h name some_name hc opened hf
        seen flag =
      absurd (omega (arith, some_name))
  cmd_echo-writes path content (c ∷ filename) before behind s s0 s1 file flags h name some_name hc
        opened hf seen flag =
      let there : (file == 0) ≡ false = ground (arith, hf) in
      let small : u32 (length content) ≡ length content = omega (arith, hc) in
      cmd_echo-redirected path content (c ∷ filename) before behind s h name
      ∙ rw (opened, there, there, seen, flag, strlen-length content, small) refl
