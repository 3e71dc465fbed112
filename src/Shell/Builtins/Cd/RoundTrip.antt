-- ===== src/Shell/Builtins/Cd/RoundTrip.antt =====
-- cd into a directory and out of it again.
use yotos.Base.{
  ℕ, zero, suc, ◌+◌, ◌<◌, ◌≡◌, refl, ap, ◌∙◌, ◌≢◌, inl, inr, Bool, true, false, List, [], ◌∷◌, ◌++◌,
  arith, ◌==◌, Bool-cases, length, get_or, take, length-append, take_all, take_full,
}
use yotos.Base.Int.{ℤ, pos, negsuc}
use yotos.Klibc.{strcmp}
use yotos.Klibc.Strings.{IsCString, strcmp-zero_iff, strlcpy_lem}
use yotos.Vfs.{vfs_dir}
use yotos.Shell.{same_string}
use yotos.Shell.Paths.{path_resolve, last_slash}
use yotos.Shell.Paths.Resolve.{path_resolve-take}
use yotos.Shell.Paths.Parent.{IsName, EndsInName, directory, absolute-directory, last_slash-append}
use yotos.Shell.Builtins.{System, has}
use yotos.Shell.Builtins.Cd.{go_up, enter, cmd_cd}

zero_of : (z : ℤ) → (elim z as (λ _. Bool) [ pos zero ↦ true | _ ↦ false ]) ≡ true → z ≡ pos 0
zero_of (pos zero) h = refl
zero_of (pos (suc n)) h = cc
zero_of (negsuc n) h = cc

different : (s t : List ℕ) → IsCString s → IsCString t → s ≢ t → same_string s t ≡ false
different s t hs ht n = elim (Bool-cases (same_string s t)) [
  | inl e ↦ absurd (n ((strcmp-zero_iff s t hs ht).0 (zero_of (strcmp s t) e)))
  | inr e ↦ e
]

-- A path is left at its last '/'.
go_up-directory :
    (dir name : List ℕ)
    → IsName name
    → 0 < length name
    → go_up (dir ++ (b'/' ∷ name)) ≡ directory dir
unfolding go_up
go_up-directory [] [] plain h = absurd (omega (arith, h))
go_up-directory [] (c ∷ name) plain h =
    let last : last_slash 0 0 (b'/' ∷ c ∷ name) ≡ 0 = last_slash-append 0 0 [] (c ∷ name) plain in
    let longer : (length (b'/' ∷ c ∷ name) == 1) ≡ false = ground arith in rw (longer, last) refl
go_up-directory (d ∷ dir) name plain h =
    let path = (d ∷ dir) ++ (b'/' ∷ name) in
    let last : last_slash 0 0 path ≡ suc (length dir) =
      last_slash-append 0 0 (d ∷ dir) name plain ∙ omega arith in
    let longer : (length path == 1) ≡ false = ground (arith, length-append dir (b'/' ∷ name)) in
    let nested : (suc (length dir) == 0) ≡ false = ground arith in
    let kept : take (suc (length dir)) path ≡ d ∷ dir =
      take_full (suc (length dir)) (d ∷ dir) (b'/' ∷ name) (omega arith)
      ∙ take_all (suc (length dir)) (d ∷ dir) (omega arith) in
    rw (longer, last, nested, kept) refl

not_slash : (name : List ℕ) → IsName name → name ≢ b'/' ∷ []
not_slash [] plain = cc
not_slash (c ∷ name) (n, plain) = λ e. n (ap (λ s. get_or s 0 0) e)

module _ {S : Type 0} (sys : System S) where
  cd_up : (path : List ℕ) (t : S) → cmd_cd sys path (b'.' ∷ b'.' ∷ []) t ≡ (go_up path, t)
  unfolding cmd_cd strcmp
  cd_up path t = refl

  -- cd with the name of an entry of the current directory that can be opened as a directory makes
  -- the path of the entry the current path and closes the node; `cd ..` then makes the path of the
  -- directory before the current one again.
  pub cmd_cd-cmd_cd :
      (dir name : List ℕ) (s s0 s1 t : S) (node flags : ℕ)
      → EndsInName dir
      → IsName name
      → IsCString name
      → 0 < length name
      → name ≢ b'.' ∷ b'.' ∷ []
      → length dir + length name + 1 < 256
      → sys.vfs_open (dir ++ (b'/' ∷ name)) s ≡ (node, s0)
      → 0 < node
      → sys.flags node s0 ≡ (flags, s1)
      → has vfs_dir flags ≡ true
      → (cmd_cd sys (directory dir) name s ≡ (dir ++ (b'/' ∷ name), sys.vfs_close node s1))
        × (cmd_cd sys (dir ++ (b'/' ∷ name)) (b'.' ∷ b'.' ∷ []) t ≡ (directory dir, t))
  unfolding cmd_cd enter
  cmd_cd-cmd_cd dir [] s s0 s1 t node flags e plain text some_name other fits opened hn seen flag =
      absurd (omega (arith, some_name))
  cmd_cd-cmd_cd dir (c ∷ name) s s0 s1 t node flags e plain text some_name other fits opened hn seen
        flag =
      let whole = dir ++ (b'/' ∷ c ∷ name) in
      let short : take 255 whole ≡ whole =
        take_all 255 whole (omega (arith, fits, length-append dir (b'/' ∷ c ∷ name))) in
      let resolved : path_resolve (directory dir) (c ∷ name) 256 ≡ whole =
        path_resolve-take (directory dir) (c ∷ name) 256 (omega arith)
        ∙ ap (take 255) (absolute-directory dir (c ∷ name) e plain some_name)
        ∙ short in
      let there : (node == 0) ≡ false = ground (arith, hn) in
      let slash =
        different (c ∷ name) (b'/' ∷ []) text (ground arith) (not_slash (c ∷ name) plain) in
      let dots = different (c ∷ name) (b'.' ∷ b'.' ∷ []) text (ground arith) other in
      let copied = (strlcpy_lem (directory dir) whole 256 (omega arith)).0 ∙ short in
      (
        rw (slash, dots, resolved, opened, there, seen, flag, copied) refl,
        cd_up whole t ∙ ap (λ p. (p, t)) (go_up-directory dir (c ∷ name) plain some_name),
      )
