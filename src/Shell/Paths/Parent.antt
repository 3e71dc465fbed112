-- ===== src/Shell/Paths/Parent.antt =====
-- How `path_parent_and_name` takes a path apart.
use yotos.Base.{
  ℕ, zero, suc, ◌+◌, ◌-◌, ◌<◌, ◌≡◌, refl, sym, ap, ◌∙◌, ◌≢◌, false, List, [], ◌∷◌, ◌++◌, arith,
  ◌==◌, if◌then◌else◌, length, take, drop, All, length-append, append_assoc, take_all, drop-append,
}
use yotos.Shell.Paths.{last_slash, copy_parent, path_parent_and_name, path_resolve}
use yotos.Shell.Paths.Resolve.{separator, absolute, copied, path_resolve-take}

-- A string without a '/'.
abbrev pub IsName : List ℕ → Type 0
IsName s = All (λ c. c ≢ b'/') s

last_slash-name : (i last : ℕ) (s : List ℕ) → IsName s → last_slash i last s ≡ last
unfolding last_slash
last_slash-name i last [] h = refl
last_slash-name i last (c ∷ s) (n, h) =
    let other : (c == b'/') ≡ false = ground (arith, n) in
    rw other (last_slash-name (suc i) last s h)

-- The loop finds the '/' behind which there is a name.
pub last_slash-append :
    (i last : ℕ) (s t : List ℕ) → IsName t → last_slash i last (s ++ (b'/' ∷ t)) ≡ i + length s
unfolding last_slash
last_slash-append i last [] t h = last_slash-name (suc i) i t h ∙ omega arith
last_slash-append i last (c ∷ s) t h =
    last_slash-append (suc i) (if c == b'/' then i else last) s t h ∙ omega arith

copy_parent-take : (d t : List ℕ) (room : ℕ) → copy_parent (length d) room (d ++ t) ≡ take room d
unfolding copy_parent
copy_parent-take [] t zero = refl
copy_parent-take [] t (suc room) = refl
copy_parent-take (c ∷ d) t zero = refl
copy_parent-take (c ∷ d) t (suc room) = ap (λ s. c ∷ s) (copy_parent-take d t room)

drop_past : (d t : List ℕ) (c : ℕ) → drop (length d + 1) (d ++ (c ∷ t)) ≡ t
drop_past d t c =
    ap (drop (length d + 1)) (sym (append_assoc d (c ∷ []) t))
    ∙ ap (λ n. drop n ((d ++ (c ∷ [])) ++ t)) (sym (length-append d (c ∷ [])))
    ∙ drop-append (d ++ (c ∷ [])) t

-- A directory that is the root has an empty path in front of the '/'.
abbrev pub directory : List ℕ → List ℕ
directory [] = b'/' ∷ []
directory (c ∷ d) = c ∷ d

-- A path is taken apart at its last '/': the name behind it, and what stands in front of it, or "/"
-- if nothing does, when the buffers have room for them.
pub path_parent_and_name-split :
    (dir name : List ℕ) (psz bsz : ℕ)
    → IsName name
    → 1 < psz
    → length dir < psz
    → length name < bsz
    → path_parent_and_name (dir ++ (b'/' ∷ name)) psz bsz ≡ (directory dir, name)
unfolding path_parent_and_name
path_parent_and_name-split [] name psz bsz plain h hp hb =
    let last : last_slash 0 0 (b'/' ∷ name) ≡ 0 = last_slash-append 0 0 [] name plain in
    rw (last, copied (b'/' ∷ []) psz (omega (arith, h)), copied name bsz (omega (arith, hb)))
      (rw
        (
          take_all {A = ℕ} (psz - 1) (b'/' ∷ []) (omega (arith, h)),
          take_all (bsz - 1) name (omega (arith, hb)),
        )
        refl)
path_parent_and_name-split (c ∷ d) name psz bsz plain h hp hb =
    let last : last_slash 0 0 ((c ∷ d) ++ (b'/' ∷ name)) ≡ suc (length d) =
      last_slash-append 0 0 (c ∷ d) name plain ∙ omega arith in
    let nested : (suc (length d) == 0) ≡ false = ground arith in
    rw (last, nested, copy_parent-take (c ∷ d) (b'/' ∷ name) (psz - 1))
      (rw (take_all (psz - 1) (c ∷ d) (omega (arith, hp)), drop_past (c ∷ d) name b'/')
        (rw (copied name bsz (omega (arith, hb)))
          (rw (take_all (bsz - 1) name (omega (arith, hb))) refl)))

-- A directory's path does not end in a '/', unless it is that of the root.
abbrev pub EndsInName : List ℕ → Type 0
EndsInName [] = Unit
EndsInName (c ∷ d) = separator (c ∷ d) ≡ b'/' ∷ []

pub absolute-directory :
    (dir name : List ℕ)
    → EndsInName dir
    → IsName name
    → 0 < length name
    → absolute (directory dir) name ≡ dir ++ (b'/' ∷ name)
absolute-directory dir [] e plain h = absurd (omega (arith, h))
absolute-directory [] (c ∷ name) e (n, plain) h =
    let other : (c == b'/') ≡ false = ground (arith, n) in rw other refl
absolute-directory (b ∷ d) (c ∷ name) e (n, plain) h =
    let other : (c == b'/') ≡ false = ground (arith, n) in rw (other, e) refl

-- The name of an entry of the current directory, made an absolute path and taken apart again, gives
-- the current directory and the name, when the path is shorter than 256 bytes and the name shorter
-- than 128.
pub path_parent_and_name-path_resolve :
    (dir name : List ℕ)
    → EndsInName dir
    → IsName name
    → 0 < length name
    → length name < 128
    → length dir + length name + 1 < 256
    → path_parent_and_name (path_resolve (directory dir) name 256) 256 128 ≡ (directory dir, name)
path_parent_and_name-path_resolve dir name e plain h hb hp =
    let resolved : path_resolve (directory dir) name 256 ≡ dir ++ (b'/' ∷ name) =
      path_resolve-take (directory dir) name 256 (omega arith)
      ∙ ap (take 255) (absolute-directory dir name e plain h)
      ∙ take_all 255 (dir ++ (b'/' ∷ name)) (omega (arith, hp, length-append dir (b'/' ∷ name))) in
    ap (λ p. path_parent_and_name p 256 128) resolved
    ∙ path_parent_and_name-split dir name 256 128 plain (omega arith) (omega (arith, hp)) hb
