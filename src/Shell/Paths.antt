-- ===== src/Shell/Paths.antt =====
-- shell/builtins.c: the helpers on paths. A path is the list of its bytes, without the zero that
-- ends it; an argument that is the null pointer is handled as the empty one.
pub mod Resolve
pub mod Parent
use yotos.Base.{
  ℕ, zero, suc, ◌+◌, ◌-◌, ◌&&◌, not, List, [], ◌∷◌, ◌++◌, Bool, true, false, ltb, ◌==◌,
  if◌then◌else◌, get_or, drop,
}
use yotos.Klibc.{strlcpy, strlen}

-- `!s[0]`
abbrev pub is_empty : List ℕ → Bool
is_empty [] = true
is_empty (c ∷ s) = false

-- The path relative to the current one, in a buffer of `size` bytes.
unfoldable pub resolve_relative : (current_path arg : List ℕ) → ℕ → List ℕ
resolve_relative current_path arg size =
    let out = (strlcpy [] current_path size).0 in
    let len = strlen out in
    let separated =
      if ltb 0 len && not (get_or out (len - 1) 0 == b'/') && ltb len (size - 1)
      then out ++ (b'/' ∷ [])
      else out in
    let len' = strlen separated in separated ++ (strlcpy [] arg (size - len')).0

-- The string that `out` holds, `size` bytes long, when `path_resolve` returns.
unfoldable pub path_resolve : (current_path arg : List ℕ) → ℕ → List ℕ
path_resolve current_path arg size =
    if is_empty arg
    then (strlcpy [] current_path size).0
    else if get_or arg 0 0 == b'/'
    then (strlcpy [] arg size).0
    else resolve_relative current_path arg size

-- The loop that finds the last '/' of a path, from the index `i` on.
unfoldable pub last_slash : (i last : ℕ) → List ℕ → ℕ
last_slash i last [] = last
last_slash i last (c ∷ s) = last_slash (suc i) (if c == b'/' then i else last) s

-- `for (i = 0; i < last && i < psz - 1; i++)`, with `left` for last - i and `room` for
-- psz - 1 - i.
unfoldable pub copy_parent : (left room : ℕ) → List ℕ → List ℕ
copy_parent zero room s = []
copy_parent (suc left) zero s = []
copy_parent (suc left) (suc room) [] = []
copy_parent (suc left) (suc room) (c ∷ s) = c ∷ copy_parent left room s

-- The parent and the base name, in buffers of `psz` and `bsz` bytes.
unfoldable pub path_parent_and_name : List ℕ → (psz bsz : ℕ) → List ℕ × List ℕ
path_parent_and_name resolved psz bsz =
    let last = last_slash 0 0 resolved in
    if last == 0
    then ((strlcpy [] (b'/' ∷ []) psz).0, (strlcpy [] (drop 1 resolved) bsz).0)
    else (copy_parent last (psz - 1) resolved, (strlcpy [] (drop (last + 1) resolved) bsz).0)
