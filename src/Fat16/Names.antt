-- ===== src/Fat16/Names.antt =====
-- The 8.3 names of fs/fat16.c.
pub mod RoundTrip
use yotos.Base.{
  ℕ, zero, suc, ◌+◌, ◌-◌, Bool, true, false, not, ◌&&◌, ◌||◌, Option, none, some, List, [], ◌∷◌,
  ◌++◌, map, ltb, leb, ◌==◌, if◌then◌else◌, take, drop, replicate, length,
}
use yotos.Base.Int.{ℤ, pos}
use yotos.Klibc.{to_upper, strcasecmp, strlen}

-- The 8 + 3 bytes of a directory entry's name.
pub record Name83 : Type 0 where
  pub name : List ℕ
  pub ext : List ℕ

-- The bytes up to the last one that is no blank: `last` is searched from the end.
unfoldable pub trim : List ℕ → List ℕ
trim [] = []
trim (c ∷ s) = elim (trim s) [ [] ↦ if c == b' ' then [] else c ∷ [] | d ∷ r ↦ c ∷ d ∷ r ]

-- `e->ext[0] != ' '`
abbrev pub has_ext : List ℕ → Bool
has_ext [] = false
has_ext (c ∷ s) = not (c == b' ')

unfoldable pub format_83 : Name83 → List ℕ
unfolding trim
format_83 e = trim e.name ++ (if has_ext e.ext then b'.' ∷ trim e.ext else [])

-- The index of the first dot.
unfoldable pub find_dot : List ℕ → Option ℕ
find_dot [] = none
find_dot (c ∷ s) =
    let rest = find_dot s in
    if c == b'.' then some 0 else elim rest [ none ↦ none | some i ↦ some (i + 1) ]

-- The characters, as capitals, in a field of n bytes padded with blanks.
unfoldable pub fill_field : ℕ → List ℕ → List ℕ
fill_field n s = map to_upper s ++ replicate (n - length s) b' '

-- `none` is the -1 of the C function.
unfoldable pub format_name_83 : List ℕ → Option Name83
unfolding find_dot fill_field strlen
format_name_83 name =
    let dot = find_dot name in
    let len = strlen name in
    let name_len : ℕ = elim dot [ some d ↦ d | none ↦ len ] in
    let ext_len : ℕ = elim dot [ some d ↦ len - d - 1 | none ↦ 0 ] in
    let ext : List ℕ = elim dot [ some d ↦ drop (d + 1) name | none ↦ [] ] in
    if (name_len == 0) || ltb 8 name_len
    then none
    else if ltb 3 ext_len
    then none
    else some (record { name = fill_field 8 (take name_len name); ext = fill_field 3 ext })

-- A buffer read as a C string ends at its first zero byte.
unfoldable pub c_string : List ℕ → List ℕ
c_string [] = []
c_string (c ∷ s) = if c == 0 then [] else c ∷ c_string s

abbrev pub is_zero : ℤ → Bool
is_zero (pos zero) = true
is_zero _ = false

unfoldable pub name_match : Name83 → List ℕ → Bool
unfolding format_83
name_match e name = is_zero (strcasecmp (c_string (format_83 e)) name)
