-- ===== src/Shell/Paths/Resolve.antt =====
-- What `path_resolve` computes: the absolute path, cut to the buffer.
use yotos.Base.{
  ℕ, zero, suc, ◌-◌, ◌≤◌, ◌<◌, ◌≡◌, refl, sym, ap, ◌∙◌, inl, inr, true, not, ◌&&◌, List, [], ◌∷◌,
  ◌++◌, arith, ltb, ◌==◌, if◌then◌else◌, Bool-cases, length, get_or, take, length-append,
  length-take, append_assoc, take_all, take-append, take_full,
}
use native.Mathlib.Decide.{dec_lt}
use yotos.Klibc.{strlcpy}
use yotos.Klibc.Strings.{copy_loop-take, strlen-length}
use yotos.Shell.Paths.{resolve_relative, path_resolve}

-- What stands between a directory and a name in it: a '/' unless the directory ends in one.
abbrev pub separator : List ℕ → List ℕ
separator [] = []
separator (c ∷ []) = if c == b'/' then [] else b'/' ∷ []
separator (c ∷ d ∷ s) = separator (d ∷ s)

-- The whole path that an argument names, however long.
abbrev pub absolute : (current_path arg : List ℕ) → List ℕ
absolute current_path [] = current_path
absolute current_path (c ∷ arg) =
    if c == b'/' then c ∷ arg else current_path ++ (separator current_path ++ (c ∷ arg))

pub copied : (s : List ℕ) (size : ℕ) → 0 < size → (strlcpy [] s size).0 ≡ take (size - 1) s
unfolding strlcpy
copied s size h =
    let some_room : ltb 0 size ≡ true = ground arith in rw (some_room, copy_loop-take) refl

-- What the test for the separator comes to on a path that is shorter than `n`.
separated : List ℕ → ℕ → List ℕ
separated s n =
    if ltb 0 (length s) && not (get_or s (length s - 1) 0 == b'/') && ltb (length s) n
    then s ++ (b'/' ∷ [])
    else s

separated_cons :
    (c d : ℕ) (s : List ℕ) (n : ℕ) → separated (c ∷ d ∷ s) (suc n) ≡ c ∷ separated (d ∷ s) n
unfolding separated
separated_cons c d s n = ground arith

separated-separator : (s : List ℕ) (n : ℕ) → length s < n → separated s n ≡ s ++ separator s
unfolding separated
separated-separator s zero h = absurd (omega (arith, h))
separated-separator [] (suc n) h = refl
separated-separator (c ∷ []) (suc n) h = ground (arith, h)
separated-separator (c ∷ d ∷ s) (suc n) h =
    separated_cons c d s n ∙ ap (λ t. c ∷ t) (separated-separator (d ∷ s) n (omega (arith, h)))

separated_full : (s : List ℕ) (n : ℕ) → n ≤ length s → separated s n ≡ s
unfolding separated
separated_full s n h = ground arith

-- The path is built in three steps: the current path, the separator, the argument.
relative-steps :
    (p arg : List ℕ) (size : ℕ)
    → 0 < size
    → let out = separated (take (size - 1) p) (size - 1) in
      resolve_relative p arg size ≡ out ++ (strlcpy [] arg (size - length out)).0
unfolding resolve_relative separated
relative-steps p arg size h = rw (copied p size h, strlen-length, strlen-length) refl

-- `strlcpy` behind a string that is shorter than the buffer.
fill :
    (out arg : List ℕ) (size : ℕ)
    → length out < size
    → out ++ (strlcpy [] arg (size - length out)).0 ≡ take (size - 1) (out ++ arg)
fill out arg size h =
    let left : size - length out - 1 ≡ size - 1 - length out = omega (arith, h) in
    let whole = take_all (size - 1) out (omega (arith, h)) in
    rw (copied arg (size - length out) (omega (arith, h)), take-append, whole, left) refl

separator_short : (s : List ℕ) → length (separator s) ≤ 1
separator_short [] = omega arith
separator_short (c ∷ []) = ground arith
separator_short (c ∷ d ∷ s) = separator_short (d ∷ s)

relative-take :
    (p arg : List ℕ) (size : ℕ)
    → 0 < size
    → resolve_relative p arg size ≡ take (size - 1) (p ++ (separator p ++ arg))
relative-take p arg size h = relative-steps p arg size h ∙ elim (dec_lt (length p) (size - 1)) [
  | yes short ↦
      let out : separated (take (size - 1) p) (size - 1) ≡ p ++ separator p =
        ap (λ q. separated q (size - 1)) (take_all (size - 1) p (omega (arith, short)))
        ∙ separated-separator p (size - 1) short in
      let room : length (p ++ separator p) < size =
        omega (arith, short, length-append p (separator p), separator_short p) in
      rw out (fill (p ++ separator p) arg size room)
      ∙ ap (take (size - 1)) (append_assoc p (separator p) arg)
  | no long ↦
      let cut : length (take (size - 1) p) ≡ size - 1 =
        omega (arith, long, length-take (size - 1) p) in
      rw (separated_full (take (size - 1) p) (size - 1) (omega (arith, cut)))
        (fill (take (size - 1) p) arg size (omega (arith, cut, h)))
      ∙ take_full (size - 1) (take (size - 1) p) arg (omega (arith, cut))
      ∙ take_all (size - 1) (take (size - 1) p) (omega (arith, cut))
      ∙ sym (take_full (size - 1) p (separator p ++ arg) (omega (arith, long)))
]

-- `path_resolve` leaves the path that the argument names, cut to `size` - 1 bytes.
pub path_resolve-take :
    (current_path arg : List ℕ) (size : ℕ)
    → 0 < size
    → path_resolve current_path arg size ≡ take (size - 1) (absolute current_path arg)
unfolding path_resolve
path_resolve-take p [] size h = copied p size h
path_resolve-take p (c ∷ arg) size h = elim (Bool-cases (c == b'/')) [
  | inl e ↦ rw e (copied (c ∷ arg) size h)
  | inr e ↦ rw e (relative-take p (c ∷ arg) size h)
]
