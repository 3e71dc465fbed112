-- ===== src/Klibc/Strings.antt =====
-- The string functions: bounds of the copy, and what the comparisons decide.
use yotos.Base.{
  ℕ, zero, suc, ◌+◌, ◌-◌, ◌<◌, ◌≡◌, refl, ap, ◌↔◌, true, ◌&&◌, List, [], ◌∷◌, map, arith, ltb, leb,
  if◌then◌else◌, update, length, take, length-take, u8,
}
use mathlib.Core.Path.{subst}
use yotos.Base.Int.{pos}
use yotos.Klibc.{strlen, strcmp, strlcpy, copy_loop, to_upper, strcasecmp, memset}

-- The bytes of a C string are not zero and below 256.
abbrev pub IsCString : List ℕ → Type 0
IsCString [] = Unit
IsCString (c ∷ s) = (0 < c) × (c < 256) × IsCString s

strcmp_self : (s : List ℕ) → strcmp s s ≡ pos 0
unfolding strcmp
strcmp_self [] = refl
strcmp_self (c ∷ s) = ground (arith, strcmp_self s)

eq_of_strcmp : (s t : List ℕ) → IsCString s → IsCString t → strcmp s t ≡ pos 0 → s ≡ t
unfolding strcmp
eq_of_strcmp [] [] hs ht h = refl
eq_of_strcmp [] (d ∷ t) hs ht h = absurd (ground arith)
eq_of_strcmp (c ∷ s) [] hs ht h = absurd (ground arith)
eq_of_strcmp (c ∷ s) (d ∷ t) hs ht h = ground (arith, eq_of_strcmp s t hs.2 ht.2)

-- `strcmp` is 0 exactly on equal strings.
pub strcmp-zero_iff : (s t : List ℕ) → IsCString s → IsCString t → (strcmp s t ≡ pos 0) ↔ (s ≡ t)
strcmp-zero_iff s t hs ht =
    (eq_of_strcmp s t hs ht, λ e. subst (λ u. strcmp s u ≡ pos 0) e (strcmp_self s))

eq_of_strcasecmp :
    (s t : List ℕ)
    → IsCString s
    → IsCString t
    → strcasecmp s t ≡ pos 0
    → map to_upper s ≡ map to_upper t
unfolding strcasecmp to_upper
eq_of_strcasecmp [] [] hs ht h = refl
eq_of_strcasecmp [] (d ∷ t) hs ht h = absurd (ground arith)
eq_of_strcasecmp (c ∷ s) [] hs ht h = absurd (ground arith)
eq_of_strcasecmp (c ∷ s) (d ∷ t) hs ht h = ground (arith, eq_of_strcasecmp s t hs.2 ht.2)

strcasecmp_of_eq : (s t : List ℕ) → map to_upper s ≡ map to_upper t → strcasecmp s t ≡ pos 0
unfolding strcasecmp
strcasecmp_of_eq [] [] h = refl
strcasecmp_of_eq [] (d ∷ t) h = cc
strcasecmp_of_eq (c ∷ s) [] h = cc
strcasecmp_of_eq (c ∷ s) (d ∷ t) h = ground (arith, strcasecmp_of_eq s t)

-- `strcasecmp` is 0 exactly on strings that agree once the letters a to z are made capitals.
pub strcasecmp-zero_iff :
    (s t : List ℕ)
    → IsCString s
    → IsCString t
    → (strcasecmp s t ≡ pos 0) ↔ (map to_upper s ≡ map to_upper t)
strcasecmp-zero_iff s t hs ht = (eq_of_strcasecmp s t hs ht, strcasecmp_of_eq s t)

pub copy_loop-take : (room : ℕ) (s : List ℕ) → copy_loop room s ≡ take room s
unfolding copy_loop
copy_loop-take zero s = refl
copy_loop-take (suc room) [] = refl
copy_loop-take (suc room) (c ∷ s) = ap (λ r. c ∷ r) (copy_loop-take room s)

pub strlen-length : (s : List ℕ) → strlen s ≡ length s
unfolding strlen
strlen-length [] = refl
strlen-length (c ∷ s) = ap suc (strlen-length s)

-- `strlcpy` into a buffer of `size` bytes, one at least, leaves the longest prefix that fits
-- with its final zero, and returns the length of the whole source.
pub strlcpy_lem :
    (dst src : List ℕ) (size : ℕ)
    → 0 < size
    → ((strlcpy dst src size).0 ≡ take (size - 1) src)
      × (length (strlcpy dst src size).0 < size)
      × ((strlcpy dst src size).1 ≡ length src)
unfolding strlcpy
strlcpy_lem dst src size h =
    let some_room : ltb 0 size ≡ true = ground arith in
    rw (some_room, copy_loop-take, strlen-length)
      (refl, omega (arith, length-take (size - 1) src), refl)

-- `memset` writes the value, cut to a byte, to the bytes of the range and to no other.
pub memset_lem :
    (at value size : ℕ) (m : ℕ → ℕ) (i : ℕ)
    → memset at value size m i ≡ (if leb at i && ltb i (at + size) then u8 value else m i)
unfolding memset
memset_lem at value zero m i = ground arith
memset_lem at value (suc size) m i =
    ground (arith, memset_lem (at + 1) value size (update m at (u8 value)) i)
