-- ===== src/Fat16/Names/RoundTrip.antt =====
-- From a name to its 8.3 form and back.
use yotos.Base.{
  ℕ, zero, suc, ◌+◌, ◌-◌, ◌<◌, ◌≡◌, refl, sym, ap, ◌∙◌, ◌≢◌, inl, inr, true, false, none, some,
  List, [], ◌∷◌, ◌++◌, map, arith, Option-cases, length, take, drop, replicate, length-drop,
}
use mathlib.Core.List.{map-append, append-nil}
use mathlib.Core.Path.{ap₂}
use yotos.Base.Int.{ℤ, pos, negsuc}
use yotos.Klibc.{to_upper, strcasecmp}
use yotos.Klibc.Strings.{IsCString, strlen-length, strcasecmp-zero_iff}
use yotos.Fat16.Names.{
  Name83, trim, has_ext, format_83, find_dot, fill_field, format_name_83, c_string, name_match,
  is_zero,
}

-- No blank among the characters.
abbrev pub NoBlank : List ℕ → Type 0
NoBlank [] = Unit
NoBlank (c ∷ s) = (c ≢ b' ') × NoBlank s

trim_blanks : (n : ℕ) → trim (replicate n b' ') ≡ []
unfolding trim
trim_blanks zero = refl
trim_blanks (suc n) = rw (trim_blanks n)

-- Padding is what trimming takes away.
trim-pad : (s : List ℕ) (n : ℕ) → NoBlank s → trim (s ++ replicate n b' ') ≡ s
unfolding trim
trim-pad [] n h = trim_blanks n
trim-pad (c ∷ []) n h = ground (arith, trim_blanks n)
trim-pad (c ∷ d ∷ s) n h = rw (trim-pad (d ∷ s) n h.1)

NoBlank-to_upper : (s : List ℕ) → NoBlank s → NoBlank (map to_upper s)
unfolding to_upper
NoBlank-to_upper [] h = tt
NoBlank-to_upper (c ∷ s) h = ground (arith, NoBlank-to_upper s)

trim-fill_field : (n : ℕ) (s : List ℕ) → NoBlank s → trim (fill_field n s) ≡ map to_upper s
unfolding fill_field
trim-fill_field n s h = trim-pad (map to_upper s) (n - length s) (NoBlank-to_upper s h)

take_all : (s : List ℕ) → take (length s) s ≡ s
take_all [] = refl
take_all (c ∷ s) = ap (λ r. c ∷ r) (take_all s)

-- The first dot stands between the base and the extension.
find_dot-split :
    (s : List ℕ) (d : ℕ)
    → find_dot s ≡ some d
    → (s ≡ take d s ++ b'.' ∷ drop (suc d) s) × (d < length s)
unfolding find_dot
find_dot-split [] d h = cc
find_dot-split (c ∷ s) zero h = ground arith
find_dot-split (c ∷ s) (suc d) h =
    let (e, lt) = find_dot-split s d (ground arith) in (ap (λ r. c ∷ r) e, omega arith)

NoBlank-take : (n : ℕ) (s : List ℕ) → NoBlank s → NoBlank (take n s)
NoBlank-take zero s h = tt
NoBlank-take (suc n) [] h = tt
NoBlank-take (suc n) (c ∷ s) h = (h.0, NoBlank-take n s h.1)

NoBlank-drop : (n : ℕ) (s : List ℕ) → NoBlank s → NoBlank (drop n s)
NoBlank-drop zero s h = h
NoBlank-drop (suc n) [] h = tt
NoBlank-drop (suc n) (c ∷ s) h = NoBlank-drop n s h.1

-- What `format_name_83` makes of a name without a dot …
format_name_83-base :
    (name : List ℕ) (e : Name83)
    → find_dot name ≡ none
    → format_name_83 name ≡ some e
    → e ≡ record { name = fill_field 8 name; ext = fill_field 3 [] }
unfolding format_name_83
format_name_83-base name e dot h = ground (arith, strlen-length name, take_all name)

-- … and of a base and an extension.
format_name_83-dot :
    (name : List ℕ) (d : ℕ) (e : Name83)
    → find_dot name ≡ some d
    → format_name_83 name ≡ some e
    → e ≡ record { name = fill_field 8 (take d name); ext = fill_field 3 (drop (d + 1) name) }
unfolding format_name_83
format_name_83-dot name d e dot h = ground arith

map_split :
    (xs ys : List ℕ) → map to_upper (xs ++ b'.' ∷ ys) ≡ map to_upper xs ++ b'.' ∷ map to_upper ys
map_split xs ys =
    map-append to_upper xs (b'.' ∷ ys)
    ∙ ap (λ c. map to_upper xs ++ c ∷ map to_upper ys) (unfold to_upper in refl)

has_ext-fill_field : (s : List ℕ) → NoBlank s → 0 < length s → has_ext (fill_field 3 s) ≡ true
unfolding fill_field to_upper
has_ext-fill_field [] h p = absurd (omega arith)
has_ext-fill_field (c ∷ s) h p = ground arith

format_83-dotted :
    (base ext : List ℕ)
    → NoBlank base
    → NoBlank ext
    → 0 < length ext
    → format_83 (record { name = fill_field 8 base; ext = fill_field 3 ext })
      ≡ map to_upper base ++ b'.' ∷ map to_upper ext
unfolding format_83
format_83-dotted base ext hb he p =
    rw (has_ext-fill_field ext he p, trim-fill_field 8 base hb, trim-fill_field 3 ext he)

format_83-plain :
    (base : List ℕ)
    → NoBlank base
    → format_83 (record { name = fill_field 8 base; ext = fill_field 3 [] }) ≡ map to_upper base
unfolding format_83
format_83-plain base hb =
    rw (trim-fill_field 8 base hb) (unfold fill_field in append-nil (map to_upper base))

-- A name that has an 8.3 form, has no blank in it and does not end with its first dot comes back
-- from that form as its capitals.
pub format_83-format_name_83 :
    (name : List ℕ) (e : Name83)
    → format_name_83 name ≡ some e
    → NoBlank name
    → find_dot name ≢ some (length name - 1)
    → format_83 e ≡ map to_upper name
format_83-format_name_83 name e h clean inner = elim (Option-cases (find_dot name)) [
  | inl dot ↦ rw (format_name_83-base name e dot h) (format_83-plain name clean)
  | inr (d, dot) ↦
      let (whole, below) = find_dot-split name d dot in
      let next : d + 1 ≡ suc d = omega arith in
      let not_last : d ≢ length name - 1 = λ same. inner (dot ∙ ap some same) in
      let rest : 0 < length (drop (suc d) name) = omega (arith, length-drop (suc d) name) in
      rw (format_name_83-dot name d e dot h, next)
        (format_83-dotted (take d name) (drop (suc d) name) (NoBlank-take d name clean)
            (NoBlank-drop (suc d) name clean) rest
          ∙ sym (map_split (take d name) (drop (suc d) name))
          ∙ ap (map to_upper) (sym whole))
]

to_upper-to_upper : (c : ℕ) → to_upper (to_upper c) ≡ to_upper c
unfolding to_upper
to_upper-to_upper c = ground arith

map-to_upper_twice : (s : List ℕ) → map to_upper (map to_upper s) ≡ map to_upper s
map-to_upper_twice [] = refl
map-to_upper_twice (c ∷ s) = ap₂ ◌∷◌ (to_upper-to_upper c) (map-to_upper_twice s)

IsCString-to_upper : (s : List ℕ) → IsCString s → IsCString (map to_upper s)
unfolding to_upper
IsCString-to_upper [] h = tt
IsCString-to_upper (c ∷ s) h = ground (arith, IsCString-to_upper s)

c_string_whole : (s : List ℕ) → IsCString s → c_string s ≡ s
unfolding c_string
c_string_whole [] h = refl
c_string_whole (c ∷ s) h = ground (arith, c_string_whole s)

-- A name that has an 8.3 form, has no blank in it and does not end with its first dot matches
-- the entry that is made of it, whatever letters are capitals.
pub name_match-format_name_83 :
    (name : List ℕ) (e : Name83)
    → format_name_83 name ≡ some e
    → IsCString name
    → NoBlank name
    → find_dot name ≢ some (length name - 1)
    → name_match e name ≡ true
unfolding name_match
name_match-format_name_83 name e h bytes clean inner =
    let upper = IsCString-to_upper name bytes in
    rw (
      format_83-format_name_83 name e h clean inner,
      c_string_whole (map to_upper name) upper,
      (strcasecmp-zero_iff (map to_upper name) name upper bytes).1 (map-to_upper_twice name),
    )

find_dot_last : (s : List ℕ) → find_dot s ≡ none → find_dot (s ++ b'.' ∷ []) ≡ some (length s)
unfolding find_dot
find_dot_last [] h = refl
find_dot_last (c ∷ s) h = ground (arith, find_dot_last s)

take_front : (s t : List ℕ) → take (length s) (s ++ t) ≡ s
take_front [] t = refl
take_front (c ∷ s) t = ap (λ r. c ∷ r) (take_front s t)

drop_front : (s : List ℕ) (c : ℕ) → drop (suc (length s)) (s ++ c ∷ []) ≡ []
drop_front [] c = refl
drop_front (d ∷ s) c = drop_front s c

-- A name that ends with its first dot has an entry without the dot, since `format_83` writes none
-- before an empty extension; so the entry that is made of the name does not match the name.
pub name_match-trailing_dot :
    (base : List ℕ) (e : Name83)
    → IsCString base
    → NoBlank base
    → find_dot base ≡ none
    → format_name_83 (base ++ b'.' ∷ []) ≡ some e
    → (format_83 e ≡ map to_upper base) × (name_match e (base ++ b'.' ∷ []) ≡ false)
unfolding name_match
name_match-trailing_dot base e bytes clean none_inside h =
    (shown, rw (shown, c_string_whole (map to_upper base) upper) (differs _ refl))
  where
    upper : IsCString (map to_upper base)
    upper = IsCString-to_upper base bytes

    next : length base + 1 ≡ suc (length base)
    next = omega arith

    form : e ≡ record { name = fill_field 8 base; ext = fill_field 3 [] }
    form =
        format_name_83-dot (base ++ b'.' ∷ []) (length base) e (find_dot_last base none_inside) h
        ∙ rw (next, take_front base (b'.' ∷ []), drop_front base b'.')

    shown : format_83 e ≡ map to_upper base
    shown = rw form (format_83-plain base clean)

    IsCString-dot : (s : List ℕ) → IsCString s → IsCString (s ++ b'.' ∷ [])
    IsCString-dot [] k = omega arith
    IsCString-dot (c ∷ s) k = (k.0, k.1, IsCString-dot s k.2)

    unequal : (s : List ℕ) → map to_upper (map to_upper s) ≢ map to_upper (s ++ b'.' ∷ [])
    unequal [] eq = cc
    unequal (c ∷ s) eq = unequal s (cc)

    differs : (z : ℤ) → strcasecmp (map to_upper base) (base ++ b'.' ∷ []) ≡ z → is_zero z ≡ false
    differs (pos zero) eq = absurd (
        unequal base (
          (strcasecmp-zero_iff (map to_upper base) (base ++ b'.' ∷ []) upper
              (IsCString-dot base bytes)).0
            eq))
    differs (pos (suc n)) eq = refl
    differs (negsuc n) eq = refl
