-- ===== src/Fat16/Dir/Slots.antt =====
-- The slots of a directory's sector: what a written entry reads back as, and which slots a search
-- answers.
use yotos.Base.{
  ℕ, zero, suc, ◌+◌, ◌*◌, ◌^◌, ◌≤◌, ◌<◌, ◌≡◌, refl, sym, ap, ◌∙◌, ◌≢◌, ◌⊎◌, inl, inr, Bool, true,
  false, not, Option, none, some, List, [], ◌∷◌, arith, bit_and, ltb, ◌==◌, if◌then◌else◌, update,
  length, replicate,
}
use mathlib.Core.Path.{subst}
use yotos.Fat16.{Bytes, Volume, read_sector, u16_at, u32_at, set_u16, set_u32, bytes_at}
use yotos.Fat16.Names.{Name83, name_match}
use yotos.Fat16.Dir.{
  dir_entry, Skip, skip_entry, put_bytes, put_entry, Scan, find_in_sector, attributes_at, find_loop,
  dir_sector_lba,
}

put_bytes-before : (i : ℕ) (xs : List ℕ) (b : Bytes) (j : ℕ) → j < i → put_bytes i xs b j ≡ b j
unfolding put_bytes
put_bytes-before i [] b j h = refl
put_bytes-before i (x ∷ xs) b j h =
    put_bytes-before (suc i) xs (update b i x) j (omega arith) ∙ ground arith

put_bytes-after :
    (i : ℕ) (xs : List ℕ) (b : Bytes) (j : ℕ) → i + length xs ≤ j → put_bytes i xs b j ≡ b j
unfolding put_bytes
put_bytes-after i [] b j h = refl
put_bytes-after i (x ∷ xs) b j h =
    put_bytes-after (suc i) xs (update b i x) j (omega arith) ∙ ground arith

pub bytes_at-cong :
    (b c : Bytes) (i n : ℕ)
    → ((j : ℕ) → i ≤ j → j < i + n → b j ≡ c j)
    → bytes_at b i n ≡ bytes_at c i n
bytes_at-cong b c i zero h = refl
bytes_at-cong b c i (suc n) h =
    let head = h i (omega arith) (omega arith) in
    let tail = bytes_at-cong b c (i + 1) n (λ j p q. h j (omega arith) (omega arith)) in
    rw (head, tail) refl

bytes_at-put_bytes :
    (i : ℕ) (xs : List ℕ) (b : Bytes) → bytes_at (put_bytes i xs b) i (length xs) ≡ xs
unfolding put_bytes
bytes_at-put_bytes i [] b = refl
bytes_at-put_bytes i (x ∷ xs) b =
    let head : put_bytes (suc i) xs (update b i x) i ≡ x =
      put_bytes-before (suc i) xs (update b i x) i (omega arith) ∙ ground arith in
    let tail = bytes_at-put_bytes (suc i) xs (update b i x) in
    let next : i + 1 ≡ suc i = omega arith in rw (head, next, tail) refl

-- The seven stages in which a slot is filled, at the byte `at`.
module _ (at fc fs a : ℕ) (n : Name83) (b0 : Bytes) (name_length : length n.name ≡ 8)
    (ext_length : length n.ext ≡ 3) where
  abbrev b1 : Bytes
  b1 = put_bytes (at + 8) n.ext (put_bytes at n.name b0)

  abbrev b3 : Bytes
  b3 = put_bytes (at + 12) (replicate 10 0) (update b1 (at + 11) a)

  abbrev b5 : Bytes
  b5 = set_u32 (set_u16 (set_u16 (set_u16 b3 (at + 22) 0) (at + 24) 0) (at + 26) fc) (at + 28) fs

  b5-low : (j : ℕ) → j < at + 22 → b5 j ≡ b3 j
  b5-low j h = ground arith

  b5-high : (j : ℕ) → at + 32 ≤ j → b5 j ≡ b3 j
  b5-high j h = ground arith

  b3-low : (j : ℕ) → j < at + 11 → b3 j ≡ b1 j
  b3-low j h =
      put_bytes-before (at + 12) (replicate 10 0) (update b1 (at + 11) a) j (omega arith)
      ∙ ground arith

  b5-name : bytes_at b5 at 8 ≡ n.name
  b5-name =
      bytes_at-cong b5 (put_bytes at n.name b0) at 8 (λ j p q.
        b5-low j (omega arith)
        ∙ b3-low j (omega arith)
        ∙ put_bytes-before (at + 8) n.ext (put_bytes at n.name b0) j (omega arith))
      ∙ ap (λ k. bytes_at (put_bytes at n.name b0) at k) (sym name_length)
      ∙ bytes_at-put_bytes at n.name b0

  b5-ext : bytes_at b5 (at + 8) 3 ≡ n.ext
  b5-ext =
      bytes_at-cong b5 b1 (at + 8) 3 (λ j p q. b5-low j (omega arith) ∙ b3-low j (omega arith))
      ∙ ap (λ k. bytes_at b1 (at + 8) k) (sym ext_length)
      ∙ bytes_at-put_bytes (at + 8) n.ext (put_bytes at n.name b0)

  b5-outside : (j : ℕ) → (j < at) ⊎ (at + 32 ≤ j) → b5 j ≡ b0 j
  b5-outside j (inl h) =
      b5-low j (omega arith)
      ∙ b3-low j (omega arith)
      ∙ put_bytes-before (at + 8) n.ext (put_bytes at n.name b0) j (omega arith)
      ∙ put_bytes-before at n.name b0 j h
  b5-outside j (inr h) =
      b5-high j h
      ∙ put_bytes-after (at + 12) (replicate 10 0) (update b1 (at + 11) a) j (omega arith)
      ∙ skip_one (at + 11) j (omega arith)
      ∙ put_bytes-after (at + 8) n.ext (put_bytes at n.name b0) j (omega (arith, ext_length))
      ∙ put_bytes-after at n.name b0 j (omega (arith, name_length))
    where
      skip_one : (k i : ℕ) → k < i → update b1 k a i ≡ b1 i
      skip_one k i l = ground arith

  b5-attributes : b5 (at + 11) ≡ a
  b5-attributes =
      b5-low (at + 11) (omega arith)
      ∙ put_bytes-before (at + 12) (replicate 10 0) (update b1 (at + 11) a) (at + 11) (omega arith)
      ∙ ground arith

  b5-words :
      fc < 2 ^ 16
      → fs < 2 ^ 32
      → (u16_at b5 (at + 22) ≡ 0)
        × (u16_at b5 (at + 24) ≡ 0)
        × (u16_at b5 (at + 26) ≡ fc)
        × (u32_at b5 (at + 28) ≡ fs)
  b5-words p q = (ground arith, ground arith, ground arith, ground arith)

pub dir_entry-cong :
    (j : ℕ) (b c : Bytes)
    → ((k : ℕ) → 32 * j ≤ k → k < 32 * j + 32 → b k ≡ c k)
    → dir_entry j b ≡ dir_entry j c
unfolding dir_entry
dir_entry-cong j b c h =
    let at = 32 * j in
    let name = bytes_at-cong b c at 8 (λ k p q. h k (omega arith) (omega arith)) in
    let ext = bytes_at-cong b c (at + 8) 3 (λ k p q. h k (omega arith) (omega arith)) in
    let reserved = bytes_at-cong b c (at + 12) 10 (λ k p q. h k (omega arith) (omega arith)) in
    let byte : (o : ℕ) → o < 32 → b (at + o) ≡ c (at + o) =
      λ o l. h (at + o) (omega arith) (omega arith) in
    let after : (o : ℕ) → o < 31 → b (at + o + 1) ≡ c (at + o + 1) =
      λ o l. h (at + o + 1) (omega arith) (omega arith) in
    let half : (o : ℕ) → o < 31 → u16_at b (at + o) ≡ u16_at c (at + o) =
      λ o l. rw (byte o (omega arith), after o l) refl in
    let upper : u16_at b (at + 28 + 2) ≡ u16_at c (at + 28 + 2) =
      let p = h (at + 28 + 2) (omega arith) (omega arith) in
      let q = h (at + 28 + 2 + 1) (omega arith) (omega arith) in rw (p, q) refl in
    let size : u32_at b (at + 28) ≡ u32_at c (at + 28) = rw (half 28 (omega arith), upper) refl in
    λ k. record {
      name83 = record { name = name k; ext = ext k };
      attributes = byte 11 (omega arith) k;
      reserved = reserved k;
      write_time = half 22 (omega arith) k;
      write_date = half 24 (omega arith) k;
      first_cluster = half 26 (omega arith) k;
      file_size = size k;
    }

-- Slot `i` holds a live entry of the name that is no volume label.
pub Answers : List ℕ → Bytes → ℕ → Type 0
Answers name sector i =
    (skip_entry i sector ≡ Skip.valid)
    × ((bit_and (attributes_at i sector) 0x08 == 0) ≡ true)
    × (name_match (dir_entry i sector).name83 name ≡ true)

-- The entry of a slot that is filled with a name of 8 and 3 bytes, a cluster of 16 bits and a size
-- of 32 bits is read back with the name, the attributes, the cluster and the size
-- that it was given, and every other slot of the sector reads as before.
pub dir_entry-put_entry :
    (i fc fs a : ℕ) (n : Name83) (b : Bytes)
    → length n.name ≡ 8
    → length n.ext ≡ 3
    → fc < 2 ^ 16
    → fs < 2 ^ 32
    → let e = dir_entry i (put_entry i n fc fs a b) in
      (e.name83 ≡ n)
      × (e.attributes ≡ a)
      × (e.first_cluster ≡ fc)
      × (e.file_size ≡ fs)
      × ((j : ℕ) → j ≢ i → dir_entry j (put_entry i n fc fs a b) ≡ dir_entry j b)
unfolding dir_entry put_entry
dir_entry-put_entry i fc fs a n b hn he hc hs =
    let words = b5-words (32 * i) fc fs a n b hn he hc hs in
    let name = b5-name (32 * i) fc fs a n b hn he in
    let ext = b5-ext (32 * i) fc fs a n b hn he in
    (
      λ k. record { name = name k; ext = ext k },
      b5-attributes (32 * i) fc fs a n b hn he,
      words.2,
      words.3,
      λ j ne.
          dir_entry-cong j (put_entry i n fc fs a b) b
            (λ k p q. b5-outside (32 * i) fc fs a n b hn he k (omega arith)),
    )

-- What one slot contributes to a search that finds slot `i`: the answer, or a slot to pass over.
pass_over :
    (first i : ℕ) (sk : Skip) (label m : Bool) (rest : Scan)
    → (elim sk as (λ _. Scan) [
      | Skip.end_of_directory ↦ Scan.ended
      | Skip.skipped ↦ rest
      | Skip.valid ↦ if not label then rest else if m then Scan.found first else rest
    ])
      ≡ Scan.found i
    → ((sk ≡ Skip.valid) × (label ≡ true) × (m ≡ true) × (first ≡ i))
      ⊎ ((rest ≡ Scan.found i)
          × (sk ≢ Skip.end_of_directory)
          × ¬ ((sk ≡ Skip.valid) × (label ≡ true) × (m ≡ true)))
pass_over first i Skip.end_of_directory label m rest h = absurd (ground arith)
pass_over first i Skip.skipped label m rest h =
    inr (h, λ e. absurd (ground arith), λ (e, _, _). absurd (ground arith))
pass_over first i Skip.valid false m rest h =
    inr (h, λ e. absurd (ground arith), λ (_, e, _). absurd (ground arith))
pass_over first i Skip.valid true false rest h =
    inr (h, λ e. absurd (ground arith), λ (_, _, e). absurd (ground arith))
pass_over first i Skip.valid true true rest h = inl (refl, refl, refl, ground arith)

-- A search of a sector that finds slot `i` found a live entry of that name, which is no volume
-- label, and no entry before it is one of that name or the end of the directory.
pub find_in_sector-found :
    (left first i : ℕ) (name : List ℕ) (sector : Bytes)
    → find_in_sector left first name sector ≡ Scan.found i
    → (first ≤ i)
      × (i < first + left)
      × Answers name sector i
      × ((j : ℕ)
          → first ≤ j
          → j < i
          → ¬ Answers name sector j × (skip_entry j sector ≢ Skip.end_of_directory))
unfolding find_in_sector Answers
find_in_sector-found zero first i name sector h = absurd (ground arith)
find_in_sector-found (suc left) first i name sector h =
    elim (pass_over first i (skip_entry first sector)
      (bit_and (attributes_at first sector) 0x08 == 0)
      (name_match (dir_entry first sector).name83 name)
      (find_in_sector left (suc first) name sector) h) [
        | inl (sk, label, m, e) ↦ (
          omega arith,
          omega arith,
          subst (Answers name sector) e (sk, label, m),
          λ j p q. absurd (omega arith),
        )
        | inr (rest, live, no_answer) ↦
            let (lo, hi, answer, before) =
              find_in_sector-found left (suc first) i name sector rest in
            (
              omega arith,
              omega arith,
              answer,
              λ j p q. elim (first_or j first p) [
                | inl e ↦
                    subst
                      (λ k. ¬ Answers name sector k × (skip_entry k sector ≢ Skip.end_of_directory))
                      (sym e) (no_answer, live)
                | inr l ↦ before j l q
              ],
            )
      ]
  where
    first_or : (j k : ℕ) → k ≤ j → (j ≡ k) ⊎ (suc k ≤ j)
    first_or j k l = omega arith

round_ends :
    (lba : ℕ) (scan : Scan) (rest : Option (Option (ℕ × ℕ)))
    → (ltb 0 lba ≡ true → rest ≢ none)
    → (if lba == 0 then some none else elim scan as (λ _. Option (Option (ℕ × ℕ))) [
      | Scan.found i ↦ some (some (lba, i))
      | Scan.ended ↦ some none
      | Scan.passed _ ↦ rest
    ])
      ≢ none
round_ends zero scan rest h = λ e. absurd (ground arith)
round_ends (suc lba) (Scan.found i) rest h = λ e. absurd (ground arith)
round_ends (suc lba) Scan.ended rest h = λ e. absurd (ground arith)
round_ends (suc lba) (Scan.passed _) rest h = λ e. h (ground arith) (ground (arith, e))

root_search_ends :
    (fuel s : ℕ) (name : List ℕ) (v : Volume)
    → s ≤ v.root_dir_sectors
    → v.root_dir_sectors < s + fuel
    → find_loop fuel s 0 name v ≢ none
unfolding find_loop dir_sector_lba
root_search_ends zero s name v l h = absurd (omega arith)
root_search_ends (suc fuel) s name v l h =
    round_ends (dir_sector_lba 0 s v)
      (find_in_sector 16 0 name (read_sector (dir_sector_lba 0 s v) v))
      (find_loop fuel (suc s) 0 name v)
      (λ more. root_search_ends fuel (suc s) name v (ground arith) (omega arith))

-- The search of the root directory ends, whatever its sectors hold: one round for each of its
-- sectors and one more are enough.
pub find_loop-root :
    (name : List ℕ) (v : Volume) → find_loop (suc v.root_dir_sectors) 0 0 name v ≢ none
find_loop-root name v =
    root_search_ends (suc v.root_dir_sectors) 0 name v (omega arith) (omega arith)
