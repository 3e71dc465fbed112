-- ===== src/Kheap/Live.antt =====
-- The live allocations under first fit and release: one more, one less, never overlapping.
use yotos.Base.{
  ℕ, ◌+◌, ◌-◌, ◌≤◌, ◌<◌, ◌≡◌, refl, ◌≢◌, inl, inr, true, false, ◌&&◌, List, [], ◌∷◌, ◌++◌, arith,
  leb, ◌==◌, if◌then◌else◌, Bool-cases,
}
use yotos.Kheap.Blocks.{
  Block, first_fit, absorb, merge, release, live, release-here, release-next, release-far,
  and-right,
}

-- Drop the allocation that begins at `p`.
unfoldable pub remove : ℕ → List (ℕ × ℕ) → List (ℕ × ℕ)
remove p [] = []
remove p ((q, m) ∷ r) = if q == p then r else (q, m) ∷ remove p r

-- Allocations in address order, each with a header in front, from `pos` up to `stop`.
abbrev pub Apart : ℕ → List (ℕ × ℕ) → ℕ → Type 0
Apart pos [] stop = pos ≤ stop
Apart pos ((p, m) ∷ r) stop = (pos + 16 ≤ p) × Apart (p + m) r stop

unfoldable pub end_of : ℕ → List Block → ℕ
end_of pos [] = pos
end_of pos (b ∷ bs) = end_of (pos + 16 + b.size) bs

Apart-below :
    (q pos : ℕ) (r : List (ℕ × ℕ)) (stop : ℕ) → q ≤ pos → Apart pos r stop → Apart q r stop
Apart-below q pos [] stop h a = omega arith
Apart-below q pos ((p, m) ∷ r) stop h a = (omega (arith, a.0), a.1)

-- Live allocations never overlap one another or a header, and stay inside the heap.
pub live-Apart : (pos : ℕ) (bs : List Block) → Apart pos (live pos bs) (end_of pos bs)
unfolding live end_of
live-Apart pos [] = omega arith
live-Apart pos (b ∷ bs) = elim (Bool-cases b.is_free) [
  | inl free ↦
      rw free
        (Apart-below pos (pos + 16 + b.size) _ _ (omega arith) (live-Apart (pos + 16 + b.size) bs))
  | inr used ↦ rw used (omega arith, live-Apart (pos + 16 + b.size) bs)
]

-- A first fit that succeeds adds one allocation of at least `n` bytes to the live ones, which
-- was not there before; the others stay.
pub first_fit-live :
    (n pos : ℕ) (bs : List Block)
    → (first_fit n pos bs).0 ≢ 0
    → (xs : List (ℕ × ℕ)) × (ys : List (ℕ × ℕ)) × (m : ℕ) × (live pos bs ≡ xs ++ ys)
      × (live pos (first_fit n pos bs).1 ≡ xs ++ ((first_fit n pos bs).0, m) ∷ ys)
      × (n ≤ m)
unfolding first_fit live
first_fit-live n pos [] h = absurd (h refl)
first_fit-live n pos (b ∷ bs) h = elim (Bool-cases (b.is_free && leb n b.size)) [
  | inl fits ↦ elim (Bool-cases (leb (n + 17) b.size)) [
    | inl split ↦
        let same : pos + 16 + n + 16 + (b.size - n - 16) ≡ pos + 16 + b.size = ground arith in
        ([], live (pos + 16 + b.size) bs, n, ground arith, rw (fits, split, same), omega arith)
    | inr whole ↦
        ([], live (pos + 16 + b.size) bs, b.size, ground arith, rw (fits, whole), ground arith)
  ]
  | inr on ↦
      let (xs, ys, m, before, after, big) = first_fit-live n (pos + 16 + b.size) bs (rw on at h) in
      elim (Bool-cases b.is_free) [
        | inl free ↦ (xs, ys, m, rw free before, ground (arith, after), big)
        | inr used ↦ ((pos + 16, b.size) ∷ xs, ys, m, rw (used, before), ground (arith, after), big)
      ]
]

-- A first fit that fails leaves the blocks as they are.
pub first_fit-none :
    (n pos : ℕ) (bs : List Block) → (first_fit n pos bs).0 ≡ 0 → (first_fit n pos bs).1 ≡ bs
unfolding first_fit
first_fit-none n pos [] h = refl
first_fit-none n pos (b ∷ bs) h = ground (arith, first_fit-none n (pos + 16 + b.size) bs)

remove_above : (p pos : ℕ) (bs : List Block) → p < pos + 16 → remove p (live pos bs) ≡ live pos bs
unfolding remove live
remove_above p pos [] h = refl
remove_above p pos (b ∷ bs) h = ground (arith, remove_above p (pos + 16 + b.size) bs)

live-absorb :
    (pos : ℕ) (b : Block) (bs : List Block) → live pos (absorb b bs) ≡ live (pos + 16 + b.size) bs
unfolding live absorb
live-absorb pos b [] = refl
live-absorb pos b (c ∷ bs) =
    let same : pos + 16 + (b.size + 16 + c.size) ≡ pos + 16 + b.size + 16 + c.size = omega arith in
    elim (Bool-cases c.is_free) [ inl free ↦ rw (free, same) | inr used ↦ rw used ]

live-merge :
    (pos : ℕ) (a b : Block) (bs : List Block)
    → live pos (merge a (absorb b bs)) ≡ live (pos + 16 + a.size + 16 + b.size) bs
unfolding live absorb merge
live-merge pos a b [] = refl
live-merge pos a b (c ∷ bs) =
    let far : pos + 16 + (a.size + 16 + (b.size + 16 + c.size))
        ≡ pos + 16 + a.size + 16 + b.size + 16 + c.size =
      omega arith in
    let near : pos + 16 + (a.size + 16 + b.size) ≡ pos + 16 + a.size + 16 + b.size = omega arith in
    elim (Bool-cases c.is_free) [ inl free ↦ rw (free, far) | inr used ↦ rw (used, near) ]

-- Giving back the bytes at `p` drops that allocation from the live ones; the others stay.
pub release-live :
    (p pos : ℕ) (bs : List Block) → live pos (release p pos bs) ≡ remove p (live pos bs)
release-live p pos [] = unfold release live remove in refl
release-live p pos (b ∷ bs) = elim (Bool-cases (pos + 16 == p)) [
  | inl here ↦ rw (release-here p pos b bs here, live-absorb pos b bs) (dropped here)
  | inr on ↦ elim (Bool-cases (b.is_free && (pos + 16 + b.size + 16 == p))) [
    | inl next ↦ rw (release-next p pos b bs on next) (joined bs next)
    | inr far ↦ rw (release-far p pos b bs on far) (kept on (release-live p (pos + 16 + b.size) bs))
  ]
]
  where
    dropped : (pos + 16 == p) ≡ true → live (pos + 16 + b.size) bs ≡ remove p (live pos (b ∷ bs))
    dropped e = unfold live remove in ground (arith, remove_above p (pos + 16 + b.size) bs)

    joined :
        (cs : List Block)
        → (b.is_free && (pos + 16 + b.size + 16 == p)) ≡ true
        → live pos (merge b (release p (pos + 16 + b.size) cs)) ≡ remove p (live pos (b ∷ cs))
    joined [] e = unfold release live remove merge in ground arith
    joined (c ∷ cs) e =
        rw
          (release-here p (pos + 16 + b.size) c cs (and-right b.is_free _ e), live-merge pos b c cs)
          (unfold live remove in
            ground (arith, remove_above p (pos + 16 + b.size + 16 + c.size) cs))

    kept :
        (pos + 16 == p) ≡ false
        → live (pos + 16 + b.size) (release p (pos + 16 + b.size) bs)
          ≡ remove p (live (pos + 16 + b.size) bs)
        → live pos (b ∷ release p (pos + 16 + b.size) bs) ≡ remove p (live pos (b ∷ bs))
    kept e ih = unfold live remove in ground arith
