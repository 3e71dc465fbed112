-- ===== src/Kheap/Scratch.antt =====
-- A buffer that is allocated and freed again, as the callers of the heap use it.
use yotos.Base.{
  ℕ, ◌+◌, ◌<◌, ◌≡◌, refl, sym, ap, ◌∙◌, ◌≢◌, inl, inr, false, ◌&&◌, some, List, [], ◌∷◌, ◌++◌,
  arith, leb, ◌==◌, Bool-cases,
}
use mathlib.Core.Path.{subst}
use yotos.Kheap.{Store, kmalloc, kfree}
use yotos.Kheap.Blocks.{
  Block, first_fit, release, live, IsCoalesced, first_fit-IsCoalesced, release-IsCoalesced,
}
use yotos.Kheap.Live.{remove, Apart, end_of, live-Apart, first_fit-live, release-live}
use yotos.Kheap.Chain.{IsHeap}
use yotos.Kheap.Malloc.{kmalloc-first_fit}
use yotos.Kheap.Free.{IsBlock, kfree-release}

-- What first fit returns begins a block of what it leaves.
first_fit-IsBlock :
    (n pos : ℕ) (bs : List Block)
    → (first_fit n pos bs).0 ≢ 0
    → IsBlock (first_fit n pos bs).0 pos (first_fit n pos bs).1
unfolding first_fit
first_fit-IsBlock n pos [] h = absurd (h refl)
first_fit-IsBlock n pos (b ∷ bs) h = elim (Bool-cases (b.is_free && leb n b.size)) [
  | inl fits ↦ elim (Bool-cases (leb (n + 17) b.size)) [
    | inl split ↦ rw (fits, split) (inl refl)
    | inr whole ↦ rw (fits, whole) (inl refl)
  ]
  | inr on ↦ rw on (inr (first_fit-IsBlock n (pos + 16 + b.size) bs (rw on at h)))
]

-- An allocation lies above the ones in front of it.
Apart-above :
    (pos p n stop : ℕ) (xs ys : List (ℕ × ℕ)) → Apart pos (xs ++ (p, n) ∷ ys) stop → pos < p
Apart-above pos p n stop [] ys a = omega (arith, a.0)
Apart-above pos p n stop ((q, k) ∷ xs) ys a =
    omega (arith, a.0, Apart-above (q + k) p n stop xs ys a.1)

-- So to drop it leaves those in front and those behind.
remove-added :
    (pos p n stop : ℕ) (xs ys : List (ℕ × ℕ))
    → Apart pos (xs ++ (p, n) ∷ ys) stop
    → remove p (xs ++ (p, n) ∷ ys) ≡ xs ++ ys
unfolding remove
remove-added pos p n stop [] ys a = ground arith
remove-added pos p n stop ((q, k) ∷ xs) ys a =
    let above = Apart-above (q + k) p n stop xs ys a.1 in
    let other : (q == p) ≡ false = ground arith in
    rw (other, remove-added (q + k) p n stop xs ys a.1) refl

-- On a well-formed heap without two adjacent free blocks, where first fit finds room for the size, a
-- buffer can be allocated and freed again: `kmalloc` returns a pointer that is not null, and after
-- its `kfree` the heap is well formed, no two free blocks are adjacent, and the live allocations are
-- those of before.
pub kfree-kmalloc :
    (size start : ℕ) (m : Store) (bs : List Block)
    → IsHeap start m bs
    → IsCoalesced bs
    → (first_fit size start bs).0 ≢ 0
    → (p : ℕ) × (m1 : Store) × (bs2 : List Block) × (kmalloc start size m ≡ some (p, m1))
      × (p ≢ 0)
      × IsHeap start (kfree p m1) bs2
      × IsCoalesced bs2
      × (live start bs2 ≡ live start bs)
kfree-kmalloc size start m bs h apart room =
    let p = (first_fit size start bs).0 in
    let bs1 = (first_fit size start bs).1 in
    let (m1, e, h1) = kmalloc-first_fit size start h in
    let (xs, ys, n, before, after, big) = first_fit-live size start bs room in
    let apart1 = subst (λ l. Apart start l (end_of start bs1)) after (live-Apart start bs1) in
    (
      p,
      m1,
      release p start bs1,
      e,
      room,
      kfree-release p start h1 (first_fit-IsBlock size start bs room),
      release-IsCoalesced p start bs1 (first_fit-IsCoalesced size start bs apart),
      release-live p start bs1
          ∙ ap (remove p) after
          ∙ remove-added start p n (end_of start bs1) xs ys apart1
          ∙ sym before,
    )
