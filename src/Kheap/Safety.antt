-- ===== src/Kheap/Safety.antt =====
-- What the callers of the kernel heap rely on, said of the live allocations.
use yotos.Base.{
  ℕ, ◌+◌, ◌-◌, ◌*◌, ◌^◌, ◌≤◌, ◌<◌, ◌≡◌, refl, ap, ◌≢◌, ◌⊎◌, inl, inr, true, some, List, [], ◌∷◌,
  ◌++◌, arith,
}
use mathlib.Core.Path.{subst}
use yotos.Kheap.{Store, kmalloc, kfree, init_header}
use yotos.Kheap.Blocks.{
  Block, block, first_fit, release, live, IsCoalesced, first_fit-IsCoalesced, release-IsCoalesced,
}
use yotos.Kheap.Live.{
  remove, Apart, end_of, live-Apart, first_fit-live, first_fit-none, release-live,
}
use yotos.Kheap.Chain.{IsHeap}
use yotos.Kheap.Malloc.{kmalloc-first_fit}
use yotos.Kheap.Free.{IsBlock, kfree-release}

-- The headers that `kheap_init` writes make one free block of the whole heap.
pub init_header-IsHeap :
    (start : ℕ) (m : Store)
    → 4096 ≤ start
    → start + 1024 * 1024 < 2 ^ 32
    → IsHeap start (init_header start m) (block (1024 * 1024 - 16) true ∷ [])
unfolding init_header end_of
init_header-IsHeap start m h k = record {
  not_null = h;
  low = k;
  chain = (refl, ground arith, ground arith, ground arith, ground arith);
  full = omega arith;
}

-- The live allocations after an allocation that returned `p`: as before when `p` is null, and
-- else one more, at `p` and of `size` bytes at least.
unfoldable pub Added : ℕ → ℕ → List (ℕ × ℕ) → List (ℕ × ℕ) → Type 0
Added p size before after =
    ((p ≡ 0) × (after ≡ before))
    ⊎ ((p ≢ 0)
        × ((xs : List (ℕ × ℕ)) × (ys : List (ℕ × ℕ)) × (n : ℕ) × (before ≡ xs ++ ys)
            × (after ≡ xs ++ (p, n) ∷ ys)
            × (size ≤ n)))

-- On a well-formed heap without two adjacent free blocks `kmalloc` ends, and leaves a well-formed
-- heap whose live allocations are those of before and, unless the pointer is null, the new one of
-- at least the size asked for; they do not overlap one another or a header, and again no two free
-- blocks are adjacent.
pub kmalloc-live :
    (size start : ℕ) (m : Store) (bs : List Block)
    → IsHeap start m bs
    → IsCoalesced bs
    → (p : ℕ) × (m' : Store) × (bs' : List Block) × (kmalloc start size m ≡ some (p, m'))
      × IsHeap start m' bs'
      × IsCoalesced bs'
      × Added p size (live start bs) (live start bs')
      × Apart start (live start bs') (start + 1024 * 1024)
unfolding Added
kmalloc-live size start m bs h apart =
    let (m', e, h') = kmalloc-first_fit size start h in
    let bs' = (first_fit size start bs).1 in
    (
      (first_fit size start bs).0,
      m',
      bs',
      e,
      h',
      first_fit-IsCoalesced size start bs apart,
      elim (null_or (first_fit size start bs).0) [
        | inl z ↦ inl (z, ap (λ l. live start l) (first_fit-none size start bs z))
        | inr n ↦ inr (n, first_fit-live size start bs n)
      ],
      subst (λ l. Apart start (live start bs') l) h'.full (live-Apart start bs'),
    )
  where
    null_or : (p : ℕ) → (p ≡ 0) ⊎ (p ≢ 0)
    null_or p = omega arith

-- On a well-formed heap without two adjacent free blocks `kfree` of a pointer to a block leaves a
-- well-formed heap whose live allocations are those of before without the freed one, and again no
-- two free blocks are adjacent.
pub kfree-live :
    (p start : ℕ) (m : Store) (bs : List Block)
    → IsHeap start m bs
    → IsCoalesced bs
    → IsBlock p start bs
    → (bs' : List Block) × IsHeap start (kfree p m) bs'
      × IsCoalesced bs'
      × (live start bs' ≡ remove p (live start bs))
kfree-live p start m bs h apart at = (
  release p start bs,
  kfree-release p start h at,
  release-IsCoalesced p start bs apart,
  release-live p start bs,
)
