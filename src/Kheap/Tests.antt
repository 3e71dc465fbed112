-- ===== src/Kheap/Tests.antt =====
-- The kernel heap, freshly initialised at 4 MiB, with one allocation and its release.
use yotos.Base.{
  ℕ, ◌+◌, ◌-◌, ◌*◌, ◌≤◌, ◌≡◌, refl, ap, ◌≢◌, ◌⊎◌, inl, true, false, some, List, [], ◌∷◌, arith,
}
use yotos.Kheap.Calloc.{kcalloc, Kept, kcalloc-Kept}
use yotos.Kheap.{Store, kmalloc, kfree, init_header}
use yotos.Kheap.Blocks.{Block, block, first_fit, release, live, IsCoalesced}
use yotos.Kheap.Live.{remove, Apart}
use yotos.Kheap.Chain.{IsHeap}
use yotos.Kheap.Malloc.{kmalloc-first_fit}
use yotos.Kheap.Free.{kfree-release}
use yotos.Kheap.Scratch.{kfree-kmalloc}
use yotos.Kheap.Safety.{init_header-IsHeap, Added, kmalloc-live, kfree-live}

abbrev pub start : ℕ
start = 0x400000

abbrev pub fresh : Store
fresh = init_header start (λ _. record { size = 0; is_free = false; next = 0; prev = 0 })

abbrev pub one_block : List Block
one_block = block (1024 * 1024 - 16) true ∷ []

pub fresh-IsHeap : IsHeap start fresh one_block
fresh-IsHeap =
    init_header-IsHeap start (λ _. record { size = 0; is_free = false; next = 0; prev = 0 })
      (omega arith) (omega arith)

pub one_block-IsCoalesced : IsCoalesced one_block
one_block-IsCoalesced = (refl, tt)

first_fit_run :
    first_fit 100 start one_block ≡ (start + 16, block 100 false ∷ block 1048444 true ∷ [])
unfolding first_fit
first_fit_run = refl

kmalloc-first_fit_example :
    (m : Store) × (kmalloc start 100 fresh ≡ some ((first_fit 100 start one_block).0, m))
    × IsHeap start m (first_fit 100 start one_block).1
kmalloc-first_fit_example = kmalloc-first_fit 100 start fresh-IsHeap

kmalloc-live_example :
    (p : ℕ) × (m : Store) × (bs : List Block) × (kmalloc start 100 fresh ≡ some (p, m))
    × IsHeap start m bs
    × IsCoalesced bs
    × Added p 100 (live start one_block) (live start bs)
    × Apart start (live start bs) (start + 1024 * 1024)
kmalloc-live_example = kmalloc-live 100 start fresh one_block fresh-IsHeap one_block-IsCoalesced

kfree-release_example :
    IsHeap start (kfree (start + 16) fresh) (release (start + 16) start one_block)
kfree-release_example = kfree-release (start + 16) start fresh-IsHeap (inl refl)

kfree-live_example :
    (bs : List Block) × IsHeap start (kfree (start + 16) fresh) bs
    × IsCoalesced bs
    × (live start bs ≡ remove (start + 16) (live start one_block))
kfree-live_example =
    kfree-live (start + 16) start fresh one_block fresh-IsHeap one_block-IsCoalesced (inl refl)

room : (first_fit 100 start one_block).0 ≢ 0
room e = absurd (omega (arith, e, ap (λ (r : ℕ × List Block). r.0) first_fit_run))

kfree-kmalloc_example :
    (p : ℕ) × (m1 : Store) × (bs2 : List Block) × (kmalloc start 100 fresh ≡ some (p, m1))
    × (p ≢ 0)
    × IsHeap start (kfree p m1) bs2
    × IsCoalesced bs2
    × (live start bs2 ≡ live start one_block)
kfree-kmalloc_example =
    kfree-kmalloc 100 start fresh one_block fresh-IsHeap one_block-IsCoalesced room

kcalloc-Kept_example :
    (p : ℕ) × (m : Store) × (memory : ℕ → ℕ) × (kcalloc start 100 fresh (λ _. 7)
      ≡ some (p, m, memory))
    × ((i : ℕ) → (p ≡ 0) ⊎ (100 ≤ i) ⊎ (memory (p + i) ≡ 0))
    × Kept (λ _. 7) memory (live start one_block)
kcalloc-Kept_example =
    kcalloc-Kept 100 start fresh one_block (λ _. 7) fresh-IsHeap one_block-IsCoalesced
