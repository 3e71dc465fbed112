-- ===== src/Kheap/Calloc.antt =====
-- kernel/kheap.c: kcalloc, over the heap and the bytes of the memory; and the pages that kheap_init
-- maps before it writes the first header.
use yotos.Base.{
  ℕ, zero, suc, ◌+◌, ◌-◌, ◌*◌, ◌/◌, ◌≤◌, ◌<◌, ◌≡◌, refl, sym, ap, ◌∙◌, ◌≢◌, ◌⊎◌, inl, inr, true,
  false, Option, none, some, List, [], ◌∷◌, ◌++◌, arith, bit_or, ◌==◌, if◌then◌else◌, u32,
}
use mathlib.Core.Path.{subst}
use native.Mathlib.Decide.{dec_lt}
use yotos.Klibc.{memset}
use yotos.Klibc.Strings.{memset_lem}
use yotos.Pmm.{get_bitmap_size}
use yotos.Vmm.{Vmm, alloc_page, page_size, page_present, page_writable}
use yotos.Kheap.{Store, kmalloc, init_header, kheap_fixed_size}
use yotos.Kheap.Blocks.{Block, live, IsCoalesced}
use yotos.Kheap.Live.{Apart}
use yotos.Kheap.Chain.{IsHeap}
use yotos.Kheap.Safety.{Added, kmalloc-live}

-- The loop over the `pages` pages of the heap that are left. The address that vmm_alloc_page
-- returns is not looked at; `none` is an access that the processor cannot translate.
pub map_heap : (pages addr : ℕ) → Vmm → Option Vmm
map_heap zero addr s = some s
map_heap (suc pages) addr s = elim (alloc_page addr (bit_or page_present page_writable) s) [
  | none ↦ none
  | some (_, s1) ↦ map_heap pages (u32 (addr + page_size)) s1
]

-- `align_up(value, PAGE_SIZE)`
pub page_align_up : ℕ → ℕ
page_align_up value = u32 (value + page_size - 1) / page_size * page_size

-- The address of the heap, with the memory manager and the headers.
pub kheap_init : (kernel_end : ℕ) → Vmm → Store → Option (ℕ × Vmm × Store)
kheap_init kernel_end s m =
    let heap_start = page_align_up (u32 (kernel_end + get_bitmap_size s.pmm)) in
    elim (map_heap (kheap_fixed_size / page_size) heap_start s) [
      | none ↦ none
      | some s1 ↦ some (heap_start, s1, init_header heap_start m)
    ]

pub kcalloc : (start size : ℕ) → Store → (ℕ → ℕ) → Option (ℕ × Store × (ℕ → ℕ))
kcalloc start size m memory = elim (kmalloc start size m) [
  | none ↦ none
  | some (p, m1) ↦ some (p, m1, if p == 0 then memory else memset p 0 size memory)
]

-- The bytes of the allocations are the same in both memories.
pub Kept : (memory memory' : ℕ → ℕ) → List (ℕ × ℕ) → Type 0
Kept memory memory' [] = Unit
Kept memory memory' ((q, n) ∷ l) =
    ((i : ℕ) → i < n → memory' (q + i) ≡ memory (q + i)) × Kept memory memory' l

Kept-same : (memory : ℕ → ℕ) (l : List (ℕ × ℕ)) → Kept memory memory l
unfolding Kept
Kept-same memory [] = tt
Kept-same memory ((q, n) ∷ l) = (λ i h. refl, Kept-same memory l)

Apart-reaches :
    (p pos k : ℕ) (xs ys : List (ℕ × ℕ)) (stop : ℕ) → Apart pos (xs ++ ((p, k) ∷ ys)) stop → pos ≤ p
Apart-reaches p pos k [] ys stop a = omega (arith, a.0)
Apart-reaches p pos k ((q, j) ∷ xs) ys stop a =
    omega (arith, a.0, Apart-reaches p (q + j) k xs ys stop a.1)

-- Memories that agree outside a range agree on what lies behind it, and in front of it.
module _ (memory memory' : ℕ → ℕ) (p n : ℕ)
    (agree : (j : ℕ) → (j < p) ⊎ (p + n ≤ j) → memory' j ≡ memory j) where
  behind-Kept :
      (pos : ℕ) (ys : List (ℕ × ℕ)) (stop : ℕ)
      → p + n ≤ pos
      → Apart pos ys stop
      → Kept memory memory' ys
  unfolding Kept
  behind-Kept pos [] stop h a = tt
  behind-Kept pos ((q, k) ∷ ys) stop h a = (
    λ i hi. agree (q + i) (inr (omega (arith, h, a.0))),
    behind-Kept (q + k) ys stop (omega (arith, h, a.0)) a.1,
  )

  around-Kept :
      (pos k : ℕ) (xs ys : List (ℕ × ℕ)) (stop : ℕ)
      → n ≤ k
      → Apart pos (xs ++ ((p, k) ∷ ys)) stop
      → Kept memory memory' (xs ++ ys)
  unfolding Kept
  around-Kept pos k [] ys stop h a = behind-Kept (p + k) ys stop (omega (arith, h)) a.1
  around-Kept pos k ((q, j) ∷ xs) ys stop h a = (
    λ i hi. agree (q + i) (inl (omega (arith, hi, Apart-reaches p (q + j) k xs ys stop a.1))),
    around-Kept (q + j) k xs ys stop h a.1,
  )

memset-agree :
    (p size : ℕ) (memory : ℕ → ℕ) (j : ℕ)
    → (j < p) ⊎ (p + size ≤ j)
    → memset p 0 size memory j ≡ memory j
memset-agree p size memory j (inl h) = memset_lem p 0 size memory j ∙ ground (arith, h)
memset-agree p size memory j (inr h) = memset_lem p 0 size memory j ∙ ground (arith, h)

memset-zeroes :
    (p size : ℕ) (memory : ℕ → ℕ) (i : ℕ) → i < size → memset p 0 size memory (p + i) ≡ 0
memset-zeroes p size memory i h = memset_lem p 0 size memory (p + i) ∙ ground (arith, h)

kcalloc-null :
    (start size p : ℕ) (m m' : Store) (memory : ℕ → ℕ)
    → kmalloc start size m ≡ some (p, m')
    → p ≡ 0
    → kcalloc start size m memory ≡ some (p, m', memory)
unfolding kcalloc
kcalloc-null start size p m m' memory e null =
    let is_null : (p == 0) ≡ true = ground (arith, null) in
    ap
      (λ o. elim o as (λ _. Option (ℕ × Store × (ℕ → ℕ))) [
        | none ↦ none
        | some (q, m1) ↦ some (q, m1, if q == 0 then memory else memset q 0 size memory)
      ])
      e
    ∙ ap (λ b. some (p, m', if b then memory else memset p 0 size memory)) is_null

kcalloc-some :
    (start size p : ℕ) (m m' : Store) (memory : ℕ → ℕ)
    → kmalloc start size m ≡ some (p, m')
    → p ≢ 0
    → kcalloc start size m memory ≡ some (p, m', memset p 0 size memory)
unfolding kcalloc
kcalloc-some start size p m m' memory e some_block =
    let not_null : (p == 0) ≡ false = ground (arith, some_block) in
    ap
      (λ o. elim o as (λ _. Option (ℕ × Store × (ℕ → ℕ))) [
        | none ↦ none
        | some (q, m1) ↦ some (q, m1, if q == 0 then memory else memset q 0 size memory)
      ])
      e
    ∙ ap (λ b. some (p, m', if b then memory else memset p 0 size memory)) not_null

-- On a well-formed heap without two adjacent free blocks `kcalloc` ends; when the pointer is not
-- null, the bytes that were asked for are zero, and in any case the bytes of every allocation that
-- was live before are as they were.
pub kcalloc-Kept :
    (size start : ℕ) (m : Store) (bs : List Block) (memory : ℕ → ℕ)
    → IsHeap start m bs
    → IsCoalesced bs
    → (p : ℕ) × (m' : Store) × (memory' : ℕ → ℕ) × (kcalloc start size m memory
        ≡ some (p, m', memory'))
      × ((i : ℕ) → (p ≡ 0) ⊎ (size ≤ i) ⊎ (memory' (p + i) ≡ 0))
      × Kept memory memory' (live start bs)
unfolding Added
kcalloc-Kept size start m bs memory h apart =
    let (p, m', bs', e, h', joined, added, disjoint) = kmalloc-live size start m bs h apart in
    elim added [
      | inl (null, same) ↦ (
        p,
        m',
        memory,
        kcalloc-null start size p m m' memory e null,
        λ i. inl null,
        Kept-same memory (live start bs),
      )
      | inr (some_block, (xs, ys, n, before, after, fits)) ↦ (
        p,
        m',
        memset p 0 size memory,
        kcalloc-some start size p m m' memory e some_block,
        λ i. elim (dec_lt i size) [
          | yes inside ↦ inr (inr (memset-zeroes p size memory i inside))
          | no outside ↦ inr (inl (omega (arith, outside)))
        ],
        subst (Kept memory (memset p 0 size memory)) (sym before) (
            around-Kept memory (memset p 0 size memory) p size (memset-agree p size memory) start n
              xs ys (start + 1024 * 1024) fits
              (subst (λ l. Apart start l (start + 1024 * 1024)) after disjoint)),
      )
    ]
