-- ===== src/Pmm/Alloc.antt =====
-- `pmmngr_alloc_block` and `pmmngr_free_block`: first fit, exhaustion, and the way back.
use yotos.Base.{
  ◌∙◌, ℕ, ◌+◌, ◌*◌, ◌/◌, ◌^◌, ◌≤◌, ◌<◌, ◌≡◌, refl, ◌≢◌, ◌↔◌, inl, inr, none, some, arith, ◌==◌,
  if◌then◌else◌, Option-cases, u32,
}
use yotos.Pmm.{
  Pmm, mmap_first_free, get_free_block_count, alloc_block, free_block, mmap_set, block_size,
}
use yotos.Pmm.Map.{frame_bit, frame_bit-mmap_set, frame_bit-mmap_unset}
use yotos.Pmm.Count.{count_used-le, count_used-lt, count_used-mmap_unset}
use yotos.Pmm.Search.{first_free_from-free, first_free_from-least, first_free_from-none}
use yotos.Pmm.Inv.{IsValid, take-IsValid, release-IsValid}

-- The frames that the search covers: whole words of the bitmap only.
abbrev pub searched : Pmm → ℕ
searched s = s.max_blocks / 32 * 32

-- What an allocation of frame `f` makes of the state `s`.
pub record Allocated (s : Pmm) (f : ℕ) (addr : ℕ) (s' : Pmm) : Type 0 where
  pub address : addr ≡ f * block_size
  pub inside : f < searched s
  pub was_free : frame_bit s.memory_map f ≡ 0
  pub first : (m : ℕ) → m < f → frame_bit s.memory_map m ≡ 1
  pub taken : (m : ℕ) → frame_bit s'.memory_map m ≡ (if m == f then 1 else frame_bit s.memory_map m)
  pub counted : s'.used_blocks ≡ s.used_blocks + 1
  pub same_size : s'.max_blocks ≡ s.max_blocks

alloc_block-found :
    (s : Pmm) (f : ℕ)
    → mmap_first_free s ≡ some f
    → s.used_blocks < s.max_blocks
    → s.max_blocks ≤ 2 ^ 20
    → alloc_block s ≡ (
      u32 (f * block_size),
      record s { used_blocks = u32 (s.used_blocks + 1); memory_map = mmap_set f s.memory_map },
    )
unfolding alloc_block get_free_block_count
alloc_block-found s f e room small = ground arith

-- The bit of a frame that is freed.
pub free_block-frame_bit :
    (addr m : ℕ) (s : Pmm)
    → frame_bit (free_block addr s).memory_map m
      ≡ (if m == addr / block_size then 0 else frame_bit s.memory_map m)
unfolding free_block
free_block-frame_bit addr m s = frame_bit-mmap_unset (addr / block_size) m s.memory_map

module _ {s : Pmm} (v : IsValid s) where
  -- What a successful search says of the frame.
  found :
      (f : ℕ)
      → mmap_first_free s ≡ some f
      → (f < searched s) × (frame_bit s.memory_map f ≡ 0) × (s.used_blocks < s.max_blocks)
  unfolding mmap_first_free
  found f e =
      let free = first_free_from-free (s.max_blocks / 32) 0 s.memory_map f e in
      (
        omega arith,
        free.2,
        omega (arith, v.counted, count_used-lt s.memory_map s.max_blocks f (omega arith) free.2),
      )

  least : (f : ℕ) → mmap_first_free s ≡ some f → (m : ℕ) → m < f → frame_bit s.memory_map m ≡ 1
  unfolding mmap_first_free
  least f e m lt = first_free_from-least (s.max_blocks / 32) 0 s.memory_map f m e (omega arith) lt

  alloc_block-Allocated_of :
      (f : ℕ)
      → mmap_first_free s ≡ some f
      → Allocated s f (alloc_block s).0 (alloc_block s).1 × IsValid (alloc_block s).1
  alloc_block-Allocated_of f e =
      let (inside, free, room) = found f e in
      let wrap : u32 (s.used_blocks + 1) ≡ s.used_blocks + 1 = omega (arith, v.frames) in
      rw (alloc_block-found s f e room v.frames) (
        record {
          address = omega (arith, v.frames);
          inside = inside;
          was_free = free;
          first = least f e;
          taken = λ m. frame_bit-mmap_set f m s.memory_map;
          counted = wrap;
          same_size = refl;
        },
        take-IsValid v f (omega arith) _ (omega arith),
      )

  alloc_block-none : mmap_first_free s ≡ none → alloc_block s ≡ (0, s)
  unfolding alloc_block get_free_block_count
  alloc_block-none e = ground arith

  all_used_of_none :
      mmap_first_free s ≡ none → (m : ℕ) → m < searched s → frame_bit s.memory_map m ≡ 1
  unfolding mmap_first_free
  all_used_of_none e m lt =
      first_free_from-none (s.max_blocks / 32) 0 s.memory_map m e (omega arith) (omega arith)

  -- In a valid state an allocation that returns a non-null address has taken the first free
  -- frame: it was free, every frame below it was in use, its bit alone changes, the counter
  -- rises by one, and the address is the frame's.
  pub alloc_block-Allocated :
      (alloc_block s).0 ≢ 0 → (f : ℕ) × Allocated s f (alloc_block s).0 (alloc_block s).1
  alloc_block-Allocated ok = elim (Option-cases (mmap_first_free s)) [
    | inl e ↦ absurd (ok (rw (alloc_block-none e) refl))
    | inr (f, e) ↦ (f, (alloc_block-Allocated_of f e).0)
  ]

  -- From a valid state an allocation leads to a valid state, whether it succeeds or not.
  pub alloc_block-IsValid : IsValid (alloc_block s).1
  alloc_block-IsValid = elim (Option-cases (mmap_first_free s)) [
    | inl e ↦ rw (alloc_block-none e) v
    | inr (f, e) ↦ (alloc_block-Allocated_of f e).1
  ]

  -- An allocation gives no frame back.
  pub alloc_block-kept :
      (m : ℕ) → frame_bit s.memory_map m ≡ 1 → frame_bit (alloc_block s).1.memory_map m ≡ 1
  alloc_block-kept m used = elim (Option-cases (mmap_first_free s)) [
    | inl e ↦ rw (alloc_block-none e) used
    | inr (f, e) ↦ (alloc_block-Allocated_of f e).0.taken m ∙ ground (arith, used)
  ]

  -- In a valid state whose frame 0 is in use, an allocation returns the null pointer exactly
  -- when every frame of the bitmap's whole words is in use.
  pub alloc_block-null_iff :
      frame_bit s.memory_map 0 ≡ 1
      → ((alloc_block s).0 ≡ 0) ↔ ((m : ℕ) → m < searched s → frame_bit s.memory_map m ≡ 1)
  alloc_block-null_iff zero_used = elim (Option-cases (mmap_first_free s)) [
    | inl e ↦ (λ _. all_used_of_none e, λ _. rw (alloc_block-none e) refl)
    | inr (f, e) ↦
        let a = (alloc_block-Allocated_of f e).0 in
        let not_zero : f ≢ 0 = λ z. absurd (omega (arith, a.was_free, rw z at a.was_free)) in
        (
          λ null. absurd (omega (arith, a.address, null)),
          λ full. absurd (omega (arith, a.was_free, full f a.inside)),
        )
  ]

  -- From a valid state, freeing an address in a managed frame that is in use leads to a valid
  -- state; the bit of that frame alone changes.
  pub free_block-IsValid :
      (addr : ℕ)
      → addr / block_size < s.max_blocks
      → frame_bit s.memory_map (addr / block_size) ≡ 1
      → IsValid (free_block addr s)
        × ((m : ℕ)
            → frame_bit (free_block addr s).memory_map m
              ≡ (if m == addr / block_size then 0 else frame_bit s.memory_map m))
  unfolding free_block
  free_block-IsValid addr inside used = (
    release-IsValid v (addr / block_size) inside _ (
        omega (
          arith,
          v.frames,
          v.counted,
          count_used-le s.memory_map s.max_blocks,
          count_used-mmap_unset s.memory_map s.max_blocks (addr / block_size) inside,
        )),
    λ m. frame_bit-mmap_unset (addr / block_size) m s.memory_map,
  )

  -- From a valid state, freeing an address in a managed frame that is free already leads to a
  -- state that is not valid: the counter falls, or wraps
  -- round below zero, though no frame became free.
  pub free_block_twice :
      (addr : ℕ)
      → addr / block_size < s.max_blocks
      → frame_bit s.memory_map (addr / block_size) ≡ 0
      → ¬ IsValid (free_block addr s)
  unfolding free_block
  free_block_twice addr inside free w = omega (
    arith,
    v.counted,
    w.counted,
    w.frames,
    count_used-le s.memory_map s.max_blocks,
    count_used-mmap_unset s.memory_map s.max_blocks (addr / block_size) inside,
  )

  -- From a valid state, freeing what an allocation has just returned, when it is not null,
  -- restores the counter and every frame's bit.
  pub free_block-alloc_block :
      (alloc_block s).0 ≢ 0
      → let s' = free_block (alloc_block s).0 (alloc_block s).1 in
        (s'.used_blocks ≡ s.used_blocks)
        × ((m : ℕ) → frame_bit s'.memory_map m ≡ frame_bit s.memory_map m)
  unfolding free_block
  free_block-alloc_block ok =
      let (f, a) = alloc_block-Allocated ok in
      let frame : (alloc_block s).0 / block_size ≡ f = omega (arith, a.address) in
      (
        omega (arith, a.counted, v.counted, v.frames, count_used-le s.memory_map s.max_blocks),
        λ m. ground (
          arith,
          frame,
          frame_bit-mmap_unset ((alloc_block s).0 / block_size) m (alloc_block s).1.memory_map,
          a.taken m,
          a.was_free,
        ),
      )
