-- ===== src/Kheap/Malloc.antt =====
-- `kmalloc` is first fit.
use yotos.Base.{
  ℕ, zero, suc, ◌+◌, ◌-◌, ◌^◌, ◌≤◌, ◌<◌, ◌≡◌, refl, ◌∙◌, ◌⊎◌, inl, inr, true, false, ◌&&◌, Option,
  some, List, [], ◌∷◌, arith, leb, Bool-cases, length, leb→le,
}
use yotos.Kheap.{Store, take_block, kmalloc_loop, kmalloc, kmalloc_fuel}
use yotos.Kheap.Blocks.{Block, block, first_fit, and-right}
use yotos.Kheap.Live.{end_of}
use yotos.Kheap.Chain.{Chain, frame, set_prev-Chain, IsHeap, end_of-le}

module _ (m : Store) (prev pos link size : ℕ) (b : Block) (bs : List Block) (low : 4096 ≤ pos)
    (fits : end_of pos (b ∷ bs) < 2 ^ 32) (c : Chain m prev pos link (b ∷ bs))
    (big : size ≤ b.size) where
  inside : pos + 16 + b.size < 2 ^ 32
  unfolding end_of
  inside = omega (arith, end_of-le (pos + 16 + b.size) bs)

  link_next : ((m pos).next ≡ 0) ⊎ ((m pos).next ≡ pos + 16 + b.size)
  link_next = cases bs c.4
    where
      cases :
          (bs : List Block)
          → Chain m pos (pos + 16 + b.size) (m pos).next bs
          → ((m pos).next ≡ 0) ⊎ ((m pos).next ≡ pos + 16 + b.size)
      cases [] e = inl e
      cases (d ∷ bs) e = inr e.0

  module _ (room : size + 17 ≤ b.size) where
    take_block-current :
        take_block pos size m pos
        ≡ record { size = size; is_free = false; next = pos + 16 + size; prev = (m pos).prev }
    unfolding take_block
    take_block-current = ground (arith, c.1, link_next, inside)

    take_block-new :
        take_block pos size m (pos + 16 + size)
        ≡ record { size = b.size - size - 16; is_free = true; next = (m pos).next; prev = pos }
    unfolding take_block
    take_block-new = ground (arith, c.1, link_next, inside)

    take_block-next :
        (m pos).next ≡ pos + 16 + b.size
        → take_block pos size m (pos + 16 + b.size)
          ≡ record (m (pos + 16 + b.size)) { prev = pos + 16 + size }
    unfolding take_block
    take_block-next e = ground (arith, c.1, inside)

    take_block-above : (a : ℕ) → pos + 16 + b.size < a → take_block pos size m a ≡ m a
    unfolding take_block
    take_block-above a h = ground (arith, c.1, link_next, inside)

    take_block-split :
        Chain
          (take_block pos size m)
          prev
          pos
          link
          (block size false ∷ block (b.size - size - 16) true ∷ bs)
    take_block-split =
        let end : pos + 16 + size + 16 + (b.size - size - 16) ≡ pos + 16 + b.size = omega arith in
        rw (take_block-current, take_block-new, end)
          (
            c.0,
            refl,
            refl,
            c.3,
            (
              refl,
              refl,
              refl,
              refl,
              set_prev-Chain m (take_block pos size m) pos (pos + 16 + size) (pos + 16 + b.size)
                  (m pos).next bs (omega arith) take_block-above take_block-next c.4,
            ),
          )

  take_block-whole :
      b.size < size + 17 → Chain (take_block pos size m) prev pos link (block b.size false ∷ bs)
  take_block-whole tight = rw whole (
    c.0,
    c.1,
    refl,
    c.3,
    frame m (take_block pos size m) pos (pos + 16 + b.size) (m pos).next bs
        (λ a h. unfold take_block in ground (arith, c.1, inside)) c.4,
  )
    where
      whole : take_block pos size m pos ≡ record (m pos) { is_free = false }
      whole = unfold take_block in ground (arith, c.1, inside)

  take_block-below : (a : ℕ) → a < pos → take_block pos size m a ≡ m a
  unfolding take_block
  take_block-below a h = ground (arith, c.1, link_next, inside)

-- The loop of `kmalloc` from the first of `bs` on is first fit among them.
record Fits (m : Store) (prev pos link size : ℕ) (bs : List Block) (r : Option (ℕ × Store))
    : Type 0 where
  store : Store
  result : r ≡ some ((first_fit size pos bs).0, store)
  chain : Chain store prev pos link (first_fit size pos bs).1
  below : (a : ℕ) → a < pos → store a ≡ m a

module _ (m : Store) (prev pos link size fuel : ℕ) (b : Block) (bs : List Block) (low : 4096 ≤ pos)
    (fits : end_of pos (b ∷ bs) < 2 ^ 32) (c : Chain m prev pos link (b ∷ bs)) where
  kmalloc_loop-miss :
      (b.is_free && leb size b.size) ≡ false
      → Fits m pos (pos + 16 + b.size) (m pos).next size bs (kmalloc_loop fuel size (m pos).next m)
      → Fits m prev pos link size (b ∷ bs) (kmalloc_loop (suc fuel) size link m)
  unfolding kmalloc_loop first_fit
  kmalloc_loop-miss miss rest =
      let here : rest.store pos ≡ m pos = rest.below pos (omega arith) in
      record {
        store = rest.store;
        result = ground (arith, c.0, c.1, c.2, rest.result);
        chain = rw (miss, here) (c.0, c.1, c.2, c.3, rest.chain);
        below = λ a h. rest.below a (omega arith);
      }

  kmalloc_loop-hit :
      (b.is_free && leb size b.size) ≡ true
      → Fits m prev pos link size (b ∷ bs) (kmalloc_loop (suc fuel) size link m)
  unfolding kmalloc_loop first_fit
  kmalloc_loop-hit hit =
      let big : size ≤ b.size = leb→le size b.size (and-right b.is_free _ hit) in
      record {
        store = take_block pos size m;
        result = ground (arith, c.0, c.1, c.2, inside m prev pos link size b bs low fits c big);
        chain = elim (Bool-cases (leb (size + 17) b.size)) [
          | inl room ↦
              rw (hit, room)
                (take_block-split m prev pos link size b bs low fits c big (ground arith))
          | inr tight ↦
              rw (hit, tight)
                (take_block-whole m prev pos link size b bs low fits c big (ground arith))
        ];
        below = take_block-below m prev pos link size b bs low fits c big;
      }

kmalloc_loop-Fits :
    (fuel size : ℕ) (m : Store) (prev pos link : ℕ) (bs : List Block)
    → 4096 ≤ pos
    → end_of pos bs < 2 ^ 32
    → length bs < fuel
    → Chain m prev pos link bs
    → Fits m prev pos link size bs (kmalloc_loop fuel size link m)
kmalloc_loop-Fits zero size m prev pos link bs low fits enough c = absurd (omega arith)
kmalloc_loop-Fits (suc fuel) size m prev pos link [] low fits enough c = record {
  store = m;
  result = unfold first_fit kmalloc_loop in rw c;
  chain = unfold first_fit in c;
  below = λ a h. refl;
}
kmalloc_loop-Fits (suc fuel) size m prev pos link (b ∷ bs) low fits enough c =
    elim (Bool-cases (b.is_free && leb size b.size)) [
      | inl hit ↦ kmalloc_loop-hit m prev pos link size fuel b bs low fits c hit
      | inr miss ↦ kmalloc_loop-miss m prev pos link size fuel b bs low fits c miss (
          kmalloc_loop-Fits fuel size m pos (pos + 16 + b.size) (m pos).next bs (omega arith)
            (unfold end_of in fits) (omega arith) c.4)
    ]

end_of-first_fit : (n pos : ℕ) (bs : List Block) → end_of pos (first_fit n pos bs).1 ≡ end_of pos bs
unfolding first_fit end_of
end_of-first_fit n pos [] = refl
end_of-first_fit n pos (b ∷ bs) = elim (Bool-cases (b.is_free && leb n b.size)) [
  | inl hit ↦ elim (Bool-cases (leb (n + 17) b.size)) [
    | inl room ↦
        let same : pos + 16 + n + 16 + (b.size - n - 16) ≡ pos + 16 + b.size = ground arith in
        rw (hit, room, same)
    | inr tight ↦ rw (hit, tight)
  ]
  | inr miss ↦ rw (miss, end_of-first_fit n (pos + 16 + b.size) bs)
]

-- On a well-formed heap `kmalloc` ends and is first fit: it returns the pointer that first fit
-- names, or null where no free block is large enough, and leaves a well-formed heap with the
-- blocks that first fit leaves, whatever the size asked for.
pub kmalloc-first_fit :
    (size start : ℕ) {m : Store} {bs : List Block}
    → IsHeap start m bs
    → (m' : Store) × (kmalloc start size m ≡ some ((first_fit size start bs).0, m'))
      × IsHeap start m' (first_fit size start bs).1
unfolding kmalloc
kmalloc-first_fit size start {m} {bs} h =
    let r =
      kmalloc_loop-Fits kmalloc_fuel size m 0 start start bs h.not_null
        (omega (arith, h.full, h.low)) (omega (arith, h.full, end_of-le start bs)) h.chain in
    (
      r.store,
      r.result,
      record {
        not_null = h.not_null;
        low = h.low;
        chain = r.chain;
        full = end_of-first_fit size start bs ∙ h.full;
      },
    )
