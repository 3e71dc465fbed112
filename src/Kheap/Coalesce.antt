-- ===== src/Kheap/Coalesce.antt =====
-- The two steps of `kfree` that join a freed block to its free neighbours.
use yotos.Base.{ℕ, ◌+◌, ◌^◌, ◌≤◌, ◌<◌, ◌≡◌, refl, ◌⊎◌, inl, inr, true, List, [], ◌∷◌, arith}
use yotos.Kheap.{Store, coalesce_next, coalesce_prev}
use yotos.Kheap.Blocks.{Block, block}
use yotos.Kheap.Live.{end_of}
use yotos.Kheap.Chain.{Chain, set_prev-Chain, end_of-le}

link_cases :
    (m : Store) (prev pos link : ℕ) (bs : List Block)
    → Chain m prev pos link bs
    → (link ≡ 0) ⊎ (link ≡ pos)
link_cases m prev pos link [] c = inl c
link_cases m prev pos link (b ∷ bs) c = inr c.0

-- Two neighbours `a` and `b` become one free block.
module _ (m : Store) (prev pos link : ℕ) (a b : Block) (bs : List Block) (low : 4096 ≤ pos)
    (fits : end_of pos (a ∷ b ∷ bs) < 2 ^ 32) (c : Chain m prev pos link (a ∷ b ∷ bs)) where
  inside : pos + 16 + a.size + 16 + b.size < 2 ^ 32
  unfolding end_of
  inside = omega (arith, end_of-le (pos + 16 + a.size + 16 + b.size) bs)

  link_behind :
      ((m (pos + 16 + a.size)).next ≡ 0)
      ⊎ ((m (pos + 16 + a.size)).next ≡ pos + 16 + a.size + 16 + b.size)
  link_behind = link_cases m (pos + 16 + a.size) _ _ bs c.4.4

  join-Chain :
      (m' : Store)
      → m' pos ≡ record {
        size = a.size + 16 + b.size;
        is_free = true;
        next = (m (pos + 16 + a.size)).next;
        prev = prev;
      }
      → ((x : ℕ) → pos + 16 + a.size + 16 + b.size < x → m' x ≡ m x)
      → ((m (pos + 16 + a.size)).next ≡ pos + 16 + a.size + 16 + b.size
          → m' (pos + 16 + a.size + 16 + b.size)
            ≡ record (m (pos + 16 + a.size + 16 + b.size)) { prev = pos })
      → Chain m' prev pos link (block (a.size + 16 + b.size) true ∷ bs)
  join-Chain m' here above next =
      let end : pos + 16 + (a.size + 16 + b.size) ≡ pos + 16 + a.size + 16 + b.size = omega arith in
      rw (here, end)
        (
          c.0,
          refl,
          refl,
          refl,
          set_prev-Chain m m' (pos + 16 + a.size) pos (pos + 16 + a.size + 16 + b.size) _ bs
              (omega arith) above next c.4.4,
        )

  -- Step 2 of `kfree`, at the block `a` with the free block `b` behind it.
  pub coalesce_next-joins :
      a.is_free ≡ true
      → b.is_free ≡ true
      → Chain (coalesce_next pos m) prev pos link (block (a.size + 16 + b.size) true ∷ bs)
        × ((x : ℕ) → x < pos → coalesce_next pos m x ≡ m x)
  unfolding coalesce_next
  coalesce_next-joins fa fb = (
    join-Chain (coalesce_next pos m) (ground (arith, c, link_behind, inside))
        (λ x h. ground (arith, c.4, c.1, c.2, c.3, link_behind, inside))
        (λ e. ground (arith, c.4, c.1, c.2, c.3, inside)),
    λ x h. ground (arith, c.4, link_behind, inside),
  )

  -- Step 3, at the block `b` with the free block `a` in front of it.
  pub coalesce_prev-joins :
      a.is_free ≡ true
      → Chain
          (coalesce_prev (pos + 16 + a.size) m)
          prev
          pos
          link
          (block (a.size + 16 + b.size) true ∷ bs)
        × ((x : ℕ) → x < pos → coalesce_prev (pos + 16 + a.size) m x ≡ m x)
  unfolding coalesce_prev
  coalesce_prev-joins fa = (
    join-Chain (coalesce_prev (pos + 16 + a.size) m) (ground (arith, c, link_behind, inside))
        (λ x h. ground (arith, c.4, c.1, c.2, c.3, link_behind, inside))
        (λ e. ground (arith, c.4, c.1, c.2, c.3, inside)),
    λ x h. ground (arith, c.4, c.2, link_behind, inside),
  )
