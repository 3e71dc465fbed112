-- ===== src/Kheap/Chain.antt =====
-- When the headers in the store stand for a list of blocks.
use yotos.Base.{ℕ, ◌+◌, ◌*◌, ◌^◌, ◌≤◌, ◌<◌, ◌≡◌, refl, List, [], ◌∷◌, arith, length}
use yotos.Kheap.{Store}
use yotos.Kheap.Blocks.{Block}
use yotos.Kheap.Live.{end_of}

-- From the pointer `link` on, with `prev` as the block before, the headers are those of `bs`, the
-- first at `pos`, each directly behind the bytes of the last; the final link is null.
abbrev pub Chain : Store → ℕ → ℕ → ℕ → List Block → Type 0
Chain m prev pos link [] = link ≡ 0
Chain m prev pos link (b ∷ bs) =
    (link ≡ pos)
    × ((m pos).size ≡ b.size)
    × ((m pos).is_free ≡ b.is_free)
    × ((m pos).prev ≡ prev)
    × Chain m pos (pos + 16 + b.size) (m pos).next bs

pub end_of-le : (pos : ℕ) (bs : List Block) → pos + 16 * length bs ≤ end_of pos bs
unfolding end_of
end_of-le pos [] = omega arith
end_of-le pos (b ∷ bs) = omega (arith, end_of-le (pos + 16 + b.size) bs)

-- Headers below the first block do not matter.
pub frame :
    (m m' : Store) (prev pos link : ℕ) (bs : List Block)
    → ((a : ℕ) → pos ≤ a → m' a ≡ m a)
    → Chain m prev pos link bs
    → Chain m' prev pos link bs
frame m m' prev pos link [] same c = c
frame m m' prev pos link (b ∷ bs) same c = rw (same pos (omega arith)) (
  c.0,
  c.1,
  c.2,
  c.3,
  frame m m' pos (pos + 16 + b.size) (m pos).next bs (λ a h. same a (omega arith)) c.4,
)

-- A block's `prev` is the only trace of the block before it.
pub set_prev-Chain :
    (m m' : Store) (prev prev' pos link : ℕ) (bs : List Block)
    → 0 < pos
    → ((a : ℕ) → pos < a → m' a ≡ m a)
    → (link ≡ pos → m' pos ≡ record (m pos) { prev = prev' })
    → Chain m prev pos link bs
    → Chain m' prev' pos link bs
set_prev-Chain m m' prev prev' pos link [] low same head c = c
set_prev-Chain m m' prev prev' pos link (b ∷ bs) low same head c =
    let e : m' pos ≡ record (m pos) { prev = prev' } = head c.0 in
    rw e (
      c.0,
      c.1,
      c.2,
      refl,
      frame m m' pos (pos + 16 + b.size) (m pos).next bs (λ a h. same a (omega arith)) c.4,
    )

-- The heap from `start`, filled by the blocks `bs` to its last byte.
pub record IsHeap (start : ℕ) (m : Store) (bs : List Block) : Type 0 where
  pub not_null : 4096 ≤ start
  pub low : start + 1024 * 1024 < 2 ^ 32
  pub chain : Chain m 0 start start bs
  pub full : end_of start bs ≡ start + 1024 * 1024
