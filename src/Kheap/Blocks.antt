-- ===== src/Kheap/Blocks.antt =====
-- The heap as its clients see it: the blocks in address order, first fit, and the live
-- allocations. It says what kernel/kheap.c promises and knows nothing of pointers.
use yotos.Base.{
  ℕ, ◌+◌, ◌-◌, ◌≡◌, refl, inl, inr, Bool, true, false, ◌&&◌, List, [], ◌∷◌, arith, leb, ◌==◌,
  if◌then◌else◌, Bool-cases,
}

pub record Block : Type 0 where
  pub size : ℕ
  pub is_free : Bool

abbrev pub block : ℕ → Bool → Block
block n f = record { size = n; is_free = f }

-- First fit among the blocks that begin at `pos`: the pointer, or 0, and the blocks afterwards.
-- What a block has left over becomes a free block, if a header and one byte fit there.
unfoldable pub first_fit : ℕ → ℕ → List Block → ℕ × List Block
first_fit n pos [] = (0, [])
first_fit n pos (b ∷ bs) =
    let (p, rest) = first_fit n (pos + 16 + b.size) bs in
    if b.is_free && leb n b.size
    then if leb (n + 17) b.size
      then (pos + 16, block n false ∷ block (b.size - n - 16) true ∷ bs)
      else (pos + 16, block b.size false ∷ bs)
    else (p, b ∷ rest)

-- A freed block takes in the free block behind it.
unfoldable pub absorb : Block → List Block → List Block
absorb b [] = block b.size true ∷ []
absorb b (c ∷ bs) =
    if c.is_free then block (b.size + 16 + c.size) true ∷ bs else block b.size true ∷ c ∷ bs

unfoldable pub merge : Block → List Block → List Block
merge a [] = a ∷ []
merge a (b ∷ bs) = block (a.size + 16 + b.size) true ∷ bs

-- Give back the block whose bytes begin at `p`; a free block in front of it takes it in.
unfoldable pub release : ℕ → ℕ → List Block → List Block
release p pos [] = []
release p pos (b ∷ bs) =
    let rest = release p (pos + 16 + b.size) bs in
    if pos + 16 == p
    then absorb b bs
    else if b.is_free && (pos + 16 + b.size + 16 == p)
    then merge b rest
    else b ∷ rest

-- The live allocations: where the bytes of each block in use begin, and how many they are.
unfoldable pub live : ℕ → List Block → List (ℕ × ℕ)
live pos [] = []
live pos (b ∷ bs) =
    let rest = live (pos + 16 + b.size) bs in if b.is_free then rest else (pos + 16, b.size) ∷ rest

-- Free blocks never lie side by side.
abbrev pub starts_free : List Block → Bool
starts_free [] = false
starts_free (b ∷ bs) = b.is_free

abbrev pub IsCoalesced : List Block → Type 0
IsCoalesced [] = Unit
IsCoalesced (b ∷ bs) = ((b.is_free && starts_free bs) ≡ false) × IsCoalesced bs

starts_free-first_fit :
    (n pos : ℕ) (bs : List Block)
    → starts_free bs ≡ false
    → starts_free (first_fit n pos bs).1 ≡ false
unfolding first_fit
starts_free-first_fit n pos [] h = refl
starts_free-first_fit n pos (b ∷ bs) h = ground arith

-- First fit keeps free blocks apart.
pub first_fit-IsCoalesced :
    (n pos : ℕ) (bs : List Block) → IsCoalesced bs → IsCoalesced (first_fit n pos bs).1
unfolding first_fit
first_fit-IsCoalesced n pos [] h = tt
first_fit-IsCoalesced n pos (b ∷ bs) h = ground (
  arith,
  first_fit-IsCoalesced n (pos + 16 + b.size) bs h.1,
  starts_free-first_fit n (pos + 16 + b.size) bs,
)

-- A freed block with its neighbour behind, in front of what is free of free neighbours.
absorb-IsCoalesced : (b : Block) (bs : List Block) → IsCoalesced bs → IsCoalesced (absorb b bs)
unfolding absorb
absorb-IsCoalesced b [] h = (refl, tt)
absorb-IsCoalesced b (c ∷ []) h = ground arith
absorb-IsCoalesced b (c ∷ d ∷ bs) h = ground arith

starts_free-release :
    (p pos : ℕ) (bs : List Block)
    → starts_free bs ≡ false
    → (pos + 16 == p) ≡ false
    → starts_free (release p pos bs) ≡ false
unfolding release
starts_free-release p pos [] h e = refl
starts_free-release p pos (b ∷ bs) h e = ground arith

merge-IsCoalesced :
    (a b : Block) (bs : List Block) → IsCoalesced bs → IsCoalesced (merge a (absorb b bs))
unfolding merge absorb
merge-IsCoalesced a b [] h = (refl, tt)
merge-IsCoalesced a b (c ∷ []) h = ground arith
merge-IsCoalesced a b (c ∷ d ∷ bs) h = ground arith

pub absorb-free :
    (b c : Block) (bs : List Block)
    → c.is_free ≡ true
    → absorb b (c ∷ bs) ≡ block (b.size + 16 + c.size) true ∷ bs
unfolding absorb
absorb-free b c bs e = ground arith

pub absorb-used :
    (b c : Block) (bs : List Block)
    → c.is_free ≡ false
    → absorb b (c ∷ bs) ≡ block b.size true ∷ c ∷ bs
unfolding absorb
absorb-used b c bs e = ground arith

pub release-here :
    (p pos : ℕ) (b : Block) (bs : List Block)
    → (pos + 16 == p) ≡ true
    → release p pos (b ∷ bs) ≡ absorb b bs
unfolding release
release-here p pos b bs e = rw e

pub release-next :
    (p pos : ℕ) (b : Block) (bs : List Block)
    → (pos + 16 == p) ≡ false
    → (b.is_free && (pos + 16 + b.size + 16 == p)) ≡ true
    → release p pos (b ∷ bs) ≡ merge b (release p (pos + 16 + b.size) bs)
unfolding release
release-next p pos b bs e f = rw (e, f)

pub release-far :
    (p pos : ℕ) (b : Block) (bs : List Block)
    → (pos + 16 == p) ≡ false
    → (b.is_free && (pos + 16 + b.size + 16 == p)) ≡ false
    → release p pos (b ∷ bs) ≡ b ∷ release p (pos + 16 + b.size) bs
unfolding release
release-far p pos b bs e f = rw (e, f)

pub and-right : (a b : Bool) → (a && b) ≡ true → b ≡ true
and-right a b h = ground arith

-- Giving a block back keeps free blocks apart.
pub release-IsCoalesced :
    (p pos : ℕ) (bs : List Block) → IsCoalesced bs → IsCoalesced (release p pos bs)
release-IsCoalesced p pos [] h = unfold release in tt
release-IsCoalesced p pos (b ∷ bs) h = elim (Bool-cases (pos + 16 == p)) [
  | inl here ↦ rw (release-here p pos b bs here) (absorb-IsCoalesced b bs h.1)
  | inr on ↦ elim (Bool-cases (b.is_free && (pos + 16 + b.size + 16 == p))) [
    | inl next ↦ rw (release-next p pos b bs on next) (joined b bs h.1 (and-right _ _ next))
    | inr far ↦ rw (release-far p pos b bs on far) (
      ground (arith, starts_free-release p (pos + 16 + b.size) bs),
      release-IsCoalesced p (pos + 16 + b.size) bs h.1,
    )
  ]
]
  where
    joined :
        (b : Block) (bs : List Block)
        → IsCoalesced bs
        → (pos + 16 + b.size + 16 == p) ≡ true
        → IsCoalesced (merge b (release p (pos + 16 + b.size) bs))
    joined b [] k e = unfold release merge in ground arith
    joined b (c ∷ cs) k e =
        rw (release-here p (pos + 16 + b.size) c cs e) (merge-IsCoalesced b c cs k.1)
