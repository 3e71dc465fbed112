-- ===== src/Kheap/Free.antt =====
-- `kfree` gives a block back and joins it to its free neighbours.
use yotos.Base.{
  ℕ, ◌+◌, ◌-◌, ◌%◌, ◌^◌, ◌≤◌, ◌<◌, ◌≡◌, refl, sym, ap, ◌∙◌, ◌⊎◌, inl, inr, true, false, ◌&&◌, List,
  [], ◌∷◌, arith, ◌==◌, Bool-cases,
}
use yotos.Kheap.{Store, set_is_free, coalesce_next, coalesce_prev, kfree}
use yotos.Kheap.Blocks.{
  Block, block, absorb, merge, release, and-right, absorb-free, absorb-used, release-here,
  release-next, release-far,
}
use yotos.Kheap.Live.{end_of}
use yotos.Kheap.Chain.{Chain, frame, IsHeap, end_of-le}
use mathlib.Core.Path.{subst}
use yotos.Kheap.Coalesce.{coalesce_next-joins, coalesce_prev-joins}

-- The chain behind a step that leaves every header below `pos` as it was.
abbrev Stands : Store → Store → ℕ → ℕ → ℕ → List Block → Type 0
Stands m m' prev pos link bs = Chain m' prev pos link bs × ((x : ℕ) → x < pos → m' x ≡ m x)

freed : ℕ → Store → Store
freed pos m = coalesce_next pos (set_is_free pos true m)

module _ (m : Store) (prev pos link : ℕ) (b : Block) (bs : List Block) where
  marked :
      Chain m prev pos link (b ∷ bs)
      → Chain (set_is_free pos true m) prev pos link (block b.size true ∷ bs)
  marked c =
      let here : set_is_free pos true m pos ≡ record (m pos) { is_free = true } = ground arith in
      rw here (
        c.0,
        c.1,
        refl,
        c.3,
        frame m (set_is_free pos true m) pos (pos + 16 + b.size) (m pos).next bs
            (λ a h. ground arith) c.4,
      )

-- Marking a block free and joining it to what follows.
freed-absorb :
    (m : Store) (prev pos link : ℕ) (b : Block) (bs : List Block)
    → 4096 ≤ pos
    → end_of pos (b ∷ bs) < 2 ^ 32
    → Chain m prev pos link (b ∷ bs)
    → Stands m (freed pos m) prev pos link (absorb b bs)
freed-absorb m prev pos link b [] low fits c =
    let k = marked m prev pos link b [] c in rw (same c.4) (unfold absorb in k, λ x h. ground arith)
  where
    same : (m pos).next ≡ 0 → freed pos m ≡ set_is_free pos true m
    same e = unfold freed coalesce_next in ground arith
freed-absorb m prev pos link b (d ∷ ds) low fits c =
    let k = marked m prev pos link b (d ∷ ds) c in
    elim (Bool-cases d.is_free) [
      | inl free ↦
          let (chain, below) =
            coalesce_next-joins (set_is_free pos true m) prev pos link (block b.size true) d ds low
              (unfold end_of in fits) k refl free in
          rw (absorb-free b d ds free) (unfold freed in (chain, λ x h. below x h ∙ ground arith))
      | inr used ↦ rw (absorb-used b d ds used) (
          subst (λ m'. Stands m m' prev pos link (block b.size true ∷ d ∷ ds))
            (sym (same used c.4.0 c.4.2)) (k, λ x h. ground arith))
    ]
  where
    same :
        d.is_free ≡ false
        → (m pos).next ≡ pos + 16 + b.size
        → (m (pos + 16 + b.size)).is_free ≡ d.is_free
        → freed pos m ≡ set_is_free pos true m
    same used e f = unfold freed coalesce_next in ground arith

end_of-absorb :
    (pos : ℕ) (b : Block) (bs : List Block) → end_of pos (absorb b bs) ≡ end_of pos (b ∷ bs)
end_of-absorb pos b [] = unfold end_of absorb in refl
end_of-absorb pos b (c ∷ bs) = elim (Bool-cases c.is_free) [
  | inl free ↦ rw (absorb-free b c bs free) (unfold end_of in ap (λ q. end_of q bs) (omega arith))
  | inr used ↦ rw (absorb-used b c bs used) (unfold end_of in refl)
]

-- The first block of what a freed block becomes, and the rest.
absorb-cons :
    (b : Block) (bs : List Block)
    → (c : Block) × (cs : List Block) × (absorb b bs ≡ c ∷ cs) × (c.is_free ≡ true)
absorb-cons b [] = (block b.size true, [], unfold absorb in refl, refl)
absorb-cons b (d ∷ ds) = elim (Bool-cases d.is_free) [
  | inl free ↦ (block (b.size + 16 + d.size) true, ds, absorb-free b d ds free, refl)
  | inr used ↦ (block b.size true, d ∷ ds, absorb-used b d ds used, refl)
]

-- The block in front is in use, or there is none: step 3 does nothing.
coalesce_prev-none :
    (m : Store) (prev pos link : ℕ) (b : Block) (bs : List Block)
    → Chain m prev pos link (absorb b bs)
    → (prev ≡ 0) ⊎ ((m prev).is_free ≡ false)
    → coalesce_prev pos m ≡ m
coalesce_prev-none m prev pos link b bs c quiet =
    let (d, ds, e, _) = absorb-cons b bs in go d ds (rw e at c)
  where
    go : (d : Block) (ds : List Block) → Chain m prev pos link (d ∷ ds) → coalesce_prev pos m ≡ m
    go d ds k = unfold coalesce_prev in ground (arith, k.3)

-- What `p` frees begins one of the blocks.
abbrev pub IsBlock : ℕ → ℕ → List Block → Type 0
IsBlock p pos [] = ⊥
IsBlock p pos (b ∷ bs) = (pos + 16 ≡ p) ⊎ IsBlock p (pos + 16 + b.size) bs

kfree-steps :
    (pos : ℕ) (m : Store) → pos + 16 < 2 ^ 32 → kfree (pos + 16) m ≡ coalesce_prev pos (freed pos m)
unfolding kfree freed
kfree-steps pos m h =
    let header : (pos + 16 + 2 ^ 32 - 16) % 2 ^ 32 ≡ pos = omega arith in
    let ne : (pos + 16 == 0) ≡ false = ground arith in rw (ne, header)

kfree-here :
    (m : Store) (prev pos link : ℕ) (b : Block) (bs : List Block)
    → 4096 ≤ pos
    → end_of pos (b ∷ bs) < 2 ^ 32
    → Chain m prev pos link (b ∷ bs)
    → (prev ≡ 0) ⊎ ((prev < pos) × ((m prev).is_free ≡ false))
    → Stands m (kfree (pos + 16) m) prev pos link (absorb b bs)
kfree-here m prev pos link b bs low fits c quiet =
    let (chain, below) = freed-absorb m prev pos link b bs low fits c in
    let still : (prev ≡ 0) ⊎ ((freed pos m prev).is_free ≡ false) = elim quiet [
      | inl e ↦ inl e
      | inr (lt, u) ↦ inr (rw (below prev lt) u)
    ] in
    rw
      (
        kfree-steps pos m (unfold end_of in omega (arith, end_of-le (pos + 16 + b.size) bs)),
        coalesce_prev-none (freed pos m) prev pos link b bs chain still,
      )
      (chain, below)

kfree-next :
    (m : Store) (prev pos link : ℕ) (a b : Block) (bs : List Block)
    → 4096 ≤ pos
    → end_of pos (a ∷ b ∷ bs) < 2 ^ 32
    → Chain m prev pos link (a ∷ b ∷ bs)
    → a.is_free ≡ true
    → Stands m (kfree (pos + 16 + a.size + 16) m) prev pos link (merge a (absorb b bs))
kfree-next m prev pos link a b bs low fits c free =
    let q : ℕ = pos + 16 + a.size in
    let fits' : end_of q (b ∷ bs) < 2 ^ 32 = unfold end_of in fits in
    let (chain, below) = freed-absorb m pos q (m pos).next b bs (omega arith) fits' c.4 in
    let here : freed q m pos ≡ m pos = below pos (omega arith) in
    let (d, ds, e, _) = absorb-cons b bs in
    let whole : Chain (freed q m) prev pos link (a ∷ d ∷ ds) =
      rw here (c.0, c.1, c.2, c.3, rw e at chain) in
    let short : end_of pos (a ∷ d ∷ ds) < 2 ^ 32 =
      rw (← e) (unfold end_of in rw (end_of-absorb q b bs) fits') in
    let (joined, below') =
      coalesce_prev-joins (freed q m) prev pos link a d ds low short whole free in
    let steps = kfree-steps q m (unfold end_of in omega (arith, end_of-le (q + 16 + b.size) bs)) in
    rw (steps, e) (unfold merge in joined, λ x h. below' x h ∙ below x (omega arith))

to_eq : (a b : ℕ) → (a == b) ≡ true → a ≡ b
to_eq a b h = ground arith

-- `p` does not begin the first block, so it begins a later one.
later :
    (p pos : ℕ) (b : Block) (bs : List Block)
    → (pos + 16 == p) ≡ false
    → IsBlock p pos (b ∷ bs)
    → IsBlock p (pos + 16 + b.size) bs
later p pos b bs on (inl e) = absurd (ground arith)
later p pos b bs on (inr h) = h

kfree-merge :
    (p : ℕ) (m : Store) (prev pos link : ℕ) (a : Block) (bs : List Block)
    → 4096 ≤ pos
    → end_of pos (a ∷ bs) < 2 ^ 32
    → Chain m prev pos link (a ∷ bs)
    → (a.is_free && (pos + 16 + a.size + 16 == p)) ≡ true
    → IsBlock p (pos + 16 + a.size) bs
    → Stands m (kfree p m) prev pos link (merge a (release p (pos + 16 + a.size) bs))
kfree-merge p m prev pos link a [] low fits c next at = absurd at
kfree-merge p m prev pos link a (b ∷ bs) low fits c next at =
    let e = and-right a.is_free _ next in
    rw (release-here p (pos + 16 + a.size) b bs e, ← to_eq _ p e)
      (kfree-next m prev pos link a b bs low fits c (ground arith))

quiet_next :
    (p : ℕ) (m : Store) (pos : ℕ) (b : Block)
    → (m pos).is_free ≡ b.is_free
    → (b.is_free && (pos + 16 + b.size + 16 == p)) ≡ false
    → pos + 16 + b.size + 16 ≡ p
    → (pos ≡ 0) ⊎ ((pos < pos + 16 + b.size) × ((m pos).is_free ≡ false))
quiet_next p m pos b same far e = inr (omega arith, ground arith)

kfree-release_from :
    (p : ℕ) (m : Store) (prev pos link : ℕ) (bs : List Block)
    → 4096 ≤ pos
    → end_of pos bs < 2 ^ 32
    → Chain m prev pos link bs
    → (pos + 16 ≡ p → (prev ≡ 0) ⊎ ((prev < pos) × ((m prev).is_free ≡ false)))
    → IsBlock p pos bs
    → Stands m (kfree p m) prev pos link (release p pos bs)
kfree-release_from p m prev pos link [] low fits c quiet at = absurd at
kfree-release_from p m prev pos link (b ∷ bs) low fits c quiet at =
    elim (Bool-cases (pos + 16 == p)) [
      | inl here ↦
          let e = to_eq _ p here in
          rw (release-here p pos b bs here) (
            subst (λ q. Stands m (kfree q m) prev pos link (absorb b bs)) e
              (kfree-here m prev pos link b bs low fits c (quiet e)))
      | inr on ↦ elim (Bool-cases (b.is_free && (pos + 16 + b.size + 16 == p))) [
        | inl next ↦
            rw (release-next p pos b bs on next)
              (kfree-merge p m prev pos link b bs low fits c next (later p pos b bs on at))
        | inr far ↦
            let (chain, below) =
              kfree-release_from p m pos (pos + 16 + b.size) (m pos).next bs (omega arith)
                (unfold end_of in fits) c.4 (quiet_next p m pos b c.2 far)
                (later p pos b bs on at) in
            let here : kfree p m pos ≡ m pos = below pos (omega arith) in
            rw (release-far p pos b bs on far, here)
              ((c.0, c.1, c.2, c.3, chain), λ x h. below x (omega arith))
      ]
    ]

end_of-merge :
    (pos : ℕ) (a : Block) (bs : List Block) → end_of pos (merge a bs) ≡ end_of pos (a ∷ bs)
unfolding merge end_of
end_of-merge pos a [] = refl
end_of-merge pos a (b ∷ bs) = ap (λ q. end_of q bs) (omega arith)

end_of-release : (p pos : ℕ) (bs : List Block) → end_of pos (release p pos bs) ≡ end_of pos bs
end_of-release p pos [] = unfold release in refl
end_of-release p pos (b ∷ bs) = elim (Bool-cases (pos + 16 == p)) [
  | inl here ↦ rw (release-here p pos b bs here) (end_of-absorb pos b bs)
  | inr on ↦ elim (Bool-cases (b.is_free && (pos + 16 + b.size + 16 == p))) [
    | inl next ↦
        rw (release-next p pos b bs on next)
          (end_of-merge pos b _ ∙ behind _ (end_of-release p (pos + 16 + b.size) bs))
    | inr far ↦
        rw (release-far p pos b bs on far) (behind _ (end_of-release p (pos + 16 + b.size) bs))
  ]
]
  where
    behind :
        (cs : List Block)
        → end_of (pos + 16 + b.size) cs ≡ end_of (pos + 16 + b.size) bs
        → end_of pos (b ∷ cs) ≡ end_of pos (b ∷ bs)
    behind cs e = unfold end_of in e

-- On a well-formed heap `kfree` of a pointer to one of its blocks gives that block back, joins
-- it to its free neighbours on both sides, and leaves a well-formed heap.
pub kfree-release :
    (p start : ℕ) {m : Store} {bs : List Block}
    → IsHeap start m bs
    → IsBlock p start bs
    → IsHeap start (kfree p m) (release p start bs)
kfree-release p start {m} {bs} h at = record {
  not_null = h.not_null;
  low = h.low;
  chain =
      (kfree-release_from p m 0 start start bs h.not_null (omega (arith, h.full, h.low)) h.chain
        (λ e. inl refl) at).0;
  full = end_of-release p start bs ∙ h.full;
}

-- `kfree` of the null pointer changes nothing.
kfree-null : (m : Store) → kfree 0 m ≡ m
unfolding kfree
kfree-null m = refl
