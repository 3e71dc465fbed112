-- ===== src/Fat16/Table/Chain.antt =====
-- `fat_free_chain`: it ends on every volume, and on a chain it frees the chain.
use yotos.Base.{
  ℕ, zero, suc, ◌+◌, ◌≤◌, ◌<◌, ◌≡◌, refl, sym, ◌∙◌, ◌≢◌, inl, inr, Bool, true, false, ◌||◌, some,
  List, [], ◌∷◌, arith, ◌==◌, if◌then◌else◌, Bool-cases, length,
}
use native.Mathlib.Decide.{ℕ_discrete}
use yotos.Fat16.{Volume}
use yotos.Fat16.Table.{fat_entry, fat_set_entry, is_data_cluster, free_chain_loop, fat_free_chain}
use yotos.Fat16.Table.Entry.{
  HasEntry, fat_entry-fat_set_entry, fat_set_entry-zero_or, fat_set_entry-zero, bpb-fat_set_entry,
}

-- The entries below `n` that are not zero.
nonzero : ℕ → Volume → ℕ
nonzero zero v = 0
nonzero (suc n) v = (if fat_entry n v == 0 then 0 else 1) + nonzero n v

nonzero-le : (n : ℕ) (v : Volume) → nonzero n v ≤ n
unfolding nonzero
nonzero-le zero v = omega arith
nonzero-le (suc n) v = ground (arith, nonzero-le n v)

nonzero-fat_set_entry : (n c : ℕ) (v : Volume) → nonzero n (fat_set_entry c 0 v) ≤ nonzero n v
unfolding nonzero
nonzero-fat_set_entry zero c v = omega arith
nonzero-fat_set_entry (suc n) c v =
    ground (arith, nonzero-fat_set_entry n c v, fat_set_entry-zero_or c n v)

nonzero-drops :
    (n c : ℕ) (v : Volume)
    → c < n
    → fat_entry c v ≢ 0
    → nonzero n (fat_set_entry c 0 v) < nonzero n v
unfolding nonzero
nonzero-drops zero c v h ne = absurd (omega arith)
nonzero-drops (suc n) c v h ne = elim (ℕ_discrete n c) [
  | yes e ↦ ground (arith, fat_set_entry-zero n v, nonzero-fat_set_entry n c v)
  | no ne' ↦ ground (arith, nonzero-drops n c v, fat_set_entry-zero_or c n v)
]

free_chain_loop-total :
    (fuel c : ℕ) (v : Volume)
    → nonzero 65536 v + 2 ≤ fuel
    → (w : Volume) × (free_chain_loop fuel c v ≡ some w)
unfolding free_chain_loop
free_chain_loop-total zero c v h = absurd (omega arith)
free_chain_loop-total (suc zero) c v h = absurd (omega arith)
free_chain_loop-total (suc (suc fuel)) c v h = elim (Bool-cases (is_data_cluster c)) [
  | inr done ↦ (v, rw done)
  | inl on ↦ elim (ℕ_discrete (fat_entry c v) 0) [
    | yes e ↦ (fat_set_entry c 0 v, rw (on, e))
    | no ne ↦
        let (w, eq) =
          free_chain_loop-total (suc fuel) (fat_entry c v) (fat_set_entry c 0 v)
            (omega (arith, nonzero-drops 65536 c v (below on) ne)) in
        (w, rw on eq)
  ]
]
  where
    below : is_data_cluster c ≡ true → c < 65536
    below on = ground arith

-- `fat_free_chain` ends on every volume and from every cluster, also where the table is damaged
-- and its links go round in a circle.
pub fat_free_chain-total : (c : ℕ) (v : Volume) → (w : Volume) × (fat_free_chain c v ≡ some w)
unfolding fat_free_chain
fat_free_chain-total c v = free_chain_loop-total 65540 c v (omega (arith, nonzero-le 65536 v))

abbrev pub mem : ℕ → List ℕ → Bool
mem d [] = false
mem d (c ∷ cs) = (c == d) || mem d cs

-- The links lead from `c` through the distinct clusters `cs` to an end mark.
abbrev pub IsChain : Volume → ℕ → List ℕ → Type 0
IsChain v c [] = is_data_cluster c ≡ false
IsChain v c (x ∷ cs) =
    (c ≡ x)
    × (is_data_cluster x ≡ true)
    × HasEntry v x
    × (mem x cs ≡ false)
    × IsChain v (fat_entry x v) cs

-- A chain does not notice a change outside it.
pub IsChain-frame :
    (v w : Volume) (c : ℕ) (cs : List ℕ)
    → w.bpb ≡ v.bpb
    → ((d : ℕ) → HasEntry v d → mem d cs ≡ true → fat_entry d w ≡ fat_entry d v)
    → IsChain v c cs
    → IsChain w c cs
IsChain-frame v w c [] same agree k = k
IsChain-frame v w c (x ∷ cs) same agree k =
    let e : fat_entry x w ≡ fat_entry x v = agree x k.2 (ground arith) in
    (
      k.0,
      k.1,
      rw same k.2,
      k.3,
      rw e (IsChain-frame v w (fat_entry x v) cs same (λ d h m. agree d h (ground arith)) k.4),
    )

-- What is left of the table when the clusters `cs` are freed.
pub record Freed (v : Volume) (cs : List ℕ) (w : Volume) : Type 0 where
  pub entries : (d : ℕ) → HasEntry v d → fat_entry d w ≡ (if mem d cs then 0 else fat_entry d v)
  pub bpb : w.bpb ≡ v.bpb

pub mem-ne : (x d : ℕ) (cs : List ℕ) → mem x cs ≡ false → mem d cs ≡ true → (x == d) ≡ false
mem-ne x d [] out inside = cc
mem-ne x d (c ∷ cs) out inside = ground (arith, mem-ne x d cs)

free_chain_loop-Freed :
    (fuel c : ℕ) (v : Volume) (cs : List ℕ)
    → IsChain v c cs
    → length cs < fuel
    → (w : Volume) × (free_chain_loop fuel c v ≡ some w) × Freed v cs w
unfolding free_chain_loop
free_chain_loop-Freed zero c v cs k enough = absurd (omega arith)
free_chain_loop-Freed (suc fuel) c v [] k enough =
    (v, rw k refl, record { entries = λ d h. refl; bpb = refl })
free_chain_loop-Freed (suc fuel) c v (x ∷ cs) k enough =
    let v1 : Volume = fat_set_entry x 0 v in
    let same : v1.bpb ≡ v.bpb = bpb-fat_set_entry x 0 v in
    let written =
      λ (d : ℕ) (h : HasEntry v d). fat_entry-fat_set_entry v x d 0 k.2 h (omega arith) in
    let rest : IsChain v1 (fat_entry x v) cs =
      IsChain-frame v v1 (fat_entry x v) cs same
        (λ d h m. written d h ∙ keep d (mem-ne x d cs k.3 m) (fat_entry d v)) k.4 in
    let (w, eq, f) = free_chain_loop-Freed fuel (fat_entry x v) v1 cs rest (omega arith) in
    (
      w,
      rw (k.0, k.1) eq,
      record {
        entries = λ d h. ground (arith, f.entries d (rw same h), written d h);
        bpb = f.bpb ∙ same;
      },
    )
  where
    keep : (d : ℕ) → (x == d) ≡ false → (e : ℕ) → (if x == d then 0 else e) ≡ e
    keep d ne e = rw ne

free_chain_loop-more :
    (fuel more c : ℕ) (v w : Volume)
    → free_chain_loop fuel c v ≡ some w
    → free_chain_loop (fuel + more) c v ≡ some w
unfolding free_chain_loop
free_chain_loop-more zero more c v w h = cc
free_chain_loop-more (suc fuel) more c v w h =
    let e : suc fuel + more ≡ suc (fuel + more) = omega arith in
    rw e (elim (Bool-cases (is_data_cluster c)) [
      | inl on ↦
          rw on
            (free_chain_loop-more fuel more (fat_entry c v) (fat_set_entry c 0 v) w (rw on at h))
      | inr done ↦ rw done (rw done at h)
    ])

-- On a chain of distinct clusters of the volume `fat_free_chain` ends, makes the entries of the
-- chain zero, and leaves every other entry of the table and the boot parameters as they were.
pub fat_free_chain-Freed :
    (c : ℕ) (v : Volume) (cs : List ℕ)
    → IsChain v c cs
    → (w : Volume) × (fat_free_chain c v ≡ some w) × Freed v cs w
unfolding fat_free_chain
fat_free_chain-Freed c v cs k =
    let (w, e) = fat_free_chain-total c v in
    let (w', e', f) = free_chain_loop-Freed (65540 + suc (length cs)) c v cs k (omega arith) in
    let same = free_chain_loop-more 65540 (suc (length cs)) c v w (unfold fat_free_chain in e) in
    (w', e ∙ sym same ∙ e', f)
