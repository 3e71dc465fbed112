-- ===== src/Fat16/Table/Alloc.antt =====
-- `fat_alloc_cluster`: the first free cluster, or a full disk.
use yotos.Base.{
  ℕ, zero, suc, ◌+◌, ◌-◌, ◌*◌, ◌/◌, ◌%◌, ◌≤◌, ◌<◌, ◌≡◌, refl, sym, ◌∙◌, ◌≢◌, ◌↔◌, inl, inr, Bool,
  true, false, not, ◌||◌, Option, none, some, arith, ltb, ◌==◌, if◌then◌else◌, Bool-cases,
  Option-cases, take, u16,
}
use native.Mathlib.Decide.{dec_lt, ℕ_discrete}
use mathlib.Core.Path.{subst}
use yotos.Fat16.{Volume, Bytes, u16_at, read_sector}
use yotos.Fat16.Table.{fat_entry, fat_set_entry, free_entry, free_cluster, fat_alloc_cluster}
use yotos.Fat16.Table.Entry.{HasEntry, fat_entry-fat_set_entry}

-- The search passes over the entry k of sector s: a reserved cluster, or one in use.
abbrev passed : ℕ → ℕ → Bytes → Bool
passed s k buf = ltb (s * 256 + k) 2 || not (u16_at buf (2 * k) == 0)

free_entry-suc :
    (left s i : ℕ) (buf : Bytes)
    → free_entry (suc left) s i buf
      ≡ (if passed s i buf then free_entry left s (i + 1) buf else some (s * 256 + i))
unfolding free_entry
free_entry-suc left s i buf = ground arith

free_entry-free :
    (left s i : ℕ) (buf : Bytes) (c : ℕ)
    → free_entry left s i buf ≡ some c
    → (s * 256 + i ≤ c) × (c < s * 256 + i + left) × (passed s (c - s * 256) buf ≡ false)
free_entry-free zero s i buf c h = unfold free_entry in cc
free_entry-free (suc left) s i buf c h = elim (Bool-cases (passed s i buf)) [
  | inl skip ↦
      let h' : free_entry left s (i + 1) buf ≡ some c =
        rw (free_entry-suc left s i buf, skip) at h in
      let (low, high, free) = free_entry-free left s (i + 1) buf c h' in
      (omega arith, omega arith, free)
  | inr take ↦
      let h' : ◌≡◌ {A = Option ℕ} (some (s * 256 + i)) (some c) =
        rw (free_entry-suc left s i buf, take) at h in
      let here : c ≡ s * 256 + i = ground arith in
      let at : c - s * 256 ≡ i = omega arith in (omega arith, omega arith, rw at take)
]

free_entry-least :
    (left s i : ℕ) (buf : Bytes) (c k : ℕ)
    → free_entry left s i buf ≡ some c
    → i ≤ k
    → s * 256 + k < c
    → passed s k buf ≡ true
free_entry-least zero s i buf c k h p q = unfold free_entry in cc
free_entry-least (suc left) s i buf c k h p q = elim (Bool-cases (passed s i buf)) [
  | inl skip ↦ elim (ℕ_discrete i k) [
    | yes e ↦ subst (λ j. passed s j buf ≡ true) e skip
    | no ne ↦
        free_entry-least left s (i + 1) buf c k (rw (free_entry-suc left s i buf, skip) at h)
          (omega arith) q
  ]
  | inr take ↦
      let h' : ◌≡◌ {A = Option ℕ} (some (s * 256 + i)) (some c) =
        rw (free_entry-suc left s i buf, take) at h in
      absurd (ground arith)
]

free_entry-none :
    (left s i : ℕ) (buf : Bytes) (k : ℕ)
    → free_entry left s i buf ≡ none
    → i ≤ k
    → k < i + left
    → passed s k buf ≡ true
free_entry-none zero s i buf k h p q = absurd (omega arith)
free_entry-none (suc left) s i buf k h p q = elim (Bool-cases (passed s i buf)) [
  | inl skip ↦ elim (ℕ_discrete i k) [
    | yes e ↦ subst (λ j. passed s j buf ≡ true) e skip
    | no ne ↦
        free_entry-none left s (i + 1) buf k (rw (free_entry-suc left s i buf, skip) at h)
          (omega arith) (omega arith)
  ]
  | inr take ↦
      let h' : ◌≡◌ {A = Option ℕ} (some (s * 256 + i)) none =
        rw (free_entry-suc left s i buf, take) at h in
      cc
]

-- The same of whole clusters: passed over is a reserved cluster, or one whose entry is not 0.
abbrev taken : ℕ → Volume → Bool
taken c v = ltb c 2 || not (fat_entry c v == 0)

passed-taken :
    (s k : ℕ) (v : Volume)
    → k < 256
    → passed s k (read_sector (v.fat_lba + s) v) ≡ taken (s * 256 + k) v
unfolding fat_entry
passed-taken s k v h =
    let sector : (s * 256 + k) * 2 / 512 ≡ s = omega arith in
    let within : (s * 256 + k) * 2 % 512 ≡ 2 * k = omega arith in rw (sector, within)

in_sector :
    (s : ℕ) (v : Volume) (k : ℕ)
    → s * 256 ≤ k
    → k < (s + 1) * 256
    → passed s (k - s * 256) (read_sector (v.fat_lba + s) v) ≡ true
    → taken k v ≡ true
in_sector s v k low high e =
    let at : s * 256 + (k - s * 256) ≡ k = omega arith in
    subst (λ x. taken x v ≡ true) at (sym (passed-taken s (k - s * 256) v (omega arith)) ∙ e)

free_cluster-free :
    (left s : ℕ) (v : Volume) (c : ℕ)
    → free_cluster left s v ≡ some c
    → (s * 256 ≤ c) × (c < (s + left) * 256) × (taken c v ≡ false)
unfolding free_cluster
free_cluster-free zero s v c h = cc
free_cluster-free (suc left) s v c h =
    elim (Option-cases (free_entry 256 s 0 (read_sector (v.fat_lba + s) v))) [
      | inl e ↦
          let (low, high, free) = free_cluster-free left (s + 1) v c (ground arith) in
          (omega arith, omega arith, free)
      | inr (d, e) ↦
          let same : d ≡ c = ground arith in
          let (low, high, free) = free_entry-free 256 s 0 (read_sector (v.fat_lba + s) v) d e in
          let at : s * 256 + (d - s * 256) ≡ c = omega arith in
          (
            omega arith,
            omega arith,
            subst (λ x. taken x v ≡ false) at
                (sym (passed-taken s (d - s * 256) v (omega arith)) ∙ free),
          )
    ]

-- Every cluster before the one that is found is taken …
free_cluster-least :
    (left s : ℕ) (v : Volume) (c k : ℕ)
    → free_cluster left s v ≡ some c
    → s * 256 ≤ k
    → k < c
    → taken k v ≡ true
unfolding free_cluster
free_cluster-least zero s v c k h p q = cc
free_cluster-least (suc left) s v c k h p q =
    elim (Option-cases (free_entry 256 s 0 (read_sector (v.fat_lba + s) v))) [
      | inl e ↦ elim (dec_lt k ((s + 1) * 256)) [
        | yes here ↦
            in_sector s v k p here
              (free_entry-none 256 s 0 _ (k - s * 256) e (omega arith) (omega arith))
        | no on ↦ free_cluster-least left (s + 1) v c k (ground arith) (omega arith) q
      ]
      | inr (d, e) ↦
          let same : d ≡ c = ground arith in
          let found = free_entry-free 256 s 0 (read_sector (v.fat_lba + s) v) d e in
          in_sector s v k p (omega arith)
            (free_entry-least 256 s 0 _ d (k - s * 256) e (omega arith) (omega arith))
    ]

-- … and all of them are, where none is found.
free_cluster-none :
    (left s : ℕ) (v : Volume) (k : ℕ)
    → free_cluster left s v ≡ none
    → s * 256 ≤ k
    → k < (s + left) * 256
    → taken k v ≡ true
unfolding free_cluster
free_cluster-none zero s v k h p q = absurd (omega arith)
free_cluster-none (suc left) s v k h p q =
    elim (Option-cases (free_entry 256 s 0 (read_sector (v.fat_lba + s) v))) [
      | inl e ↦ elim (dec_lt k ((s + 1) * 256)) [
        | yes here ↦
            in_sector s v k p here
              (free_entry-none 256 s 0 _ (k - s * 256) e (omega arith) (omega arith))
        | no on ↦ free_cluster-none left (s + 1) v k (ground arith) (omega arith) (omega arith)
      ]
      | inr (d, e) ↦ absurd (ground arith)
    ]

alloc-none : (v : Volume) → free_cluster v.bpb.fat_size_16 0 v ≡ none → fat_alloc_cluster v ≡ (0, v)
unfolding fat_alloc_cluster
alloc-none v e = ground arith

alloc-some :
    (v : Volume) (c : ℕ)
    → free_cluster v.bpb.fat_size_16 0 v ≡ some c
    → fat_alloc_cluster v ≡ (u16 c, fat_set_entry (u16 c) 0xFFFF v)
unfolding fat_alloc_cluster
alloc-some v c e = ground arith

-- On a volume whose table has at most 256 sectors, an allocation that succeeds takes the first free
-- cluster: it is no reserved one and has an
-- entry, which was 0; every earlier cluster is in use; the entry becomes the end mark 0xFFFF,
-- and no other entry changes.
pub fat_alloc_cluster-first :
    (v : Volume)
    → v.bpb.fat_size_16 ≤ 256
    → (fat_alloc_cluster v).0 ≢ 0
    → let (c, w) = fat_alloc_cluster v in
      (2 ≤ c)
      × HasEntry v c
      × (fat_entry c v ≡ 0)
      × ((k : ℕ) → 2 ≤ k → k < c → fat_entry k v ≢ 0)
      × ((d : ℕ) → HasEntry v d → fat_entry d w ≡ (if c == d then 0xFFFF else fat_entry d v))
fat_alloc_cluster-first v small ok = elim (Option-cases (free_cluster v.bpb.fat_size_16 0 v)) [
  | inl e ↦ absurd (ok (rw (alloc-none v e) refl))
  | inr (c, e) ↦
      let (low, high, free) = free_cluster-free v.bpb.fat_size_16 0 v c e in
      let whole : u16 c ≡ c = omega arith in
      let has : HasEntry v c = omega arith in
      let (two, zero') = not_taken c v free in
      rw (alloc-some v c e, whole)
        (
          two,
          has,
          zero',
          λ k p q. in_use k v p (free_cluster-least v.bpb.fat_size_16 0 v c k e (omega arith) q),
          λ d h. fat_entry-fat_set_entry v c d 0xFFFF has h (omega arith),
        )
]
  where
    not_taken : (c : ℕ) (v : Volume) → taken c v ≡ false → (2 ≤ c) × (fat_entry c v ≡ 0)
    not_taken c v h = ground arith

    in_use : (k : ℕ) (v : Volume) → 2 ≤ k → taken k v ≡ true → fat_entry k v ≢ 0
    in_use k v p h = ground arith

-- On a volume whose table has at most 256 sectors, an allocation reports a full disk exactly when
-- every cluster of the table from 2 on is in use.
pub fat_alloc_cluster-full_iff :
    (v : Volume)
    → v.bpb.fat_size_16 ≤ 256
    → ((fat_alloc_cluster v).0 ≡ 0) ↔ ((k : ℕ) → 2 ≤ k → HasEntry v k → fat_entry k v ≢ 0)
fat_alloc_cluster-full_iff v small = elim (Option-cases (free_cluster v.bpb.fat_size_16 0 v)) [
  | inl e ↦ (
    λ _ k p h. in_use k p (free_cluster-none v.bpb.fat_size_16 0 v k e (omega arith) (omega arith)),
    λ _. rw (alloc-none v e) refl,
  )
  | inr (c, e) ↦
      let (low, high, free) = free_cluster-free v.bpb.fat_size_16 0 v c e in
      let (two, zero') = not_taken c free in
      rw (alloc-some v c e)
        (λ null. absurd (omega arith), λ all. absurd (all c two (omega arith) zero'))
]
  where
    not_taken : (c : ℕ) → taken c v ≡ false → (2 ≤ c) × (fat_entry c v ≡ 0)
    not_taken c h = ground arith

    in_use : (k : ℕ) → 2 ≤ k → taken k v ≡ true → fat_entry k v ≢ 0
    in_use k p h = ground arith
