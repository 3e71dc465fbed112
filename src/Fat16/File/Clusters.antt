-- ===== src/Fat16/File/Clusters.antt =====
-- The bytes of a cluster and of a chain of clusters.
use yotos.Base.{
  ℕ, zero, suc, ◌+◌, ◌-◌, ◌*◌, ◌/◌, ◌%◌, ◌≤◌, ◌<◌, ◌≡◌, refl, ap, ◌∙◌, inl, inr, false, ◌&&◌, some,
  List, [], ◌∷◌, ◌++◌, arith, ltb, leb, if◌then◌else◌, Bool-cases, length, get_or, drop, for_loop,
  u32, le→ltb,
}
use yotos.Fat16.{Bytes, Volume, read_sector, bytes_at}
use yotos.Fat16.Dir.{walk}
use yotos.Fat16.File.{cluster_bytes, cluster_lba, read_into, read_cluster}
use yotos.Fat16.Table.{fat_entry}
use yotos.Fat16.Table.Chain.{IsChain}
use native.Mathlib.Nat.{suc-mul}

-- Byte `k` of a cluster, on the disk.
unfoldable pub cluster_byte : Volume → ℕ → ℕ → ℕ
cluster_byte v cluster k = read_sector (u32 (cluster_lba cluster v + k / 512)) v (k % 512)

-- Byte `k` of the clusters of a chain, laid one behind the other.
unfoldable pub chain_byte : Volume → List ℕ → ℕ → ℕ
chain_byte v [] k = 0
chain_byte v (c ∷ cs) k =
    let rest = chain_byte v cs (k - cluster_bytes v) in
    if ltb k (cluster_bytes v) then cluster_byte v c k else rest

read_sectors :
    (n first lba : ℕ) (v : Volume) (buf : Bytes) (j : ℕ)
    → for_loop n first (read_into lba v) buf j ≡ (
        if leb (first * 512) j && ltb j ((first + n) * 512)
        then read_sector (u32 (lba + j / 512)) v (j % 512)
        else buf j)
unfolding for_loop read_into
read_sectors zero first lba v buf j = ground arith
read_sectors (suc n) first lba v buf j =
    let ih = read_sectors n (suc first) lba v (read_into lba v first buf) j in
    elim (Bool-cases (leb (first * 512) j && ltb j (first * 512 + 512))) [
      | inl e ↦
          let sector : j / 512 ≡ first = ground arith in
          let place : j % 512 ≡ j - first * 512 = ground arith in
          rw (sector, place) (ih ∙ ground arith)
      | inr e ↦ ih ∙ ground arith
    ]

-- `read_cluster` fills the buffer with the bytes of the cluster.
pub read_cluster-cluster_byte :
    (cluster : ℕ) (v : Volume) (buf : Bytes) (j : ℕ)
    → j < cluster_bytes v
    → read_cluster cluster v buf j ≡ cluster_byte v cluster j
unfolding read_cluster cluster_byte
read_cluster-cluster_byte cluster v buf j h =
    read_sectors v.bpb.sectors_per_cluster 0 (cluster_lba cluster v) v buf j ∙ ground arith

-- Steps along a chain reach the clusters behind those that were passed.
pub walk-IsChain :
    (n c : ℕ) (v : Volume) (cs : List ℕ)
    → IsChain v c cs
    → n ≤ length cs
    → (d : ℕ) × (walk n c v ≡ some d) × IsChain v d (drop n cs)
unfolding walk
walk-IsChain zero c v cs k h = (c, refl, k)
walk-IsChain (suc n) c v [] k h = absurd (omega arith)
walk-IsChain (suc n) c v (x ∷ cs) k h =
    let (d, e, rest) = walk-IsChain n (fat_entry x v) v cs k.4 (omega arith) in
    (d, rw (k.0, k.1) e, rest)

pub chain_byte-drop :
    (n k : ℕ) (v : Volume) (cs : List ℕ)
    → n ≤ length cs
    → chain_byte v cs (n * cluster_bytes v + k) ≡ chain_byte v (drop n cs) k
unfolding chain_byte
chain_byte-drop zero k v cs h = ap (chain_byte v cs) (omega arith)
chain_byte-drop (suc n) k v [] h = absurd (omega arith)
chain_byte-drop (suc n) k v (c ∷ cs) h =
    let size = cluster_bytes v in
    let ih = chain_byte-drop n k v cs (omega arith) in
    let past : ltb (suc n * size + k) size ≡ false =
      le→ltb (suc n * size + k) size (omega (arith, suc-mul n size)) in
    let back : suc n * size + k - size ≡ n * size + k = omega (arith, suc-mul n size) in
    rw (past, back) ih

pub get_or-append :
    (xs ys : List ℕ) (i : ℕ)
    → get_or (xs ++ ys) i 0
      ≡ (if ltb i (length xs) then get_or xs i 0 else get_or ys (i - length xs) 0)
get_or-append [] ys i = ground arith
get_or-append (x ∷ xs) ys zero = ground arith
get_or-append (x ∷ xs) ys (suc i) = ground (arith, get_or-append xs ys i)

pub length-bytes_at : (b : Bytes) (i n : ℕ) → length (bytes_at b i n) ≡ n
length-bytes_at b i zero = refl
length-bytes_at b i (suc n) = ap suc (length-bytes_at b (i + 1) n)

pub get_or-bytes_at : (b : Bytes) (i n k : ℕ) → k < n → get_or (bytes_at b i n) k 0 ≡ b (i + k)
get_or-bytes_at b i zero k h = absurd (omega arith)
get_or-bytes_at b i (suc n) zero h = ap b (omega arith)
get_or-bytes_at b i (suc n) (suc k) h =
    get_or-bytes_at b (i + 1) n k (omega arith) ∙ ap b (omega arith)
