-- ===== src/Fat16/Write/Clusters.antt =====
-- What a cluster that is written changes on the disk: its own bytes and nothing else.
use yotos.Base.{
  ℕ, zero, suc, ◌+◌, ◌-◌, ◌*◌, ◌/◌, ◌%◌, ◌^◌, ◌≤◌, ◌<◌, ◌≡◌, ◌≢◌, refl, ap, ◌∙◌, ◌⊎◌, inl, inr,
  true, ◌&&◌, Bool-cases, arith, ltb, leb, ◌==◌, if◌then◌else◌, for_loop, u32,
}
use native.Mathlib.Nat.{suc-mul, mul-le-mul_right}
use yotos.Fat16.{Bytes, Volume}
use yotos.Fat16.File.{cluster_bytes, cluster_lba}
use yotos.Fat16.File.Clusters.{cluster_byte}
use yotos.Fat16.Table.{is_data_cluster, fat_entry}
use yotos.Fat16.Table.Entry.{HasEntry}
use yotos.Fat16.Write.{write_from, write_cluster}

-- The data area lies behind the table and ends inside the 32-bit sector numbers; clusters have 1
-- to 255 sectors.
pub record HasLayout (v : Volume) : Type 0 where
  pub some_sectors : 0 < v.bpb.sectors_per_cluster
  pub byte : v.bpb.sectors_per_cluster < 256
  pub behind : v.fat_lba + v.bpb.fat_size_16 ≤ v.data_lba
  pub ends : v.data_lba + 65536 * v.bpb.sectors_per_cluster < 2 ^ 32

write_sectors :
    (n first lba : ℕ) (cbuf : Bytes) (v : Volume)
    → lba + first + n < 2 ^ 32
    → let w = for_loop n first (write_from lba cbuf) v in
      (w ≡ record v { disk = w.disk })
      × ((l j : ℕ)
          → w.disk l j ≡ (
              if leb (lba + first) l && ltb l (lba + first + n)
              then cbuf ((l - lba) * 512 + j)
              else v.disk l j))
unfolding for_loop write_from
write_sectors zero first lba cbuf v h = (refl, λ l j. ground arith)
write_sectors (suc n) first lba cbuf v h =
    let small : u32 (lba + first) ≡ lba + first = omega arith in
    let ih = write_sectors n (suc first) lba cbuf (write_from lba cbuf first v) (omega arith) in
    (ih.0, λ l j. ground (arith, ih.1 l j, small))

-- The sectors of two different clusters do not meet.
lba_apart : (c d spc : ℕ) → 2 ≤ c → c < d → (c - 2) * spc + spc ≤ (d - 2) * spc
lba_apart c d spc h lt =
    omega
      (arith, suc-mul (c - 2) spc, mul-le-mul_right {m = suc (c - 2)} {n = d - 2} spc (omega arith))

lba_inside : (c spc : ℕ) → 2 ≤ c → c < 65528 → (c - 2) * spc + spc ≤ 65536 * spc
lba_inside c spc h lt =
    omega
      (arith, suc-mul (c - 2) spc, mul-le-mul_right {m = suc (c - 2)} {n = 65536} spc (omega arith))

-- Which of two clusters a sector belongs to.
choose :
    (c d s j k spc base : ℕ) (buf : Bytes) (v : Volume)
    → 2 ≤ c
    → 2 ≤ d
    → s < spc
    → s * 512 + j ≡ k
    → (if leb (base + (c - 2) * spc) (base + (d - 2) * spc + s)
          && ltb (base + (d - 2) * spc + s) (base + (c - 2) * spc + spc)
        then buf ((base + (d - 2) * spc + s - (base + (c - 2) * spc)) * 512 + j)
        else v.disk (base + (d - 2) * spc + s) j)
      ≡ (if c == d then buf k else v.disk (base + (d - 2) * spc + s) j)
choose c d s j k spc base buf v h h' lt e = elim (order c d) [
  | inl l ↦ ground (arith, lba_apart c d spc h l)
  | inr (inl same) ↦
      let product : (c - 2) * spc ≡ (d - 2) * spc = ap (λ (x : ℕ). (x - 2) * spc) same in
      let place : (base + (d - 2) * spc + s - (base + (c - 2) * spc)) * 512 + j ≡ k =
        omega (arith, product, e) in
      rw place (ground (arith, product))
  | inr (inr g) ↦ ground (arith, lba_apart d c spc h' g)
]
  where
    order : (a b : ℕ) → (a < b) ⊎ (a ≡ b) ⊎ (b < a)
    order a b = omega arith

module _ {v : Volume} (lay : HasLayout v) where
  pub cluster_lba_lem :
      (c : ℕ)
      → is_data_cluster c ≡ true
      → cluster_lba c v ≡ v.data_lba + (c - 2) * v.bpb.sectors_per_cluster
  cluster_lba_lem c on =
      let low : 2 ≤ c = ground arith in
      let high : c < 65528 = ground arith in
      omega (arith, lay.ends, lay.some_sectors, lba_inside c v.bpb.sectors_per_cluster low high)

  -- Every sector of the disk after a cluster is written.
  written_sector :
      (c : ℕ) (buf : Bytes) (l j : ℕ)
      → is_data_cluster c ≡ true
      → let lba = v.data_lba + (c - 2) * v.bpb.sectors_per_cluster in
        (write_cluster c buf v).disk l j ≡ (
          if leb lba l && ltb l (lba + v.bpb.sectors_per_cluster)
          then buf ((l - lba) * 512 + j)
          else v.disk l j)
  unfolding write_cluster
  written_sector c buf l j on =
      let lba = v.data_lba + (c - 2) * v.bpb.sectors_per_cluster in
      let low : 2 ≤ c = ground arith in
      let high : c < 65528 = ground arith in
      let start = cluster_lba_lem c on in
      let run = write_sectors v.bpb.sectors_per_cluster 0 lba buf v (
        omega
          (arith, lay.ends, lay.some_sectors, lba_inside c v.bpb.sectors_per_cluster low high)) in
      rw start (run.1 l j ∙ ground arith)

  -- Only the disk changes.
  pub write_cluster-layout :
      (c : ℕ) (buf : Bytes)
      → is_data_cluster c ≡ true
      → write_cluster c buf v ≡ record v { disk = (write_cluster c buf v).disk }
  unfolding write_cluster
  write_cluster-layout c buf on =
      let low : 2 ≤ c = ground arith in
      let high : c < 65528 = ground arith in
      let start = cluster_lba_lem c on in
      (write_sectors v.bpb.sectors_per_cluster 0 (cluster_lba c v) buf v (
        omega (
          arith,
          start,
          lay.ends,
          lay.some_sectors,
          lba_inside c v.bpb.sectors_per_cluster low high,
        ))).0

  -- The sectors in front of the data area stay as they are.
  front_sector :
      (c : ℕ) (buf : Bytes) (l j : ℕ)
      → is_data_cluster c ≡ true
      → l < v.data_lba
      → (write_cluster c buf v).disk l j ≡ v.disk l j
  front_sector c buf l j on h = ground (arith, written_sector c buf l j on)

  -- The table is not touched.
  pub fat_entry-write_cluster :
      (c e : ℕ) (buf : Bytes)
      → is_data_cluster c ≡ true
      → HasEntry v e
      → fat_entry e (write_cluster c buf v) ≡ fat_entry e v
  unfolding fat_entry
  fat_entry-write_cluster c e buf on has =
      let lba : (write_cluster c buf v).fat_lba ≡ v.fat_lba =
        ap (λ (w : Volume). w.fat_lba) (write_cluster-layout c buf on) in
      let sector = v.fat_lba + e * 2 / 512 in
      let front : sector < v.data_lba = omega (arith, lay.behind, has) in
      rw
        (
          lba,
          front_sector c buf sector (e * 2 % 512) on front,
          front_sector c buf sector (e * 2 % 512 + 1) on front,
        )
        refl

  -- The written cluster holds the buffer; every other cluster holds what it held.
  pub cluster_byte-write_cluster :
      (c d k : ℕ) (buf : Bytes)
      → is_data_cluster c ≡ true
      → is_data_cluster d ≡ true
      → k < cluster_bytes v
      → cluster_byte (write_cluster c buf v) d k ≡ (if c == d then buf k else cluster_byte v d k)
  unfolding cluster_byte
  cluster_byte-write_cluster c d k buf on on' h =
      let same = write_cluster-layout c buf on in
      let spc = v.bpb.sectors_per_cluster in
      let lba : cluster_lba d (write_cluster c buf v) ≡ cluster_lba d v = ap (cluster_lba d) same in
      let sector = v.data_lba + (d - 2) * spc + k / 512 in
      let low : 2 ≤ d = ground arith in
      let high : d < 65528 = ground arith in
      let low' : 2 ≤ c = ground arith in
      let inside : k / 512 < spc = omega arith in
      let exact : u32 (cluster_lba d v + k / 512) ≡ sector =
        omega (arith, cluster_lba_lem d on', lay.ends, lba_inside d spc low high) in
      rw (lba, exact)
        (written_sector c buf sector (k % 512) on
          ∙ choose c d (k / 512) (k % 512) k spc v.data_lba buf v low' low inside (omega arith))

  -- A sector that no byte of the cluster lies in stays as it is.
  pub other_sector :
      (c : ℕ) (buf : Bytes) (l j : ℕ)
      → is_data_cluster c ≡ true
      → ((k : ℕ) → k < cluster_bytes v → u32 (cluster_lba c v + k / 512) ≢ l)
      → (write_cluster c buf v).disk l j ≡ v.disk l j
  other_sector c buf l j on out =
      let spc = v.bpb.sectors_per_cluster in
      let lba = v.data_lba + (c - 2) * spc in
      let low : 2 ≤ c = ground arith in
      let high : c < 65528 = ground arith in
      let run = written_sector c buf l j on in
      elim (Bool-cases (leb lba l && ltb l (lba + spc))) [
        | inl inside ↦
            let from : lba ≤ l = ground arith in
            let to : l < lba + spc = ground arith in
            let place : u32 (cluster_lba c v + (l - lba) * 512 / 512) ≡ l =
              omega (arith, cluster_lba_lem c on, lay.ends, lba_inside c spc low high, from, to) in
            absurd (out ((l - lba) * 512) (omega (arith, from, to)) place)
        | inr away ↦ run ∙ rw away refl
      ]
