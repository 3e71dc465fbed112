-- ===== src/Fat16/File/Read.antt =====
-- `fat16_vfs_read` gives the bytes of the file, wherever they lie on the disk.
use yotos.Base.{
  ℕ, zero, suc, ◌+◌, ◌-◌, ◌*◌, ◌/◌, ◌%◌, ◌^◌, ◌≤◌, ◌<◌, ◌≡◌, refl, sym, ap, ◌∙◌, ◌≢◌, ◌⊎◌, inl, inr,
  true, false, not, some, List, [], ◌∷◌, ◌++◌, arith, ltb, leb, ◌==◌, if◌then◌else◌, min,
  Bool-cases, length, get_or, drop, length-append, length-drop, u16, u32, ltb→lt, lt→ltb, le→ltb,
}
use mathlib.Core.Path.{subst}
use native.Mathlib.Nat.{suc-mul, mod-lt, div-add-mod', div-lt_iff_lt-mul, mul-sub, mul_comm}
use yotos.Fat16.{Bytes, Volume, bytes_at}
use yotos.Fat16.File.{cluster_bytes, read_cluster, read_loop, vfs_read}
use yotos.Fat16.File.Clusters.{
  chain_byte, read_cluster-cluster_byte, walk-IsChain, chain_byte-drop, get_or-append,
  length-bytes_at, get_or-bytes_at,
}
use yotos.Fat16.Table.{is_data_cluster, fat_entry}
use yotos.Fat16.Table.Chain.{IsChain}
use yotos.Kheap.{Store, kfree}
use yotos.Kheap.Blocks.{Block, first_fit, live, IsCoalesced}
use yotos.Kheap.Scratch.{kfree-kmalloc}
use yotos.Kheap.Chain.{IsHeap}
use yotos.Vfs.{VfsNode}

-- The bytes `l` are those of a chain from the place `start` on.
abbrev pub Content : Volume → List ℕ → ℕ → List ℕ → Type 0
Content v cs start l = (i : ℕ) → i < length l → get_or l i 0 ≡ chain_byte v cs (start + i)

-- One round: what is copied out of a cluster, and what the rest of the chain gives.
round-Content :
    (start copy c : ℕ) (v : Volume) (cs later : List ℕ) (cbuf : Bytes)
    → start + copy ≤ cluster_bytes v
    → (0 < length later → start + copy ≡ cluster_bytes v)
    → Content v cs 0 later
    → Content v (c ∷ cs) start (bytes_at (read_cluster c v cbuf) start copy ++ later)
unfolding chain_byte
round-Content start copy c v cs later cbuf fits full rest i h =
    let full_buf = read_cluster c v cbuf in
    let whole = length-append (bytes_at full_buf start copy) later in
    let size = length-bytes_at full_buf start copy in
    let split = get_or-append (bytes_at full_buf start copy) later i in
    elim (below i copy) [
      | inl lt ↦
          let first : ltb i (length (bytes_at full_buf start copy)) ≡ true =
            rw size (lt→ltb i copy lt) in
          let inside : ltb (start + i) (cluster_bytes v) ≡ true =
            lt→ltb (start + i) (cluster_bytes v) (omega arith) in
          rw (split, first, inside)
            (get_or-bytes_at full_buf start copy i lt
              ∙ read_cluster-cluster_byte c v cbuf (start + i) (omega arith))
      | inr ge ↦
          let more : 0 < length later = omega (arith, whole, size, h) in
          let behind : ltb i (length (bytes_at full_buf start copy)) ≡ false =
            rw size (le→ltb i copy ge) in
          let outside : ltb (start + i) (cluster_bytes v) ≡ false =
            le→ltb (start + i) (cluster_bytes v) (omega (arith, full more)) in
          let place : start + i - cluster_bytes v ≡ 0 + (i - copy) = omega (arith, full more) in
          rw (split, behind, outside, place, size) (rest (i - copy) (omega (arith, whole, size, h)))
    ]
  where
    below : (a b : ℕ) → (a < b) ⊎ (b ≤ a)
    below a b = omega arith

-- A volume whose clusters have sectors, their number a byte.
abbrev pub HasClusters : Volume → Type 0
HasClusters v = (0 < v.bpb.sectors_per_cluster) × (v.bpb.sectors_per_cluster < 256)

-- What a round copies: all that is left of the cluster or of the request.
copy_bounds :
    (size done avail : ℕ)
    → done < size
    → size < 2 ^ 31
    → 0 < avail
    → avail < 2 ^ 31
    → let copy = if ltb size (u32 (done + avail)) then size - done else avail in
      (copy ≤ avail) × (copy ≤ size - done) × ((copy ≡ avail) ⊎ (copy ≡ size - done)) × (0 < copy)
copy_bounds size done avail h k a b = elim (Bool-cases (ltb size (u32 (done + avail)))) [
  | inl e ↦ rw e (ground arith, omega arith, inr refl, omega arith)
  | inr e ↦ rw e (omega arith, ground arith, inl refl, omega arith)
]

read_loop-Content :
    (fuel size done start c : ℕ) (cbuf : Bytes) (v : Volume) (cs : List ℕ)
    → HasClusters v
    → size < 2 ^ 31
    → IsChain v c cs
    → start < cluster_bytes v
    → done ≤ size
    → size - done + start ≤ length cs * cluster_bytes v
    → size - done < fuel
    → (l : List ℕ) × (read_loop fuel size done start c cbuf v ≡ some l)
      × (length l ≡ size - done)
      × Content v cs start l
unfolding read_loop
read_loop-Content zero size done start c cbuf v cs hc small k s le room enough =
    absurd (omega arith)
read_loop-Content (suc fuel) size done start c cbuf v [] hc small k s le room enough =
    let finished : ltb done size ≡ false = le→ltb done size (omega arith) in
    ([], rw finished refl, omega arith, λ i h. absurd (omega arith))
read_loop-Content (suc fuel) size done start c cbuf v (x ∷ cs) hc small k s le room enough =
    elim (Bool-cases (ltb done size)) [
      | inr finished ↦ ([], rw finished refl, ground arith, λ i h. absurd (omega arith))
      | inl going ↦
          let avail = cluster_bytes v - start in
          let copy = if ltb size (u32 (done + avail)) then size - done else avail in
          let copied : (copy ≤ avail)
              × (copy ≤ size - done)
              × ((copy ≡ avail) ⊎ (copy ≡ size - done))
              × (0 < copy) =
            copy_bounds size done avail (ltb→lt done size going) small (omega arith)
              (omega arith) in
          let on : is_data_cluster c ≡ true = rw k.0 k.1 in
          let behind : IsChain v (fat_entry c v) cs = rw k.0 k.4 in
          let (l, e, len, content) =
            read_loop-Content fuel size (done + copy) 0 (fat_entry c v) (read_cluster c v cbuf) v cs
              hc small behind (omega arith) (omega (arith, copied))
              (omega (arith, copied, suc-mul (length cs) (cluster_bytes v)))
              (omega (arith, copied)) in
          (
            bytes_at (read_cluster c v cbuf) start copy ++ l,
            rw (going, on, e) refl,
            omega (
              arith,
              length-append (bytes_at (read_cluster c v cbuf) start copy) l,
              length-bytes_at (read_cluster c v cbuf) start copy,
              len,
              copied,
            ),
            subst (λ d. Content v (d ∷ cs) start (bytes_at (read_cluster c v cbuf) start copy ++ l))
                k.0
                (round-Content start copy c v cs l cbuf (omega (arith, copied))
                  (λ more. omega (arith, copied, len)) content),
          )
    ]

-- The clusters behind those that are passed hold the rest of the request.
remaining :
    (offset n wanted cb left : ℕ)
    → left ≡ n - offset / cb
    → wanted + offset ≤ n * cb
    → wanted - 0 + offset % cb ≤ left * cb
remaining offset n wanted cb left e h = omega (
  arith,
  div-add-mod' offset cb,
  ap (λ (t : ℕ). t * cb) e,
  mul-sub cb n (offset / cb),
  mul_comm cb (n - offset / cb),
  mul_comm cb n,
  mul_comm cb (offset / cb),
)

-- On a mounted volume whose clusters have 1 to 255 sectors, a read of a file below 2 GiB that lies in
-- a chain of clusters, from an offset inside it, ends and gives the bytes of the chain from the
-- offset on, as many as are asked for and the file has, where the heap is well formed, has no two
-- adjacent free blocks and has room for a cluster; the heap is left so, with the same allocations.
pub vfs_read-Content :
    (start offset size : ℕ) (node : VfsNode) (garbage : Bytes) (v : Volume) (cs : List ℕ)
    (m : Store) (bs : List Block)
    → v.mounted ≡ true
    → HasClusters v
    → IsChain v (u16 node.inode) cs
    → node.size ≤ length cs * cluster_bytes v
    → node.size < 2 ^ 31
    → offset < node.size
    → IsHeap start m bs
    → IsCoalesced bs
    → (first_fit (cluster_bytes v) start bs).0 ≢ 0
    → (l : List ℕ) × (m' : Store) × (bs' : List Block) × (vfs_read start node offset size garbage v
          m
        ≡ some (some l, m'))
      × (length l ≡ min size (node.size - offset))
      × Content v cs offset l
      × IsHeap start m' bs'
      × IsCoalesced bs'
      × (live start bs' ≡ live start bs)
unfolding vfs_read
vfs_read-Content start offset size node garbage v cs m bs on hc k fits small inside h apart room =
    let cb = cluster_bytes v in
    let wanted = if ltb (node.size - offset) size then node.size - offset else size in
    let (p, m1, bs2, e, real, h2, apart2, same) = kfree-kmalloc cb start m bs h apart room in
    let skipped : offset / cb < length cs = (div-lt_iff_lt-mul (omega arith)).1 (omega arith) in
    let (c, walked, behind) = walk-IsChain (offset / cb) (u16 node.inode) v cs k (omega arith) in
    let limit : wanted ≤ node.size - offset = ground arith in
    let (l, r, len, content) =
      read_loop-Content (suc wanted) wanted 0 (offset % cb) c garbage v (drop (offset / cb) cs) hc
        (omega arith) behind (mod-lt offset (omega arith)) (omega arith)
        (remaining offset (length cs) wanted cb (length (drop (offset / cb) cs))
          (length-drop (offset / cb) cs) (omega arith))
        (omega arith) in
    let ready : not v.mounted ≡ false = ap not on in
    let not_past : leb node.size offset ≡ false = ground arith in
    let not_null : (p == 0) ≡ false = ground arith in
    (
      l,
      kfree p m1,
      bs2,
      rw (ready, not_past, walked, e, not_null, r) refl,
      len ∙ ground arith,
      λ i lt.
          content i lt
          ∙ sym (chain_byte-drop (offset / cb) (offset % cb + i) v cs (omega arith))
          ∙ ap (chain_byte v cs) (omega (arith, div-add-mod' offset cb)),
      h2,
      apart2,
      same,
    )
