-- ===== src/Fat16/Write/RoundTrip.antt =====
-- `fat16_vfs_write` as a whole, inside a chain that is long enough, and the read that follows it.
use yotos.Base.{
  ℕ, suc, ◌+◌, ◌-◌, ◌*◌, ◌/◌, ◌^◌, ◌≤◌, ◌<◌, ◌≡◌, refl, ap, ◌∙◌, ◌≢◌, inl, inr, Bool, true, false,
  not, ◌&&◌, ◌||◌, some, List, [], ◌∷◌, arith, ltb, leb, ◌==◌, if◌then◌else◌, max, Bool-cases,
  length, get_or, u16, u32, ltb→lt,
}
use yotos.Fat16.{Bytes, Volume, write_sector}
use yotos.Fat16.File.{cluster_bytes, cluster_lba, vfs_read}
use yotos.Fat16.File.Clusters.{cluster_byte, chain_byte}
use yotos.Fat16.File.Read.{vfs_read-Content}
use yotos.Fat16.Table.{fat_entry}
use yotos.Fat16.Table.Chain.{IsChain, IsChain-frame, mem}
use yotos.Fat16.Table.Entry.{HasEntry}
use yotos.Base.Int.{pos, to_int}
use yotos.Fat16.Write.Entry.{IsEntered, update_entry-IsEntered}
use yotos.Fat16.Write.{write_loop, update_entry, grow, write_node, vfs_write}
use yotos.Fat16.Write.Clusters.{HasLayout}
use yotos.Fat16.Write.Content.{Written, Written-HasLayout, Written-IsChain}
use yotos.Fat16.Write.Rounds.{write_loop-Written}
use yotos.Kheap.{Store, kmalloc, kfree}
use yotos.Kheap.Blocks.{Block, first_fit, live, IsCoalesced}
use yotos.Kheap.Scratch.{kfree-kmalloc}
use yotos.Kheap.Chain.{IsHeap}
use yotos.Vfs.{VfsNode}

-- A sector that no byte of the chain lies in and that is not one of the first copy of the table.
pub record Apart (v : Volume) (cs : List ℕ) (sector : ℕ) : Type 0 where
  pub clusters :
      (c k : ℕ) → mem c cs ≡ true → k < cluster_bytes v → u32 (cluster_lba c v + k / 512) ≢ sector
  pub table : (e : ℕ) → HasEntry v e → v.fat_lba + e * 2 / 512 ≢ sector

-- Such a sector can be written without a change to the chain.
chain_byte-write_sector :
    (sector k : ℕ) (b : Bytes) (v : Volume) (cs : List ℕ)
    → ((c j : ℕ) → mem c cs ≡ true → j < cluster_bytes v → u32 (cluster_lba c v + j / 512) ≢ sector)
    → chain_byte (write_sector sector b v) cs k ≡ chain_byte v cs k
unfolding chain_byte cluster_byte
chain_byte-write_sector sector k b v [] out = refl
chain_byte-write_sector sector k b v (c ∷ cs) out =
    let ih =
      chain_byte-write_sector sector (k - cluster_bytes v) b v cs
        (λ d j m lt. out d j (ground arith) lt) in
    elim (Bool-cases (ltb k (cluster_bytes v))) [
      | inl here ↦
          let kept = out c k (ground arith) (ltb→lt k (cluster_bytes v) here) in
          rw here (ground (arith, kept))
      | inr there ↦ rw there ih
    ]

fat_entry-write_sector :
    (sector e : ℕ) (b : Bytes) (v : Volume)
    → v.fat_lba + e * 2 / 512 ≢ sector
    → fat_entry e (write_sector sector b v) ≡ fat_entry e v
unfolding fat_entry
fat_entry-write_sector sector e b v out = ground (arith, out)

-- What a write leaves of a file: the bytes from `first` to `last` are those of the buffer.
pub record Rewritten (v : Volume) (c : ℕ) (cs : List ℕ) (offset size : ℕ) (buf : Bytes) (w : Volume)
    : Type 0 where
  pub chain : IsChain w c cs
  pub layout : HasLayout w
  pub mounted : w.mounted ≡ v.mounted
  pub cluster_size : cluster_bytes w ≡ cluster_bytes v
  pub bytes :
      (k : ℕ)
      → k < length cs * cluster_bytes v
      → chain_byte w cs k
        ≡ (if leb offset k && ltb k (offset + size) then buf (k - offset) else chain_byte v cs k)

Apart-Written :
    (v w : Volume) (cs : List ℕ) (first last sector : ℕ) (content : Bytes)
    → Written v cs first last content w
    → Apart v cs sector
    → Apart w cs sector
Apart-Written v w cs first last sector content r a =
    rw r.layout (record { clusters = a.clusters; table = a.table })

-- The directory entry is written outside the chain.
update_entry-Rewritten :
    (v w : Volume) (offset size c : ℕ) (buf : Bytes) (cs : List ℕ) (node : VfsNode)
    → HasLayout v
    → IsChain v c cs
    → Apart v cs node.dir_lba
    → Written v cs (offset + 0) (offset + size) (λ k. buf (k - offset)) w
    → Rewritten v c cs offset size buf (update_entry node w)
unfolding update_entry
update_entry-Rewritten v w offset size c buf cs node lay ch a r =
    let far =
      Apart-Written v w cs (offset + 0) (offset + size) node.dir_lba (λ k. buf (k - offset)) r a in
    let lay1 =
      Written-HasLayout v w cs (offset + 0) (offset + size) (λ k. buf (k - offset)) r lay in
    record {
      chain =
          IsChain-frame w (update_entry node w) c cs refl
            (λ d has m. fat_entry-write_sector node.dir_lba d _ w (far.table d has))
            (Written-IsChain v w c cs (offset + 0) (offset + size) (λ k. buf (k - offset)) r ch);
      layout = record {
        some_sectors = lay1.some_sectors;
        byte = lay1.byte;
        behind = lay1.behind;
        ends = lay1.ends;
      };
      mounted = ap (λ (x : Volume). x.mounted) r.layout;
      cluster_size = ap cluster_bytes r.layout;
      bytes = λ k lt.
          chain_byte-write_sector node.dir_lba k _ w cs far.clusters ∙ r.bytes k lt ∙ ground arith;
    }

write_node-write_loop :
    (start offset size p done : ℕ) (node : VfsNode) (buf garbage : Bytes) (v w : Volume)
    (m m1 : Store)
    → kmalloc start (cluster_bytes v) m ≡ some (p, m1)
    → (p == 0) ≡ false
    → write_loop (suc size) offset size 0 (u16 node.inode) buf garbage v ≡ some (done, w)
    → let node1 = grow (u32 (offset + done)) node in
      write_node start node offset size buf garbage v m
      ≡ some (to_int done, node1, update_entry node1 w, kfree p m1)
unfolding write_node
write_node-write_loop start offset size p done node buf garbage v w m m1 e real eq =
    rw (write_node, e, real, eq) refl

dir_lba-grow : (n : ℕ) (node : VfsNode) → (grow n node).dir_lba ≡ node.dir_lba
dir_lba-grow n node = elim (Bool-cases (ltb node.size n)) [ inl e ↦ rw e refl | inr e ↦ rw e refl ]

inode-grow : (n : ℕ) (node : VfsNode) → (grow n node).inode ≡ node.inode
inode-grow n node = elim (Bool-cases (ltb node.size n)) [ inl e ↦ rw e refl | inr e ↦ rw e refl ]

size-grow : (n : ℕ) (node : VfsNode) → (grow n node).size ≡ max node.size n
size-grow n node = elim (Bool-cases (ltb node.size n)) [
  | inl e ↦ ap (λ (t : Bool). (if t then record node { size = n } else node).size) e ∙ ground arith
  | inr e ↦ ap (λ (t : Bool). (if t then record node { size = n } else node).size) e ∙ ground arith
]

write_node-Rewritten :
    (start offset size : ℕ) (node : VfsNode) (buf garbage : Bytes) (v : Volume) (cs : List ℕ)
    (m : Store) (bs : List Block)
    → HasLayout v
    → IsChain v (u16 node.inode) cs
    → offset + size ≤ length cs * cluster_bytes v
    → offset + size < 2 ^ 32
    → node.size < 2 ^ 32
    → Apart v cs node.dir_lba
    → IsHeap start m bs
    → IsCoalesced bs
    → (first_fit (cluster_bytes v) start bs).0 ≢ 0
    → (w : Volume) × (m' : Store) × (bs' : List Block) × (write_node start node offset size buf
          garbage v m
        ≡ some (to_int size, grow (offset + size) node, w, m'))
      × Rewritten v (u16 node.inode) cs offset size buf w
      × IsEntered (grow (offset + size) node) v w
      × IsHeap start m' bs'
      × IsCoalesced bs'
      × (live start bs' ≡ live start bs)
write_node-Rewritten start offset size node buf garbage v cs m bs lay ch room small word a h apart
      free =
    let (p, m1, bs2, e, real, h2, apart2, same) =
      kfree-kmalloc (cluster_bytes v) start m bs h apart free in
    let not_null : (p == 0) ≡ false = ground arith in
    let (w, eq, r) =
      write_loop-Written (suc size) offset size 0 (u16 node.inode) buf garbage v cs lay ch
        (omega arith) room small (omega arith) in
    let exact : u32 (offset + size) ≡ offset + size = ground arith in
    let node1 = grow (offset + size) node in
    (
      update_entry node1 w,
      kfree p m1,
      bs2,
      write_node-write_loop start offset size p size node buf garbage v w m m1 e not_null eq
          ∙ ap (λ n. some (to_int size, grow n node, update_entry (grow n node) w, kfree p m1))
              exact,
      update_entry-Rewritten v w offset size (u16 node.inode) buf cs node1 lay ch
          (rw (dir_lba-grow (offset + size) node) a) r,
      update_entry-IsEntered node1 v w (omega (arith, size-grow (offset + size) node, small, word))
          (r.elsewhere node1.dir_lba (rw (dir_lba-grow (offset + size) node) a.clusters)),
      h2,
      apart2,
      same,
    )

-- On a mounted volume whose clusters have 1 to 255 sectors and whose data area lies behind the table
-- and inside the 32-bit sector numbers, a write of at least one byte that ends inside a chain of the
-- file, below 4 GiB, to a file whose size is a 32-bit number, ends and returns the number of bytes it
-- was given, cast to int, where the directory entry of the file lies neither in the table nor in the
-- chain and the heap is well formed, has no two adjacent free blocks and has room for a cluster. It
-- keeps the chain, puts the buffer into the chain's bytes from the offset on and changes no other byte
-- of the chain. The file's size grows to the end of the write where it was smaller; the file's
-- directory entry gets the first cluster and that size and keeps its other fields, and the other
-- entries of its sector are kept. The heap's allocations are the same.
pub vfs_write-Rewritten :
    (start offset size : ℕ) (node : VfsNode) (buf garbage : Bytes) (v : Volume) (cs : List ℕ)
    (m : Store) (bs : List Block)
    → v.mounted ≡ true
    → HasLayout v
    → IsChain v (u16 node.inode) cs
    → 0 < size
    → offset + size ≤ length cs * cluster_bytes v
    → offset + size < 2 ^ 32
    → node.size < 2 ^ 32
    → Apart v cs node.dir_lba
    → IsHeap start m bs
    → IsCoalesced bs
    → (first_fit (cluster_bytes v) start bs).0 ≢ 0
    → (w : Volume) × (m' : Store) × (bs' : List Block) × (vfs_write start node offset size buf
          garbage v m
        ≡ some (to_int size, grow (offset + size) node, w, m'))
      × Rewritten v (u16 node.inode) cs offset size buf w
      × IsEntered (grow (offset + size) node) v w
      × IsHeap start m' bs'
      × IsCoalesced bs'
      × (live start bs' ≡ live start bs)
unfolding vfs_write
vfs_write-Rewritten start offset size node buf garbage v [] m bs on lay ch some_bytes room small
      word a h apart free =
    absurd (omega arith)
vfs_write-Rewritten start offset size node buf garbage v (c ∷ cs) m bs on lay ch some_bytes room
      small word a h apart free =
    let (w, m', bs', e, r, entered, h1, apart1, same) =
      write_node-Rewritten start offset size node buf garbage v (c ∷ cs) m bs lay ch room small word
        a h apart free in
    let first : ltb (u16 node.inode) 2 ≡ false = ground (arith, ch.0, ch.1) in
    let busy : not v.mounted || (size == 0) ≡ false = ground (arith, on) in
    (w, m', bs', rw (first, busy) e, r, entered, h1, apart1, same)

-- Under the conditions of the write, and for a file and a write that end below 2 GiB and inside the
-- chain: a read of the same place, on a heap with the same properties, gives back what was written.
pub vfs_read-vfs_write :
    (start offset size : ℕ) (node : VfsNode) (buf garbage garbage' : Bytes) (v : Volume)
    (cs : List ℕ) (m m2 : Store) (bs bs2 : List Block)
    → v.mounted ≡ true
    → HasLayout v
    → IsChain v (u16 node.inode) cs
    → 0 < size
    → offset + size ≤ length cs * cluster_bytes v
    → node.size ≤ length cs * cluster_bytes v
    → offset + size < 2 ^ 31
    → node.size < 2 ^ 31
    → Apart v cs node.dir_lba
    → IsHeap start m bs
    → IsCoalesced bs
    → (first_fit (cluster_bytes v) start bs).0 ≢ 0
    → IsHeap start m2 bs2
    → IsCoalesced bs2
    → (first_fit (cluster_bytes v) start bs2).0 ≢ 0
    → (node' : VfsNode) × (w : Volume) × (m' : Store) × (l : List ℕ) × (m3 : Store) × (vfs_write
          start node offset size buf garbage v m
        ≡ some (pos size, node', w, m'))
      × (vfs_read start node' offset size garbage' w m2 ≡ some (some l, m3))
      × (length l ≡ size)
      × ((i : ℕ) → i < size → get_or l i 0 ≡ buf i)
vfs_read-vfs_write start offset size node buf garbage garbage' v cs m m2 bs bs2 on lay ch some_bytes
      room fits small small' a h apart free h2 apart2 free2 =
    let (w, m', bs', e, r, entered, h1, apart1, kept) =
      vfs_write-Rewritten start offset size node buf garbage v cs m bs on lay ch some_bytes room
        (omega arith) (omega arith) a h apart free in
    let exact : to_int size ≡ pos size = ground arith in
    let node' = grow (offset + size) node in
    let bound = size-grow (offset + size) node in
    let same : (grow (offset + size) node).inode ≡ node.inode = inode-grow (offset + size) node in
    let (l, m3, bs3, e3, len, content, h3, apart3, kept3) =
      vfs_read-Content start offset size node' garbage' w cs m2 bs2 (r.mounted ∙ on)
        (r.layout.some_sectors, r.layout.byte) (rw same r.chain)
        (rw r.cluster_size (omega (arith, bound))) (omega (arith, bound)) (omega (arith, bound)) h2
        apart2 (rw r.cluster_size free2) in
    let count : length l ≡ size = ground arith in
    (
      node',
      w,
      m',
      l,
      m3,
      e ∙ ap (λ z. some (z, node', w, m')) exact,
      e3,
      count,
      λ i lt.
          content i (omega arith)
          ∙ r.bytes (offset + i) (omega arith)
          ∙ ground (arith, ap buf (back i)),
    )
  where
    back : (i : ℕ) → offset + i - offset ≡ i
    back i = omega arith
