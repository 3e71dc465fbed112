-- ===== src/Fat16/Write.antt =====
-- `fat16_vfs_write` of fs/fat16.c: the walk that makes a chain longer where it has to, the clusters
-- that are read, patched and written back, and the directory entry.
pub mod Clusters
pub mod Content
pub mod Entry
pub mod Rounds
pub mod RoundTrip
use yotos.Base.{
  ℕ, zero, suc, ◌+◌, ◌-◌, ◌*◌, ◌/◌, ◌%◌, ◌^◌, ◌≤◌, ◌<◌, ◌≡◌, refl, sym, ap, ◌∙◌, fun_ext, ◌≢◌, ◌↔◌,
  ◌⊎◌, inl, inr, Bool, true, false, not, ◌&&◌, ◌||◌, Option, none, some, List, [], ◌∷◌, ◌++◌, map,
  arith, bit_and, bit_or, bit_xor, ltb, leb, ◌==◌, if◌then◌else◌, update, min, max, bit, bit-lt,
  bit-bit_or, bit-bit_and, bit-pow, bit_and-pow_iff, bit-complement, bit_or-lt, bit-ones, pow-lt,
  bit_and-le, all_ones, Bool-cases, Option-cases, length, get_or, take, drop, for_loop,
  for_loop-zero, for_loop-suc, replicate, All, length-append, length-take, length-drop,
  length-replicate, u8, u16, u32, sub32, ==_iff, ltb→lt, lt→ltb, le→ltb, leb→le,
}
use yotos.Base.Int.{ℤ, pos, negsuc, to_int}
use yotos.Fat16.{Bytes, Volume, read_sector, write_sector, u16_at, set_u16, set_u32}
use yotos.Fat16.File.{cluster_bytes, cluster_lba, read_cluster}
use yotos.Fat16.Table.{is_data_cluster, fat_entry, fat_set_entry, fat_alloc_cluster}
use yotos.Kheap.{Store, kmalloc, kfree}
use yotos.Vfs.{VfsNode}

-- `n` steps along a chain, which takes a new cluster wherever it ends; no cluster is left when the
-- disk is full.
pub seek_loop : ℕ → ℕ → Volume → Option ℕ × Volume
seek_loop zero cluster v = (some cluster, v)
seek_loop (suc n) cluster v =
    let next = fat_entry cluster v in
    let (nc, v1) = fat_alloc_cluster v in
    let along = seek_loop n next v in
    let longer = seek_loop n nc (fat_set_entry cluster nc v1) in
    if is_data_cluster next then along else if nc == 0 then (none, v1) else longer

-- `write_sector(lba + s, cbuf + s * 512)`
pub write_from : ℕ → Bytes → ℕ → Volume → Volume
write_from lba cbuf s = write_sector (u32 (lba + s)) (λ j. cbuf (s * 512 + j))

pub write_cluster : ℕ → Bytes → Volume → Volume
write_cluster cluster cbuf v =
    for_loop v.bpb.sectors_per_cluster 0 (write_from (cluster_lba cluster v) cbuf) v

-- The bytes from `source` on, `copy` of them, put into a buffer at the place `at`.
pub patch : (at copy source : ℕ) → Bytes → Bytes → Bytes
patch at copy source buf cbuf j =
    if leb at j && ltb j (at + copy) then buf (source + (j - at)) else cbuf j

-- One round of the writing loop: the number of bytes it copies and the cluster buffer it leaves, or
-- none when the disk is full, and the volume.
pub write_round :
    (cur_off size written inode : ℕ) → (buf cbuf : Bytes) → Volume → Option (ℕ × Bytes) × Volume
write_round cur_off size written inode buf cbuf v =
    let inner_off = cur_off % cluster_bytes v in
    let avail = cluster_bytes v - inner_off in
    let copy = if ltb avail (size - written) then avail else size - written in
    let (reached, v1) = seek_loop (cur_off / cluster_bytes v) inode v in
    elim reached [
      | none ↦ (none, v1)
      | some cluster ↦
          let full = patch inner_off copy written buf (read_cluster cluster v1 cbuf) in
          (some (copy, full), write_cluster cluster full v1)
    ]

-- The writing loop: the number of bytes that are written, and the volume; `none` means that the fuel
-- ran out.
pub write_loop :
    ℕ → (offset size written inode : ℕ) → (buf cbuf : Bytes) → Volume → Option (ℕ × Volume)
write_loop zero offset size written inode buf cbuf v = none
write_loop (suc fuel) offset size written inode buf cbuf v =
    let (round, v1) = write_round (u32 (offset + written)) size written inode buf cbuf v in
    let more : Option (ℕ × Volume) = elim round [
      | none ↦ some (written, v1)
      | some (copy, full) ↦ write_loop fuel offset size (written + copy) inode buf full v1
    ] in
    if ltb written size then more else some (written, v)

-- The directory entry of the node takes the cluster and the size of the node.
pub update_entry : VfsNode → Volume → Volume
update_entry node v =
    let at = 32 * node.dir_index in
    write_sector node.dir_lba
      (set_u32 (set_u16 (read_sector node.dir_lba v) (at + 26) (u16 node.inode)) (at + 28)
        node.size)
      v

-- `if (new_size > node->size) node->size = new_size;`
abbrev pub grow : ℕ → VfsNode → VfsNode
grow new_size node = if ltb node.size new_size then record node { size = new_size } else node

-- The int that is returned, the node, the volume and the heap. A round writes a byte at least, so
-- `size` rounds and one more are enough.
abbrev pub WriteResult : Type 0
WriteResult = ℤ × VfsNode × Volume × Store

-- What follows the choice of the first cluster.
pub write_node :
    (start : ℕ)
    → VfsNode
    → (offset size : ℕ) → (buf garbage : Bytes) → Volume
    → Store
    → Option WriteResult
write_node start node offset size buf garbage v m = elim (kmalloc start (cluster_bytes v) m) [
  | none ↦ none
  | some (p, m1) ↦
      if p == 0
      then some (negsuc 0, node, v, m1)
      else elim (write_loop (suc size) offset size 0 (u16 node.inode) buf garbage v) [
        | none ↦ none
        | some (written, v1) ↦
            let node1 = grow (u32 (offset + written)) node in
            some (to_int written, node1, update_entry node1 v1, kfree p m1)
      ]
]

pub vfs_write :
    (start : ℕ)
    → VfsNode
    → (offset size : ℕ) → (buf garbage : Bytes) → Volume
    → Store
    → Option WriteResult
vfs_write start node offset size buf garbage v m =
    let (c, v1) = fat_alloc_cluster v in
    if not v.mounted || (size == 0)
    then some (pos 0, node, v, m)
    else if ltb (u16 node.inode) 2
    then if c == 0
      then some (negsuc 0, node, v1, m)
      else write_node start (record node { inode = c }) offset size buf garbage v1 m
    else write_node start node offset size buf garbage v m
