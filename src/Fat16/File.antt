-- ===== src/Fat16/File.antt =====
-- The files of fs/fat16.c: clusters read from and written to the data area, `fat16_vfs_read`,
-- `fat16_vfs_write` and `fat16_vfs_create`. A cluster buffer is a function from an index to a byte;
-- it is allocated in the kernel heap and freed there.
pub mod Clusters
pub mod Read
use yotos.Base.{
  ℕ, zero, suc, ◌+◌, ◌-◌, ◌*◌, ◌/◌, ◌%◌, ◌^◌, ◌≤◌, ◌<◌, ◌≡◌, refl, sym, ap, ◌∙◌, fun_ext, ◌≢◌, ◌↔◌,
  ◌⊎◌, inl, inr, Bool, true, false, not, ◌&&◌, ◌||◌, Option, none, some, List, [], ◌∷◌, ◌++◌, map,
  arith, bit_and, bit_or, bit_xor, ltb, leb, ◌==◌, if◌then◌else◌, update, min, max, bit, bit-lt,
  bit-bit_or, bit-bit_and, bit-pow, bit_and-pow_iff, bit-complement, bit_or-lt, bit-ones, pow-lt,
  bit_and-le, all_ones, Bool-cases, Option-cases, length, get_or, take, drop, for_loop,
  for_loop-zero, for_loop-suc, replicate, All, length-append, length-take, length-drop,
  length-replicate, u8, u16, u32, sub32, ==_iff, ltb→lt, lt→ltb, le→ltb, leb→le,
}
use yotos.Fat16.{Bytes, Volume, read_sector, write_sector, bytes_at}
use yotos.Fat16.Dir.{walk}
use yotos.Fat16.Table.{is_data_cluster, fat_entry}
use yotos.Kheap.{Store, kmalloc, kfree}
use yotos.Vfs.{VfsNode}

abbrev pub cluster_bytes : Volume → ℕ
cluster_bytes v = v.bpb.sectors_per_cluster * 512

-- `data_lba + (uint32_t)(cluster - 2) * bpb.sectors_per_cluster`, for a cluster from 2 on.
abbrev pub cluster_lba : ℕ → Volume → ℕ
cluster_lba cluster v = u32 (v.data_lba + (cluster - 2) * v.bpb.sectors_per_cluster)

-- `read_sector(lba + i, buf + i * 512)`
pub read_into : ℕ → Volume → ℕ → Bytes → Bytes
read_into lba v i buf j =
    if leb (i * 512) j && ltb j (i * 512 + 512)
    then read_sector (u32 (lba + i)) v (j - i * 512)
    else buf j

pub read_cluster : ℕ → Volume → Bytes → Bytes
read_cluster cluster v = for_loop v.bpb.sectors_per_cluster 0 (read_into (cluster_lba cluster v) v)

-- The reading loop of `fat16_vfs_read`: the bytes that this round and the later ones put into the
-- buffer of the caller. `start` is the place in the cluster where this round begins; `none` means
-- that the fuel ran out.
pub read_loop : ℕ → (size bytes_read start cluster : ℕ) → Bytes → Volume → Option (List ℕ)
read_loop zero size bytes_read start cluster cbuf v = none
read_loop (suc fuel) size bytes_read start cluster cbuf v =
    let full = read_cluster cluster v cbuf in
    let avail = cluster_bytes v - start in
    let copy = if ltb size (u32 (bytes_read + avail)) then size - bytes_read else avail in
    let rest = read_loop fuel size (bytes_read + copy) 0 (fat_entry cluster v) full v in
    let more : Option (List ℕ) = elim rest [
      | none ↦ none
      | some later ↦ some (bytes_at full start copy ++ later)
    ] in
    if ltb bytes_read size && is_data_cluster cluster then more else some []

-- The bytes that are read, or none for -1, and the heap. A round reads a byte at least, so `size`
-- rounds and one more are enough. `garbage` is what the new cluster buffer holds.
pub vfs_read :
    (start : ℕ)
    → VfsNode
    → (offset size : ℕ) → (garbage : Bytes) → Volume
    → Store
    → Option (Option (List ℕ) × Store)
vfs_read start node offset size garbage v m =
    let wanted = if ltb (node.size - offset) size then node.size - offset else size in
    if not v.mounted
    then some (none, m)
    else if leb node.size offset
    then some (some [], m)
    else elim (walk (offset / cluster_bytes v) (u16 node.inode) v) [
      | none ↦ some (some [], m)
      | some cluster ↦ elim (kmalloc start (cluster_bytes v) m) [
        | none ↦ none
        | some (p, m1) ↦
            if p == 0
            then some (none, m1)
            else elim (read_loop (suc wanted) wanted 0 (offset % cluster_bytes v) cluster garbage
                v) [ none ↦ none | some bytes ↦ some (some bytes, kfree p m1) ]
      ]
    ]
