-- ===== src/Fat16/Table.antt =====
-- The file allocation table of fs/fat16.c: entries, the search for a free cluster, and chains.
pub mod Entry
pub mod Alloc
pub mod Chain
use yotos.Base.{
  ℕ, zero, suc, ◌+◌, ◌-◌, ◌*◌, ◌/◌, ◌%◌, Bool, true, false, ◌&&◌, Option, none, some, ltb, leb,
  ◌==◌, if◌then◌else◌, update, u16,
}
use yotos.Fat16.{Bytes, Volume, read_sector, write_sector, u16_at, set_u16}

abbrev pub cluster_eof_lo : ℕ
cluster_eof_lo = 0xFFF8

-- `cluster >= 2 && cluster < FAT16_CLUSTER_EOF_LO`
abbrev pub is_data_cluster : ℕ → Bool
is_data_cluster cluster = leb 2 cluster && ltb cluster cluster_eof_lo

unfoldable pub fat_entry : ℕ → Volume → ℕ
fat_entry cluster v = u16_at (read_sector (v.fat_lba + cluster * 2 / 512) v) (cluster * 2 % 512)

-- The same entry in the second copy of the table.
unfoldable pub fat2_entry : ℕ → Volume → ℕ
fat2_entry cluster v =
    u16_at (read_sector (v.fat_lba + v.bpb.fat_size_16 + cluster * 2 / 512) v) (cluster * 2 % 512)

-- Read a sector, change one entry, write it back.
pub patch_entry : ℕ → ℕ → ℕ → Volume → Volume
patch_entry lba at value v = write_sector lba (set_u16 (read_sector lba v) at value) v

pub fat_set_entry : ℕ → ℕ → Volume → Volume
fat_set_entry cluster value v =
    let v1 = patch_entry (v.fat_lba + cluster * 2 / 512) (cluster * 2 % 512) value v in
    if ltb 1 v.bpb.fat_count
    then patch_entry (v.fat_lba + v.bpb.fat_size_16 + cluster * 2 / 512) (cluster * 2 % 512) value
        v1
    else v1

-- The inner loop of `fat_alloc_cluster`: the entries i, i + 1, … of sector `s`, `left` of them.
unfoldable pub free_entry : ℕ → ℕ → ℕ → Bytes → Option ℕ
free_entry zero s i buf = none
free_entry (suc left) s i buf =
    let rest = free_entry left s (i + 1) buf in
    let cluster = s * 256 + i in
    if ltb cluster 2 then rest else if u16_at buf (2 * i) == 0 then some cluster else rest

unfoldable pub free_cluster : ℕ → ℕ → Volume → Option ℕ
free_cluster zero s v = none
free_cluster (suc left) s v =
    let rest = free_cluster left (s + 1) v in
    elim (free_entry 256 s 0 (read_sector (v.fat_lba + s) v)) [ some c ↦ some c | none ↦ rest ]

-- The cluster, or 0 when the disk is full.
unfoldable pub fat_alloc_cluster : Volume → ℕ × Volume
fat_alloc_cluster v = elim (free_cluster v.bpb.fat_size_16 0 v) [
  | some cluster ↦ (u16 cluster, fat_set_entry (u16 cluster) 0xFFFF v)
  | none ↦ (0, v)
]

-- `none` means that the fuel ran out.
pub free_chain_loop : ℕ → ℕ → Volume → Option Volume
free_chain_loop zero cluster v = none
free_chain_loop (suc fuel) cluster v =
    let rest = free_chain_loop fuel (fat_entry cluster v) (fat_set_entry cluster 0 v) in
    if is_data_cluster cluster then rest else some v

-- A chain visits each of the 65536 entries at most twice before it meets a zero.
pub fat_free_chain : ℕ → Volume → Option Volume
fat_free_chain = free_chain_loop 65540
