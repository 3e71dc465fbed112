-- ===== src/Fat16/Create.antt =====
-- `fat16_vfs_create` of fs/fat16.c.
use yotos.Base.{
  ℕ, ◌+◌, ◌*◌, true, false, not, Option, none, some, List, [], ◌∷◌, bit_and, ◌==◌, if◌then◌else◌,
  update, for_loop, replicate, u16, u32,
}
use yotos.Fat16.{Bytes, Volume, write_sector, set_u16, set_u32}
use yotos.Fat16.Dir.{put_bytes, write_dir_entry, finddir}
use yotos.Fat16.File.{cluster_lba}
use yotos.Fat16.Table.{fat_alloc_cluster, fat_free_chain}
use yotos.Kheap.{Store}
use yotos.Vfs.{VfsNode, vfs_dir}

-- One of the entries `.` and `..` of a new directory.
pub dot_entry : ℕ → List ℕ → ℕ → Bytes → Bytes
unfolding put_bytes
dot_entry i name first_cluster sector =
    let named = put_bytes (32 * i) name (put_bytes (32 * i) (replicate 11 b' ') sector) in
    set_u32 (set_u16 (update named (32 * i + 11) 0x10) (32 * i + 26) first_cluster) (32 * i + 28) 0

abbrev zeros : Bytes
zeros = λ _. 0

pub clear_sector : ℕ → ℕ → Volume → Volume
clear_sector lba s = write_sector (u32 (lba + s)) zeros

-- The contents of a new directory, whose parent has the cluster `parent`.
pub write_directory : (cluster parent : ℕ) → Volume → Volume
write_directory cluster parent v =
    let lba = cluster_lba cluster v in
    write_sector lba
      (dot_entry 1 (b'.' ∷ b'.' ∷ []) (u16 parent) (dot_entry 0 (b'.' ∷ []) cluster zeros))
      (for_loop v.bpb.sectors_per_cluster 0 (clear_sector lba) v)

abbrev pub CreateResult : Type 0
CreateResult = Option (ℕ × VfsNode) × Volume × Store

-- `return fat16_vfs_finddir(node, name);`
pub found_again : ℕ → ℕ → ℕ → List ℕ → Volume → Store → Option CreateResult
found_again fuel start inode name v m = elim (finddir fuel start inode name v m) [
  | none ↦ none
  | some (r, m1) ↦ some (r, v, m1)
]

pub create_directory : ℕ → ℕ → ℕ → List ℕ → Volume → Store → Option CreateResult
create_directory fuel start inode name v m =
    let (cluster, v1) = fat_alloc_cluster v in
    let v2 = write_directory cluster inode v1 in
    if cluster == 0
    then some (none, v1, m)
    else elim (write_dir_entry fuel inode name cluster 0 0x10 v2) [
      | none ↦ none
      | some (true, v3) ↦ found_again fuel start inode name v3 m
      | some (false, v3) ↦ elim (fat_free_chain cluster v3) [
        | none ↦ none
        | some v4 ↦ some (none, v4, m)
      ]
    ]

pub create_file : ℕ → ℕ → ℕ → List ℕ → Volume → Store → Option CreateResult
create_file fuel start inode name v m = elim (write_dir_entry fuel inode name 0 0 0x20 v) [
  | none ↦ none
  | some (true, v1) ↦ found_again fuel start inode name v1 m
  | some (false, v1) ↦ some (none, v1, m)
]

-- The new node, or none for NULL, the volume and the heap; `inode` is that of the directory, and the
-- fuel is for the searches of its sectors.
pub vfs_create : ℕ → ℕ → ℕ → List ℕ → ℕ → Volume → Store → Option CreateResult
unfolding create_directory create_file
vfs_create fuel start inode name flags v m =
    if not v.mounted
    then some (none, v, m)
    else if bit_and flags vfs_dir == 0
    then create_file fuel start inode name v m
    else create_directory fuel start inode name v m
