-- ===== src/Fat16/Dir.antt =====
-- The directories of fs/fat16.c: entries of 32 bytes, the sectors of a directory, and the search,
-- the listing and the creation of entries. The C loops over the sectors of a directory have no
-- bound, so they are recursions on fuel, and `none` means that it ran out.
pub mod Slots
use yotos.Base.{
  ℕ, zero, suc, ◌+◌, ◌-◌, ◌*◌, ◌/◌, ◌%◌, ◌^◌, ◌≤◌, ◌<◌, ◌≡◌, refl, sym, ap, ◌∙◌, fun_ext, ◌≢◌, ◌↔◌,
  ◌⊎◌, inl, inr, Bool, true, false, not, ◌&&◌, ◌||◌, Option, none, some, List, [], ◌∷◌, ◌++◌, map,
  arith, bit_and, bit_or, bit_xor, ltb, leb, ◌==◌, if◌then◌else◌, update, min, max, bit, bit-lt,
  bit-bit_or, bit-bit_and, bit-pow, bit_and-pow_iff, bit-complement, bit_or-lt, bit-ones, pow-lt,
  bit_and-le, all_ones, Bool-cases, Option-cases, length, get_or, take, drop, for_loop,
  for_loop-zero, for_loop-suc, replicate, All, length-append, length-take, length-drop,
  length-replicate, u8, u16, u32, sub32, ==_iff, ltb→lt, lt→ltb, le→ltb, leb→le,
}
use yotos.Fat16.{
  Bytes, Volume, read_sector, write_sector, u16_at, u32_at, set_u16, set_u32, bytes_at,
}
use yotos.Fat16.Names.{Name83, format_83, format_name_83, name_match, c_string}
use yotos.Fat16.Table.{is_data_cluster, fat_entry}
use yotos.Kheap.{Store, kmalloc}
use yotos.Vfs.{VfsOps, VfsNode, VfsDirent, vfs_file, vfs_dir, vfs_node_size}

-- fat16_direntry_t
pub record DirEntry : Type 0 where
  pub name83 : Name83
  pub attributes : ℕ
  pub reserved : List ℕ
  pub write_time : ℕ
  pub write_date : ℕ
  pub first_cluster : ℕ
  pub file_size : ℕ

-- `entries[i]`
unfoldable pub dir_entry : ℕ → Bytes → DirEntry
dir_entry i sector = record {
  name83 = record { name = bytes_at sector (32 * i) 8; ext = bytes_at sector (32 * i + 8) 3 };
  attributes = sector (32 * i + 11);
  reserved = bytes_at sector (32 * i + 12) 10;
  write_time = u16_at sector (32 * i + 22);
  write_date = u16_at sector (32 * i + 24);
  first_cluster = u16_at sector (32 * i + 26);
  file_size = u32_at sector (32 * i + 28);
}

-- `e->name[0]`
abbrev pub first_byte : ℕ → Bytes → ℕ
first_byte i sector = sector (32 * i)

abbrev pub attributes_at : ℕ → Bytes → ℕ
attributes_at i sector = sector (32 * i + 11)

-- The values 0, 1 and 2 that `skip_entry` returns.
pub data Skip : Type 0 where
  valid : Skip
  skipped : Skip
  end_of_directory : Skip

unfoldable pub skip_entry : ℕ → Bytes → Skip
skip_entry i sector =
    if first_byte i sector == 0
    then Skip.end_of_directory
    else if first_byte i sector == 0xE5
    then Skip.skipped
    else if attributes_at i sector == 0x0F
    then Skip.skipped
    else Skip.valid

-- `n` steps along a chain: the cluster that is reached, if every step starts from a data cluster.
unfoldable pub walk : ℕ → ℕ → Volume → Option ℕ
walk zero cluster v = some cluster
walk (suc n) cluster v =
    let rest = walk n (fat_entry cluster v) v in if is_data_cluster cluster then rest else none

-- The sector of a directory by its number; 0 is past its end. `fat16_init` lets a volume with no
-- sector in a cluster through: there the division faults in C, and its result is 0 here.
pub dir_sector_lba : ℕ → ℕ → Volume → ℕ
dir_sector_lba inode n v =
    if inode == 0
    then if leb v.root_dir_sectors n then 0 else u32 (v.root_dir_lba + n)
    else (let spc = v.bpb.sectors_per_cluster in
        elim (walk (n / spc) (u16 inode) v) [
          | none ↦ 0
          | some cluster ↦
              if is_data_cluster cluster
              then u32 (v.data_lba + (cluster - 2) * spc + n % spc)
              else 0
        ])

-- The bytes of a list, written from index i on.
unfoldable pub put_bytes : ℕ → List ℕ → Bytes → Bytes
put_bytes i [] b = b
put_bytes i (x ∷ xs) b = put_bytes (suc i) xs (update b i x)

-- A free slot is filled in.
unfoldable pub put_entry : ℕ → Name83 → ℕ → ℕ → ℕ → Bytes → Bytes
put_entry i n first_cluster file_size attributes b0 =
    let b1 = put_bytes (32 * i + 8) n.ext (put_bytes (32 * i) n.name b0) in
    let b2 = update b1 (32 * i + 11) attributes in
    let b3 = put_bytes (32 * i + 12) (replicate 10 0) b2 in
    let b4 = set_u16 (set_u16 b3 (32 * i + 22) 0) (32 * i + 24) 0 in
    set_u32 (set_u16 b4 (32 * i + 26) first_cluster) (32 * i + 28) file_size

-- The first free slot of a sector, of the `left` slots from i on.
free_slot : ℕ → ℕ → Bytes → Option ℕ
free_slot zero i sector = none
free_slot (suc left) i sector =
    let rest = free_slot left (suc i) sector in
    if (first_byte i sector == 0) || (first_byte i sector == 0xE5) then some i else rest

-- The loop over the sectors from `s` on: the sector and the slot, or none past the end.
slot_loop : ℕ → ℕ → ℕ → Volume → Option (Option (ℕ × ℕ))
slot_loop zero s inode v = none
slot_loop (suc fuel) s inode v =
    let rest = slot_loop fuel (suc s) inode v in
    let lba = dir_sector_lba inode s v in
    if lba == 0
    then some none
    else elim (free_slot 16 0 (read_sector lba v)) [ some i ↦ some (some (lba, i)) | none ↦ rest ]

-- Whether the entry was written (0) or not (-1), and the volume.
pub write_dir_entry : ℕ → ℕ → List ℕ → ℕ → ℕ → ℕ → Volume → Option (Bool × Volume)
unfolding put_entry slot_loop
write_dir_entry fuel inode name first_cluster file_size attributes v = elim (format_name_83 name) [
  | none ↦ some (false, v)
  | some n ↦ elim (slot_loop fuel 0 inode v) [
    | none ↦ none
    | some none ↦ some (false, v)
    | some (some (lba, i)) ↦ some (
      true,
      write_sector lba (put_entry i n first_cluster file_size attributes (read_sector lba v)) v,
    )
  ]
]

-- What a scan of one sector comes to: an entry, the end of the directory, or the sector's end.
pub data Scan : Type 0 where
  found : ℕ → Scan
  ended : Scan
  passed : ℕ → Scan

-- The inner loop of `fat16_vfs_finddir`.
unfoldable pub find_in_sector : ℕ → ℕ → List ℕ → Bytes → Scan
find_in_sector zero i name sector = Scan.passed 0
find_in_sector (suc left) i name sector =
    let rest = find_in_sector left (suc i) name sector in
    elim (skip_entry i sector) [
      | Skip.end_of_directory ↦ Scan.ended
      | Skip.skipped ↦ rest
      | Skip.valid ↦
          if not (bit_and (attributes_at i sector) 0x08 == 0)
          then rest
          else if name_match (dir_entry i sector).name83 name
          then Scan.found i
          else rest
    ]

pub find_loop : ℕ → ℕ → ℕ → List ℕ → Volume → Option (Option (ℕ × ℕ))
find_loop zero s inode name v = none
find_loop (suc fuel) s inode name v =
    let rest = find_loop fuel (suc s) inode name v in
    let lba = dir_sector_lba inode s v in
    if lba == 0 then some none else elim (find_in_sector 16 0 name (read_sector lba v)) [
      | Scan.found i ↦ some (some (lba, i))
      | Scan.ended ↦ some none
      | Scan.passed _ ↦ rest
    ]

-- The node of an entry that was found in slot `i` of the sector `lba`.
node_of : ℕ → ℕ → DirEntry → VfsNode
node_of lba i e =
    let directory = not (bit_and e.attributes 0x10 == 0) in
    record {
      name = c_string (format_83 e.name83);
      flags = if directory then vfs_dir else vfs_file;
      size = if directory then 0 else e.file_size;
      inode = e.first_cluster;
      ops = if directory then VfsOps.dir_ops else VfsOps.file_ops;
      dir_lba = lba;
      dir_index = i;
    }

-- The node's address and contents, or none, and the heap that it is allocated in.
pub finddir : ℕ → (start : ℕ) → ℕ → List ℕ → Volume → Store → Option (Option (ℕ × VfsNode) × Store)
unfolding find_loop
finddir fuel start inode name v m =
    if not v.mounted then some (none, m) else elim (find_loop fuel 0 inode name v) [
      | none ↦ none
      | some none ↦ some (none, m)
      | some (some (lba, i)) ↦ elim (kmalloc start vfs_node_size m) [
        | none ↦ none
        | some (p, m1) ↦ some (
            if p == 0
            then (none, m1)
            else (some (p, node_of lba i (dir_entry i (read_sector lba v))), m1))
      ]
    ]

-- The inner loop of `fat16_vfs_readdir`: `left_over` more entries are listed before the one that is
-- asked for, and `passed` carries what is left of them.
list_in_sector : ℕ → ℕ → ℕ → Bytes → Scan
list_in_sector zero i left_over sector = Scan.passed left_over
list_in_sector (suc left) i left_over sector =
    let rest = list_in_sector left (suc i) left_over sector in
    let later = list_in_sector left (suc i) (left_over - 1) sector in
    elim (skip_entry i sector) [
      | Skip.end_of_directory ↦ Scan.ended
      | Skip.skipped ↦ rest
      | Skip.valid ↦
          if not (bit_and (attributes_at i sector) 0x08 == 0)
          then rest
          else if first_byte i sector == b'.'
          then rest
          else if left_over == 0
          then Scan.found i
          else later
    ]

list_loop : ℕ → ℕ → ℕ → ℕ → Volume → Option (Option (ℕ × ℕ))
list_loop zero s left_over inode v = none
list_loop (suc fuel) s left_over inode v =
    let lba = dir_sector_lba inode s v in
    let scan = list_in_sector 16 0 left_over (read_sector lba v) in
    let rest = list_loop fuel (suc s) (elim scan [ Scan.passed k ↦ k | _ ↦ 0 ]) inode v in
    if lba == 0 then some none else elim scan [
      | Scan.found i ↦ some (some (lba, i))
      | Scan.ended ↦ some none
      | Scan.passed _ ↦ rest
    ]

readdir : ℕ → ℕ → ℕ → Volume → Option (Option VfsDirent)
unfolding list_loop
readdir fuel inode index v =
    if not v.mounted then some none else elim (list_loop fuel 0 index inode v) [
      | none ↦ none
      | some none ↦ some none
      | some (some (lba, i)) ↦
          let e = dir_entry i (read_sector lba v) in
          some (
            some (record {
              name = c_string (format_83 e.name83);
              inode = e.first_cluster;
              flags = if not (bit_and e.attributes 0x10 == 0) then vfs_dir else vfs_file;
            }))
    ]
