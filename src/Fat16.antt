-- ===== src/Fat16.antt =====
-- fs/fat16.c and include/fat16.h: the volume, its disk and `fat16_init`. The children model the
-- allocation table, the 8.3 names, directories and files.
-- The disk is what drivers/ata.c reads and writes, on a drive that answers: 512 bytes for each
-- sector number. A buffer is a function from an index to a byte.
pub mod Table
pub mod Names
pub mod Dir
pub mod File
pub mod Write
pub mod Create
mod FileTests
mod Tests
use yotos.Base.{
  ℕ, ◌+◌, ◌-◌, ◌*◌, ◌/◌, ◌%◌, ◌^◌, Bool, true, false, ◌||◌, not, List, [], ◌∷◌, ◌==◌, if◌then◌else◌,
  update, u8, u16, u32, sub32, Option, none, some,
}

abbrev pub Bytes : Type 0
Bytes = ℕ → ℕ

abbrev pub Disk : Type 0
Disk = ℕ → Bytes

-- `*(uint16_t *)(b + i)` and `*(uint32_t *)(b + i)` on the little-endian target.
abbrev pub u16_at : Bytes → ℕ → ℕ
u16_at b i = b i + 256 * b (i + 1)

abbrev pub u32_at : Bytes → ℕ → ℕ
u32_at b i = u16_at b i + 65536 * u16_at b (i + 2)

abbrev pub set_u16 : Bytes → ℕ → ℕ → Bytes
set_u16 b i v = update (update b i (u8 v)) (i + 1) (u8 (v / 256))

abbrev pub set_u32 : Bytes → ℕ → ℕ → Bytes
set_u32 b i v = set_u16 (set_u16 b i (u16 v)) (i + 2) (u16 (v / 65536))

-- The n bytes from index i on.
abbrev pub bytes_at : Bytes → ℕ → ℕ → List ℕ
bytes_at b i n =
    elim n as (λ n. ℕ → List ℕ) [ ℕ.zero ↦ λ i. [] | ℕ.suc (n → rest) ↦ λ i. b i ∷ rest (i + 1) ] i

-- fat16_bpb_t
pub record Bpb : Type 0 where
  pub jump_boot : List ℕ
  pub oem_name : List ℕ
  pub bytes_per_sector : ℕ
  pub sectors_per_cluster : ℕ
  pub reserved_sectors : ℕ
  pub fat_count : ℕ
  pub root_entry_count : ℕ
  pub total_sectors_16 : ℕ
  pub media_type : ℕ
  pub fat_size_16 : ℕ
  pub sectors_per_track : ℕ
  pub head_count : ℕ
  pub hidden_sectors : ℕ
  pub total_sectors_32 : ℕ
  pub drive_number : ℕ
  pub reserved1 : ℕ
  pub boot_signature : ℕ
  pub volume_id : ℕ
  pub volume_label : List ℕ
  pub fs_type : List ℕ

-- `*(fat16_bpb_t *)sector`
pub read_bpb : Bytes → Bpb
read_bpb b = record {
  jump_boot = bytes_at b 0 3;
  oem_name = bytes_at b 3 8;
  bytes_per_sector = u16_at b 0x0B;
  sectors_per_cluster = b 0x0D;
  reserved_sectors = u16_at b 0x0E;
  fat_count = b 0x10;
  root_entry_count = u16_at b 0x11;
  total_sectors_16 = u16_at b 0x13;
  media_type = b 0x15;
  fat_size_16 = u16_at b 0x16;
  sectors_per_track = u16_at b 0x18;
  head_count = u16_at b 0x1A;
  hidden_sectors = u32_at b 0x1C;
  total_sectors_32 = u32_at b 0x20;
  drive_number = b 0x24;
  reserved1 = b 0x25;
  boot_signature = b 0x26;
  volume_id = u32_at b 0x27;
  volume_label = bytes_at b 0x2B 11;
  fs_type = bytes_at b 0x36 8;
}

-- The static variables of fat16.c, and the disk.
pub record Volume : Type 0 where
  pub bpb : Bpb
  pub fat_lba : ℕ
  pub root_dir_lba : ℕ
  pub root_dir_sectors : ℕ
  pub data_lba : ℕ
  pub mounted : Bool
  pub disk : Disk

abbrev pub read_sector : ℕ → Volume → Bytes
read_sector lba v = v.disk lba

abbrev pub write_sector : ℕ → Bytes → Volume → Volume
write_sector lba buf v = record v { disk = update v.disk lba buf }

-- What `fat16_init` prints when it refuses a disk.
pub data InitError : Type 0 where
  bad_signature : InitError
  unsupported_sector_size : ℕ → InitError
  fat32 : InitError

-- The layout that `fat16_init` computes from the boot sector.
mount_layout : Bpb → Volume → Volume
mount_layout b v =
    let root_lba = b.reserved_sectors + b.fat_count * b.fat_size_16 in
    let root_sectors = (b.root_entry_count * 32 + 511) / 512 in
    record v {
      bpb = b;
      fat_lba = b.reserved_sectors;
      root_dir_lba = root_lba;
      root_dir_sectors = root_sectors;
      data_lba = root_lba + root_sectors;
      mounted = true;
    }

-- The error (-1) or none (0), and the new state. A refused boot sector is kept in `bpb`, as in C.
pub init : Volume → Option InitError × Volume
unfolding read_bpb mount_layout
init v =
    let sector = read_sector 0 v in
    let b = read_bpb sector in
    if not (sector 510 == 0x55) || not (sector 511 == 0xAA)
    then (some bad_signature, v)
    else if not (b.bytes_per_sector == 512)
    then (some (unsupported_sector_size b.bytes_per_sector), record v { bpb = b })
    else if b.fat_size_16 == 0
    then (some fat32, record v { bpb = b })
    else (none, mount_layout b v)
