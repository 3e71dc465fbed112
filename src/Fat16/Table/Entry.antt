-- ===== src/Fat16/Table/Entry.antt =====
-- Reading and writing entries of the table, and its two copies.
use yotos.Base.{
  ℕ, ◌+◌, ◌*◌, ◌/◌, ◌%◌, ◌^◌, ◌<◌, ◌≡◌, ap, ◌⊎◌, ◌&&◌, ◌||◌, arith, ltb, ◌==◌, if◌then◌else◌,
}
use yotos.Fat16.{Bpb, Volume, u16_at, read_sector}
use yotos.Fat16.Table.{patch_entry, fat_entry, fat2_entry, fat_set_entry}

-- The k-th 16-bit word of a sector.
word_at : ℕ → ℕ → Volume → ℕ
word_at lba k v = u16_at (read_sector lba v) (2 * k)

word_at-patch_entry :
    (l m k j at value : ℕ) (v : Volume)
    → value < 2 ^ 16
    → at ≡ 2 * j
    → word_at l k (patch_entry m at value v)
      ≡ (if (l == m) && (k == j) then value else word_at l k v)
unfolding word_at patch_entry
word_at-patch_entry l m k j at value v small e = ground arith

fat_entry-word_at : (c : ℕ) (v : Volume) → fat_entry c v ≡ word_at (v.fat_lba + c / 256) (c % 256) v
unfolding word_at fat_entry
fat_entry-word_at c v =
    let sector : c * 2 / 512 ≡ c / 256 = omega arith in
    let within : c * 2 % 512 ≡ 2 * (c % 256) = omega arith in rw (sector, within)

fat2_entry-word_at :
    (c : ℕ) (v : Volume)
    → fat2_entry c v ≡ word_at (v.fat_lba + v.bpb.fat_size_16 + c / 256) (c % 256) v
unfolding word_at fat2_entry
fat2_entry-word_at c v =
    let sector : c * 2 / 512 ≡ c / 256 = omega arith in
    let within : c * 2 % 512 ≡ 2 * (c % 256) = omega arith in rw (sector, within)

-- Every 16-bit word of the disk after an entry is written: the entry in the first copy and, on a
-- volume with more copies, in the second.
word_at-fat_set_entry :
    (c value l k : ℕ) (v : Volume)
    → value < 2 ^ 16
    → word_at l k (fat_set_entry c value v) ≡ (
        if (k == c % 256)
          && ((l == v.fat_lba + c / 256)
              || (ltb 1 v.bpb.fat_count && (l == v.fat_lba + v.bpb.fat_size_16 + c / 256)))
        then value
        else word_at l k v)
unfolding fat_set_entry
word_at-fat_set_entry c value l k v small =
    let sector : c * 2 / 512 ≡ c / 256 = omega arith in
    let one =
      word_at-patch_entry l (v.fat_lba + c * 2 / 512) k (c % 256) (c * 2 % 512) value v small
        (omega arith) in
    let two =
      word_at-patch_entry l (v.fat_lba + v.bpb.fat_size_16 + c * 2 / 512) k (c % 256) (c * 2 % 512)
        value (patch_entry (v.fat_lba + c * 2 / 512) (c * 2 % 512) value v) small (omega arith) in
    ground (arith, one, two, sector)

-- Only the disk changes.
fat_set_entry-layout :
    (c value : ℕ) (v : Volume)
    → fat_set_entry c value v ≡ record v { disk = (fat_set_entry c value v).disk }
unfolding fat_set_entry patch_entry
fat_set_entry-layout c value v = ground arith

-- The clusters that have an entry in one copy of the table.
abbrev pub HasEntry : Volume → ℕ → Type 0
HasEntry v c = c / 256 < v.bpb.fat_size_16

fat_lba-fat_set_entry : (c value : ℕ) (v : Volume) → (fat_set_entry c value v).fat_lba ≡ v.fat_lba
fat_lba-fat_set_entry c value v = ap (λ (w : Volume). w.fat_lba) (fat_set_entry-layout c value v)

pub bpb-fat_set_entry : (c value : ℕ) (v : Volume) → (fat_set_entry c value v).bpb ≡ v.bpb
bpb-fat_set_entry c value v = ap (λ (w : Volume). w.bpb) (fat_set_entry-layout c value v)

-- Writing a 16-bit value to the entry of a cluster that has one in the table changes that entry to
-- the value and no other entry of the table.
pub fat_entry-fat_set_entry :
    (v : Volume) (c d value : ℕ)
    → HasEntry v c
    → HasEntry v d
    → value < 2 ^ 16
    → fat_entry d (fat_set_entry c value v) ≡ (if c == d then value else fat_entry d v)
fat_entry-fat_set_entry v c d value hc hd small = ground (
  arith,
  fat_entry-word_at d (fat_set_entry c value v),
  fat_lba-fat_set_entry c value v,
  word_at-fat_set_entry c value (v.fat_lba + d / 256) (d % 256) v small,
  fat_entry-word_at d v,
)

-- On a volume with two copies of the table, writing a 16-bit value to an entry of the table changes
-- that entry of the second copy to the value and no other entry of it.
pub fat2_entry-fat_set_entry :
    (v : Volume) (c d value : ℕ)
    → HasEntry v c
    → HasEntry v d
    → value < 2 ^ 16
    → 1 < v.bpb.fat_count
    → fat2_entry d (fat_set_entry c value v) ≡ (if c == d then value else fat2_entry d v)
fat2_entry-fat_set_entry v c d value hc hd small two = ground (
  arith,
  fat2_entry-word_at d (fat_set_entry c value v),
  fat_lba-fat_set_entry c value v,
  ap (λ (b : Bpb). b.fat_size_16) (bpb-fat_set_entry c value v),
  word_at-fat_set_entry c value (v.fat_lba + v.bpb.fat_size_16 + d / 256) (d % 256) v small,
  fat2_entry-word_at d v,
)

-- A zero written anywhere in the table leaves every entry as it was, or makes it zero …
pub fat_set_entry-zero_or :
    (c d : ℕ) (v : Volume)
    → (fat_entry d (fat_set_entry c 0 v) ≡ 0) ⊎ (fat_entry d (fat_set_entry c 0 v) ≡ fat_entry d v)
fat_set_entry-zero_or c d v = ground (
  arith,
  fat_entry-word_at d (fat_set_entry c 0 v),
  fat_lba-fat_set_entry c 0 v,
  word_at-fat_set_entry c 0 (v.fat_lba + d / 256) (d % 256) v,
  fat_entry-word_at d v,
)

-- … and the entry that was meant is zero.
pub fat_set_entry-zero : (c : ℕ) (v : Volume) → fat_entry c (fat_set_entry c 0 v) ≡ 0
fat_set_entry-zero c v = ground (
  arith,
  fat_entry-word_at c (fat_set_entry c 0 v),
  fat_lba-fat_set_entry c 0 v,
  word_at-fat_set_entry c 0 (v.fat_lba + c / 256) (c % 256) v,
)
