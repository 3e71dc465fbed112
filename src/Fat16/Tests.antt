-- ===== src/Fat16/Tests.antt =====
-- A small volume: one sector for each of the two copies of the table, in which the clusters 2 and 3
-- form a chain, and one sector of the root directory.
use yotos.Base.{
  ℕ, ◌-◌, ◌≤◌, ◌<◌, ◌≡◌, refl, ◌≢◌, true, ◌||◌, none, some, List, [], ◌∷◌, ◌++◌, map, arith, ◌==◌,
  if◌then◌else◌, length, get_or, replicate,
}
use yotos.Fat16.{Bytes, Volume, read_bpb}
use yotos.Fat16.Table.{fat_entry, fat_alloc_cluster, free_cluster, free_entry, fat_free_chain}
use yotos.Fat16.Table.Entry.{HasEntry}
use yotos.Fat16.Table.Alloc.{fat_alloc_cluster-first}
use yotos.Fat16.Table.Chain.{IsChain, Freed, fat_free_chain-total, fat_free_chain-Freed}
use yotos.Fat16.Names.{
  Name83, format_83, format_name_83, name_match, find_dot, fill_field, trim, c_string,
}
use yotos.Fat16.Names.RoundTrip.{NoBlank, format_83-format_name_83}
use yotos.Fat16.Dir.{dir_entry, put_entry, find_in_sector, skip_entry, Scan, put_bytes}
use yotos.Fat16.Dir.Slots.{dir_entry-put_entry}
use yotos.Klibc.{strlen, to_upper, strcasecmp}
use yotos.Klibc.Strings.{IsCString}

abbrev table : List ℕ
table = 0 ∷ 0 ∷ 0 ∷ 0 ∷ 3 ∷ 0 ∷ 255 ∷ 255 ∷ []

abbrev pub volume : Volume
volume = record {
  bpb = record (read_bpb (λ _. 0)) { fat_size_16 = 1; fat_count = 2; sectors_per_cluster = 1 };
  fat_lba = 1;
  root_dir_lba = 3;
  root_dir_sectors = 1;
  data_lba = 4;
  mounted = true;
  disk = λ l i. if (l == 1) || (l == 2) then get_or table i 0 else 0;
}

allocates : (fat_alloc_cluster volume).0 ≡ 4
unfolding fat_alloc_cluster free_cluster free_entry
allocates = refl

fat_alloc_cluster-first_example :
    let (c, w) = fat_alloc_cluster volume in
    (2 ≤ c)
    × HasEntry volume c
    × (fat_entry c volume ≡ 0)
    × ((k : ℕ) → 2 ≤ k → k < c → fat_entry k volume ≢ 0)
    × ((d : ℕ)
        → HasEntry volume d
        → fat_entry d w ≡ (if c == d then 0xFFFF else fat_entry d volume))
fat_alloc_cluster-first_example =
    fat_alloc_cluster-first volume (omega arith) (λ e. absurd (omega (arith, allocates, e)))

fat_free_chain-total_example : (w : Volume) × (fat_free_chain 2 volume ≡ some w)
fat_free_chain-total_example = fat_free_chain-total 2 volume

pub volume-IsChain : IsChain volume 2 (2 ∷ 3 ∷ [])
unfolding fat_entry
volume-IsChain = (refl, refl, omega arith, refl, (refl, refl, omega arith, refl, refl))

fat_free_chain-Freed_example :
    (w : Volume) × (fat_free_chain 2 volume ≡ some w) × Freed volume (2 ∷ 3 ∷ []) w
fat_free_chain-Freed_example = fat_free_chain-Freed 2 volume (2 ∷ 3 ∷ []) volume-IsChain

abbrev short_name : List ℕ
short_name = b'a' ∷ b'.' ∷ b'c' ∷ []

abbrev short_name83 : Name83
short_name83 = record { name = b'A' ∷ replicate 7 b' '; ext = b'C' ∷ b' ' ∷ b' ' ∷ [] }

has_form : format_name_83 short_name ≡ some short_name83
unfolding format_name_83 find_dot fill_field strlen to_upper
has_form = refl

dot_inside : find_dot short_name ≢ some (length short_name - 1)
unfolding find_dot
dot_inside = λ e. absurd (ground (arith, e))

short_name-NoBlank : NoBlank short_name
short_name-NoBlank = (
  λ e. absurd (omega (arith, e)),
  (λ e. absurd (omega (arith, e)), (λ e. absurd (omega (arith, e)), tt)),
)

short_name-IsCString : IsCString short_name
short_name-IsCString =
    (omega arith, omega arith, (omega arith, omega arith, (omega arith, omega arith, tt)))

format_83-format_name_83_example : format_83 short_name83 ≡ map to_upper short_name
format_83-format_name_83_example =
    format_83-format_name_83 short_name short_name83 has_form short_name-NoBlank dot_inside

abbrev bare : List ℕ
bare = b'a' ∷ []

abbrev bare83 : Name83
bare83 = record { name = b'A' ∷ replicate 7 b' '; ext = replicate 3 b' ' }

bare_form : format_name_83 (bare ++ b'.' ∷ []) ≡ some bare83
unfolding format_name_83 find_dot fill_field strlen to_upper
bare_form = refl

bare_dot : find_dot bare ≡ none
unfolding find_dot
bare_dot = refl

abbrev filled : Bytes
filled = put_entry 2 short_name83 5 700 0x20 (λ _. 0)

dir_entry-put_entry_example :
    let e = dir_entry 2 filled in
    (e.name83 ≡ short_name83)
    × (e.attributes ≡ 0x20)
    × (e.first_cluster ≡ 5)
    × (e.file_size ≡ 700)
    × ((j : ℕ) → j ≢ 2 → dir_entry j filled ≡ dir_entry j (λ _. 0))
dir_entry-put_entry_example =
    dir_entry-put_entry 2 5 700 0x20 short_name83 (λ _. 0) refl refl (omega arith) (omega arith)

abbrev listed : Bytes
listed = put_entry 0 short_name83 5 700 0x20 (λ _. 0)

finds : find_in_sector 16 0 short_name listed ≡ Scan.found 0
unfolding find_in_sector skip_entry dir_entry put_entry put_bytes name_match format_83 trim c_string
    strcasecmp to_upper
finds = refl
