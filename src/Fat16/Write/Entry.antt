-- ===== src/Fat16/Write/Entry.antt =====
-- The directory entry of a file that is written: `fat16_vfs_write` puts the first cluster and the size
-- of the node into it.
use yotos.Base.{ℕ, ◌+◌, ◌*◌, ◌^◌, ◌≤◌, ◌<◌, ◌≡◌, refl, ap, ◌∙◌, fun_ext, ◌≢◌, ◌⊎◌, inl, arith, u16}
use yotos.Fat16.{Bytes, Volume, read_sector, u16_at, u32_at, set_u16, set_u32, bytes_at}
use yotos.Fat16.Dir.{dir_entry}
use yotos.Fat16.Dir.Slots.{dir_entry-cong, bytes_at-cong}
use yotos.Fat16.Write.{update_entry}
use yotos.Vfs.{VfsNode}

-- The entry of the node in `w` is the one in `v` with the cluster and the size of the node, and the
-- other entries of the sector are those in `v`.
pub record IsEntered (node : VfsNode) (v w : Volume) : Type 0 where
  pub entry :
      dir_entry node.dir_index (read_sector node.dir_lba w)
      ≡ record (dir_entry node.dir_index (read_sector node.dir_lba v)) {
        first_cluster = u16 node.inode;
        file_size = node.size;
      }
  pub others :
      (j : ℕ)
      → j ≢ node.dir_index
      → dir_entry j (read_sector node.dir_lba w) ≡ dir_entry j (read_sector node.dir_lba v)

-- The bytes 26 to 31 of a slot.
module _ (i cluster size : ℕ) (b : Bytes) where
  abbrev changed : Bytes
  changed = set_u32 (set_u16 b (32 * i + 26) (u16 cluster)) (32 * i + 28) size

  outside : (k : ℕ) → (k < 32 * i + 26) ⊎ (32 * i + 32 ≤ k) → changed k ≡ b k
  outside k h = ground arith

  cluster_kept : u16_at changed (32 * i + 26) ≡ u16 cluster
  cluster_kept = ground arith

  size_kept : size < 2 ^ 32 → u32_at changed (32 * i + 28) ≡ size
  size_kept h = ground arith

  dir_entry-changed :
      size < 2 ^ 32
      → dir_entry i changed
        ≡ record (dir_entry i b) { first_cluster = u16 cluster; file_size = size }
  unfolding dir_entry
  dir_entry-changed h =
      let same : (n o : ℕ)
          → n + o < 27
          → bytes_at changed (32 * i + n) o ≡ bytes_at b (32 * i + n) o =
        λ n o l. bytes_at-cong changed b (32 * i + n) o (λ k p q. outside k (inl (omega arith))) in
      let name : bytes_at changed (32 * i) 8 ≡ bytes_at b (32 * i) 8 =
        bytes_at-cong changed b (32 * i) 8 (λ k p q. outside k (inl (omega arith))) in
      let byte : (o : ℕ) → o < 26 → changed (32 * i + o) ≡ b (32 * i + o) =
        λ o l. outside (32 * i + o) (inl (omega arith)) in
      let half : (o : ℕ) → o < 25 → u16_at changed (32 * i + o) ≡ u16_at b (32 * i + o) = λ o l.
        rw (outside (32 * i + o) (inl (omega arith)), outside (32 * i + o + 1) (inl (omega arith)))
          refl in
      let first = cluster_kept in
      let total = size_kept h in
      let ext = same 8 3 (omega arith) in
      let gap = same 12 10 (omega arith) in
      let flags = byte 11 (omega arith) in
      let time = half 22 (omega arith) in
      let date = half 24 (omega arith) in
      λ k. record {
        name83 = record { name = name k; ext = ext k };
        attributes = flags k;
        reserved = gap k;
        write_time = time k;
        write_date = date k;
        first_cluster = first k;
        file_size = total k;
      }

-- Where the sector of the entry is as it was before, the entry is updated.
pub update_entry-IsEntered :
    (node : VfsNode) (v w : Volume)
    → node.size < 2 ^ 32
    → ((j : ℕ) → w.disk node.dir_lba j ≡ v.disk node.dir_lba j)
    → IsEntered node v (update_entry node w)
unfolding update_entry
update_entry-IsEntered node v w h kept =
    let i = node.dir_index in
    let before : w.disk node.dir_lba ≡ v.disk node.dir_lba = fun_ext kept in
    let after : (update_entry node w).disk node.dir_lba
        ≡ changed i node.inode node.size (v.disk node.dir_lba) =
      fun_ext (λ j. ground arith) ∙ ap (changed i node.inode node.size) before in
    record {
      entry = ap (dir_entry i) after ∙ dir_entry-changed i node.inode node.size _ h;
      others = λ j ne.
          ap (dir_entry j) after
          ∙ dir_entry-cong j _ _
              (λ k p q. outside i node.inode node.size (v.disk node.dir_lba) k (omega arith));
    }
