-- ===== src/Vfs/Dispatch.antt =====
-- fs/vfs.c: the calls of a file system that go through the operations of a node. A node that is 0 is
-- the null pointer. A table that lacks an operation refuses it as the calls do.
use yotos.Base.{ℕ, Option, none, some, List, bit_and, ◌==◌, if◌then◌else◌}
use yotos.Vfs.{vfs_file, vfs_dir, VfsDirent}

-- The operations of a file system over states of a type. A read gives the bytes, or none for -1, a
-- write the number of bytes; a missing operation is `none`.
pub record Operations (S : Type 0) : Type 1 where
  pub flags : ℕ → S → ℕ
  pub read : ℕ → S → Option (ℕ → ℕ → S → Option (List ℕ) × S)
  pub write : ℕ → S → Option (ℕ → List ℕ → S → Option ℕ × S)
  pub readdir : ℕ → S → Option (ℕ → S → Option VfsDirent × S)
  pub create : ℕ → S → Option (List ℕ → ℕ → S → ℕ × S)

module _ {S : Type 0} (fs : Operations S) where
  pub vfs_read : (node offset size : ℕ) → S → Option (List ℕ) × S
  vfs_read node offset size s =
      let through : Option (List ℕ) × S = elim (fs.read node s) [
        | none ↦ (none, s)
        | some read ↦ read offset size s
      ] in
      if node == 0
      then (none, s)
      else if bit_and (fs.flags node s) vfs_file == 0
      then (none, s)
      else through

  pub vfs_write : (node offset : ℕ) → List ℕ → S → Option ℕ × S
  vfs_write node offset buf s =
      let through : Option ℕ × S = elim (fs.write node s) [
        | none ↦ (none, s)
        | some write ↦ write offset buf s
      ] in
      if node == 0
      then (none, s)
      else if bit_and (fs.flags node s) vfs_file == 0
      then (none, s)
      else through

  pub vfs_readdir : (node index : ℕ) → S → Option VfsDirent × S
  vfs_readdir node index s =
      let through : Option VfsDirent × S = elim (fs.readdir node s) [
        | none ↦ (none, s)
        | some readdir ↦ readdir index s
      ] in
      if node == 0
      then (none, s)
      else if bit_and (fs.flags node s) vfs_dir == 0
      then (none, s)
      else through

  pub vfs_create : ℕ → List ℕ → ℕ → S → ℕ × S
  vfs_create node name flags s =
      let through : ℕ × S = elim (fs.create node s) [
        | none ↦ (0, s)
        | some create ↦ create name flags s
      ] in
      if node == 0
      then (0, s)
      else if bit_and (fs.flags node s) vfs_dir == 0
      then (0, s)
      else through
