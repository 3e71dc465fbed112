-- ===== src/Vfs.antt =====
-- include/vfs.h and fs/vfs.c: the nodes of the virtual file system.
pub mod Mounts
pub mod Dispatch
pub mod Open
mod Tests
use yotos.Base.{ℕ, List}

abbrev pub vfs_file : ℕ
vfs_file = 1

abbrev pub vfs_dir : ℕ
vfs_dir = 2

-- The table of operations of a node: the file's, the directory's or the static root's.
pub data VfsOps : Type 0 where
  file_ops : VfsOps
  dir_ops : VfsOps
  root_ops : VfsOps

-- struct vfs_node
pub record VfsNode : Type 0 where
  pub name : List ℕ
  pub flags : ℕ
  pub size : ℕ
  pub inode : ℕ
  pub ops : VfsOps
  pub dir_lba : ℕ
  pub dir_index : ℕ

-- sizeof(vfs_node_t) on the 32-bit target.
abbrev pub vfs_node_size : ℕ
vfs_node_size = 152

-- struct vfs_dirent
pub record VfsDirent : Type 0 where
  pub name : List ℕ
  pub inode : ℕ
  pub flags : ℕ
