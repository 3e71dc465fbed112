-- ===== src/Vfs/Tests.antt =====
-- A file system with a static root.
use yotos.Base.{ℕ, suc, ◌≢◌, true, not, none, some, List, [], ◌∷◌, arith, ◌==◌}
use yotos.Vfs.Open.{tracked, IsOpened, vfs_open-IsOpened}
use yotos.Vfs.Mounts.{Driver, Mountpoint, vfs_open, vfs_get_root}

abbrev mounted : List Mountpoint
mounted = record { path = b'/' ∷ []; root = 0x5000 } ∷ []

-- A root that is static, and directories with one and the same child.
abbrev tree : Driver ℕ
tree = record {
  flags = λ _ _. 2;
  has_finddir = λ _ _. true;
  finddir = λ _ _ s. (0x6000, suc s);
  has_close = λ node _. not (node == 0x5000);
  close = λ _ s. s;
}

vfs_open-IsOpened_example :
    (vfs_open (tracked tree) mounted (b'/' ∷ b'a' ∷ b'/' ∷ b'b' ∷ []) (0, some []) ≢ none)
    × IsOpened
        (vfs_get_root mounted)
        (vfs_open (tracked tree) mounted (b'/' ∷ b'a' ∷ b'/' ∷ b'b' ∷ []) (0, some []))
        []
unfolding vfs_get_root
vfs_open-IsOpened_example =
    vfs_open-IsOpened tree mounted (b'/' ∷ b'a' ∷ b'/' ∷ b'b' ∷ []) 0 []
      (λ n t h. ground (arith, h)) (λ n name t. ground arith)
