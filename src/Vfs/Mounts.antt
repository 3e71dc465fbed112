-- ===== src/Vfs/Mounts.antt =====
-- fs/vfs.c: the mount table, the calls that go through a node's table of operations, and the walk
-- of `vfs_open` along a path. A node is its address, 0 the null pointer; a path is the list of its
-- bytes. What the file system behind the nodes does is an interface.
use yotos.Base.{
  ℕ, zero, suc, ◌≤◌, ◌<◌, ◌≢◌, inl, inr, Bool, true, false, not, Option, none, some, List, [], ◌∷◌,
  ◌++◌, arith, bit_and, leb, ◌==◌, if◌then◌else◌, Bool-cases, length,
}
use yotos.Klibc.{strlcpy}
use yotos.Vfs.{vfs_dir}

-- vfs_mountpoint_t
pub record Mountpoint : Type 0 where
  pub path : List ℕ
  pub root : ℕ

abbrev pub vfs_max_mounts : ℕ
vfs_max_mounts = 8

-- The first `mount_count` entries of `mounts`.
vfs_mount : List ℕ → ℕ → List Mountpoint → List Mountpoint
vfs_mount path root mounts =
    if root == 0
    then mounts
    else if leb vfs_max_mounts (length mounts)
    then mounts
    else mounts ++ (record { path = (strlcpy [] path 128).0; root = root } ∷ [])

-- `p[0] == '/' && p[1] == '\0'`
abbrev is_slash : List ℕ → Bool
is_slash (c ∷ []) = c == b'/'
is_slash _ = false

unfoldable pub vfs_get_root : List Mountpoint → ℕ
vfs_get_root [] = 0
vfs_get_root (m ∷ mounts) =
    let rest = vfs_get_root mounts in if is_slash m.path then m.root else rest

-- A file system over states of a type: the flags of a node, its table's `finddir` and `close`, if
-- it has them, and what they do.
pub record Driver (S : Type 0) : Type 1 where
  pub flags : ℕ → S → ℕ
  pub has_finddir : ℕ → S → Bool
  pub finddir : ℕ → List ℕ → S → ℕ × S
  pub has_close : ℕ → S → Bool
  pub close : ℕ → S → S

-- The next component of a path, of at most `room` bytes, and the path behind it.
pub component : ℕ → List ℕ → List ℕ × List ℕ
component room [] = ([], [])
component zero (c ∷ p) = ([], c ∷ p)
component (suc room) (c ∷ p) =
    let rest = component room p in if c == b'/' then ([], c ∷ p) else (c ∷ rest.0, rest.1)

-- `if (*p == '/') p++;`
abbrev pub skip_slash : List ℕ → List ℕ
skip_slash [] = []
skip_slash (c ∷ p) = if c == b'/' then p else c ∷ p

module _ {S : Type 0} (fs : Driver S) where
  unfoldable pub vfs_finddir : ℕ → List ℕ → S → ℕ × S
  vfs_finddir node name s =
      if node == 0
      then (0, s)
      else if bit_and (fs.flags node s) vfs_dir == 0
      then (0, s)
      else if not (fs.has_finddir node s)
      then (0, s)
      else fs.finddir node name s

  unfoldable pub vfs_close : ℕ → S → S
  vfs_close node s = if node == 0 then s else if fs.has_close node s then fs.close node s else s

  -- One round of the walk: the child, and the state once the node before it is closed.
  unfoldable pub step_into : (root current : ℕ) → List ℕ → S → ℕ × S
  step_into root current name s =
      let (next, s1) = vfs_finddir current name s in
      (next, if current == root then s1 else vfs_close current s1)

  -- The loop over the components; `none` means that the fuel ran out.
  unfoldable pub open_loop : (fuel root current : ℕ) → List ℕ → S → Option (ℕ × S)
  open_loop zero root current p s = none
  open_loop (suc fuel) root current [] s = some (current, s)
  open_loop (suc fuel) root current (c ∷ p) s =
      let (name, behind) = component 127 (c ∷ p) in
      let (next, s1) = step_into root current name s in
      let rest = open_loop fuel root next (skip_slash behind) s1 in
      if next == 0 then some (0, s1) else rest

  -- Each round takes a byte of the path at least.
  unfoldable pub vfs_open : List Mountpoint → List ℕ → S → Option (ℕ × S)
  vfs_open mounts name s =
      let root = vfs_get_root mounts in
      if root == 0 then some (0, s) else open_loop (suc (length name)) root root (skip_slash name) s

component_shorter : (room : ℕ) (p : List ℕ) → length (component room p).1 ≤ length p
unfolding component
component_shorter room [] = omega arith
component_shorter zero (c ∷ p) = omega arith
component_shorter (suc room) (c ∷ p) = ground (arith, component_shorter room p)

round_shorter : (c : ℕ) (p : List ℕ) → length (skip_slash (component 127 (c ∷ p)).1) ≤ length p
unfolding component
round_shorter c p = elim (Bool-cases (c == b'/')) [
  | inl e ↦ rw (e, e) (omega arith)
  | inr e ↦ rw e (trans_skip (component 126 p).1 p (component_shorter 126 p))
]
  where
    trans_skip : (q p : List ℕ) → length q ≤ length p → length (skip_slash q) ≤ length p
    trans_skip [] p h = h
    trans_skip (d ∷ q) p h = ground arith

slash_shorter : (p : List ℕ) → length (skip_slash p) < suc (length p)
slash_shorter [] = omega arith
slash_shorter (c ∷ p) = ground arith

branch_ends :
    {A : Type 0} (b : Bool) (x : A) (rest : Option A)
    → rest ≢ none
    → (if b then some x else rest) ≢ none
branch_ends true x rest h = λ e. absurd (ground (arith, e))
branch_ends false x rest h = h

open_loop_ends :
    {S : Type 0} (fs : Driver S) (fuel root current : ℕ) (p : List ℕ) (s : S)
    → length p < fuel
    → open_loop fs fuel root current p s ≢ none
unfolding open_loop
open_loop_ends fs zero root current p s h = absurd (omega arith)
open_loop_ends fs (suc fuel) root current [] s h = λ e. absurd (ground (arith, e))
open_loop_ends fs (suc fuel) root current (c ∷ p) s h =
    let (name, behind) = component 127 (c ∷ p) in
    let (next, s1) = step_into fs root current name s in
    branch_ends (next == 0) (0, s1) (open_loop fs fuel root next (skip_slash behind) s1)
      (open_loop_ends fs fuel root next (skip_slash behind) s1
        (omega (arith, round_shorter c p, h)))

-- `vfs_open` ends on every path, whatever the file system does.
pub vfs_open-total :
    {S : Type 0} (fs : Driver S) (mounts : List Mountpoint) (name : List ℕ) (s : S)
    → vfs_open fs mounts name s ≢ none
unfolding vfs_open
vfs_open-total fs mounts name s =
    let root = vfs_get_root mounts in
    branch_ends (root == 0) (0, s) (open_loop fs (suc (length name)) root root (skip_slash name) s)
      (open_loop_ends fs (suc (length name)) root root (skip_slash name) s (slash_shorter name))
