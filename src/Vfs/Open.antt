-- ===== src/Vfs/Open.antt =====
-- The nodes that the walk of `vfs_open` holds on its way.
use yotos.Base.{
  ℕ, zero, suc, ◌≡◌, refl, sym, ap, ◌∙◌, ◌≢◌, ◌⊎◌, inl, inr, true, false, Option, none, some, List,
  [], ◌∷◌, arith, bit_and, ◌==◌, if◌then◌else◌, Bool-cases, length,
}
use yotos.Handles.{
  Handle, node, Held, taken, given_back, given_back-open, given_back-second, taken-null, taken-open,
}
use yotos.Vfs.{vfs_dir}
use yotos.Vfs.Mounts.{
  Driver, Mountpoint, vfs_get_root, component, skip_slash, vfs_finddir, vfs_close, step_into,
  open_loop, vfs_open, vfs_open-total,
}

-- The same file system, with a record of the open nodes kept beside the state: a child that is found
-- is open, and closing it gives it back. A node without `close` is static and is not recorded.
pub tracked : {S : Type 0} → Driver S → Driver (S × Held)
tracked fs = record {
  flags = λ n (s, _). fs.flags n s;
  has_finddir = λ n (s, _). fs.has_finddir n s;
  finddir = λ n name (s, held).
      let (next, t) = fs.finddir n name s in (next, (t, taken next (node next) held));
  has_close = λ n (s, _). fs.has_close n s;
  close = λ n (s, held). (fs.close n s, given_back (node n) held);
}

-- What is open once a walk is at a node: that node, unless it is the root or there is none.
abbrev pub with_node : (root n : ℕ) → List Handle → List Handle
with_node root n l = if n == 0 then l else if n == root then l else node n ∷ l

taken_if :
    (n : ℕ) (l : List Handle) (h : Held)
    → h ≡ some l
    → taken n (node n) h ≡ some (if n == 0 then l else node n ∷ l)
taken_if n l h e = elim (Bool-cases (n == 0)) [
  | inl k ↦ taken-null n (node n) h k ∙ e ∙ rw k refl
  | inr k ↦ taken-open n (node n) l h k e ∙ rw k refl
]

given_back_if :
    (m n : ℕ) (l : List Handle)
    → given_back (node m) (some (if n == 0 then node m ∷ l else node n ∷ node m ∷ l))
      ≡ some (if n == 0 then l else node n ∷ l)
given_back_if m n l = elim (Bool-cases (n == 0)) [
  | inl k ↦ rw k (given_back-open (node m) l _ refl)
  | inr k ↦ rw k (given_back-second n m l _ refl)
]

found_node :
    (root n : ℕ) (l : List Handle)
    → ((n == 0) ≡ false → n ≢ root)
    → (if n == 0 then l else node n ∷ l) ≡ with_node root n l
found_node root n l other = elim (Bool-cases (n == 0)) [
  | inl k ↦ rw k refl
  | inr k ↦ let apart : (n == root) ≡ false = ground (arith, other k) in rw (k, apart) refl
]

itself : (root : ℕ) (l : List Handle) → with_node root root l ≡ l
itself root l = ground arith

-- A walk that ends has its node open and no other.
pub IsOpened : {S : Type 0} → (root : ℕ) → Option (ℕ × (S × Held)) → List Handle → Type 0
IsOpened root none l = Unit
IsOpened root (some (n, (s, held))) l = held ≡ some (with_node root n l)

module _ {S : Type 0} (fs : Driver S) (root : ℕ)
    (closable : (n : ℕ) (s : S) → n ≢ root → fs.has_close n s ≡ true)
    (not_root : (n : ℕ) (name : List ℕ) (s : S) → (fs.finddir n name s).0 ≢ root) where
  -- A search finds no child, or one that is open then.
  finddir-cases :
      (n : ℕ) (name : List ℕ) (s : S) (h : Held)
      → (vfs_finddir (tracked fs) n name (s, h) ≡ (0, (s, h)))
        ⊎ (let (next, t) = fs.finddir n name s in
            vfs_finddir (tracked fs) n name (s, h) ≡ (next, (t, taken next (node next) h)))
  unfolding vfs_finddir tracked
  finddir-cases n name s h = elim (Bool-cases (n == 0)) [
    | inl e ↦ rw e (inl refl)
    | inr e ↦ rw e (elim (Bool-cases (bit_and (fs.flags n s) vfs_dir == 0)) [
      | inl k ↦ rw k (inl refl)
      | inr k ↦ rw k (elim (Bool-cases (fs.has_finddir n s)) [
        | inl j ↦ rw j (inr refl)
        | inr j ↦ rw j (inl refl)
      ])
    ])
  ]

  -- What is open once a child was looked for.
  record Found (r : ℕ × (S × Held)) (l : List Handle) : Type 0 where
    pub other : (r.0 == 0) ≡ false → r.0 ≢ root
    pub held : r.1.1 ≡ some (if r.0 == 0 then l else node r.0 ∷ l)

  finddir-Found :
      (n : ℕ) (name : List ℕ) (s : S) (h : Held) (l : List Handle)
      → h ≡ some l
      → Found (vfs_finddir (tracked fs) n name (s, h)) l
  finddir-Found n name s h l e = elim (finddir-cases n name s h) [
    | inl k ↦ rw k (record { other = λ z. absurd (cc z); held = e })
    | inr k ↦
        rw k
          (record { other = λ z. not_root n name s; held = taken_if (fs.finddir n name s).0 l h e })
  ]

  close-held :
      (n : ℕ) (s : S) (h : Held)
      → (n == 0) ≡ false
      → n ≢ root
      → (vfs_close (tracked fs) n (s, h)).1 ≡ given_back (node n) h
  unfolding vfs_close tracked
  close-held n s h some_node k = rw (some_node, closable n s k) refl

  step_into-held :
      (current : ℕ) (name : List ℕ) (s : S) (h : Held) (l : List Handle)
      → (current == 0) ≡ false
      → h ≡ some (with_node root current l)
      → (step_into (tracked fs) root current name (s, h)).1.1
        ≡ some (with_node root (step_into (tracked fs) root current name (s, h)).0 l)
  unfolding step_into
  step_into-held current name s h l some_node e = elim (Bool-cases (current == root)) [
    | inl k ↦
        let found =
          finddir-Found current name s h l (e ∙ ap some (at_root current l some_node k)) in
        rw k (found.held ∙ ap some (found_node root _ l found.other))
    | inr k ↦
        let found =
          finddir-Found current name s h (node current ∷ l)
            (e ∙ ap some (not_at_root current l some_node k)) in
        let (next, t) = vfs_finddir (tracked fs) current name (s, h) in
        let apart : current ≢ root = ground (arith, k) in
        rw k (
          close-held current t.0 t.1 some_node apart
          ∙ ap (given_back (node current)) found.held
          ∙ given_back_if current next l
          ∙ ap some (found_node root next l found.other))
  ]
    where
      at_root :
          (n : ℕ) (l : List Handle) → (n == 0) ≡ false → (n == root) ≡ true → with_node root n l ≡ l
      at_root n l e k = rw (e, k) refl

      not_at_root :
          (n : ℕ) (l : List Handle)
          → (n == 0) ≡ false
          → (n == root) ≡ false
          → with_node root n l ≡ node n ∷ l
      not_at_root n l e k = rw (e, k) refl

  open_loop-IsOpened :
      (fuel current : ℕ) (p : List ℕ) (s : S) (h : Held) (l : List Handle)
      → (current == 0) ≡ false
      → h ≡ some (with_node root current l)
      → IsOpened root (open_loop (tracked fs) fuel root current p (s, h)) l
  unfolding open_loop IsOpened
  open_loop-IsOpened zero current p s h l some_node e = tt
  open_loop-IsOpened (suc fuel) current [] s h l some_node e = e
  open_loop-IsOpened (suc fuel) current (c ∷ p) s h l some_node e =
      let (name, behind) = component 127 (c ∷ p) in
      let (next, t) = step_into (tracked fs) root current name (s, h) in
      let held = step_into-held current name s h l some_node e in
      elim (Bool-cases (next == 0)) [
        | inl k ↦ rw k (held ∙ rw k refl)
        | inr k ↦ rw k (open_loop-IsOpened fuel next (skip_slash behind) t.0 t.1 l k held)
      ]

walk-IsOpened :
    {S : Type 0} (fs : Driver S) (mounts : List Mountpoint) (path : List ℕ) (s : S)
    (l : List Handle)
    → ((n : ℕ) (t : S) → n ≢ vfs_get_root mounts → fs.has_close n t ≡ true)
    → ((n : ℕ) (name : List ℕ) (t : S) → (fs.finddir n name t).0 ≢ vfs_get_root mounts)
    → IsOpened (vfs_get_root mounts) (vfs_open (tracked fs) mounts path (s, some l)) l
unfolding vfs_open IsOpened
walk-IsOpened fs mounts path s l closable not_root =
    let root = vfs_get_root mounts in
    elim (Bool-cases (root == 0)) [
      | inl k ↦ rw k refl
      | inr k ↦
          let here : with_node root root l ≡ l = itself root l in
          rw k (
            open_loop-IsOpened fs root closable not_root (suc (length path)) root (skip_slash path)
              s (some l) l k (ap some (sym here)))
    ]

-- The walk along a path ends, and then, of the nodes that it opened, only the one that it returns is
-- still open, and none was closed that was not open; the root, which is static, is never closed. The
-- nodes but the root have a `close`, and no search returns the root.
pub vfs_open-IsOpened :
    {S : Type 0} (fs : Driver S) (mounts : List Mountpoint) (path : List ℕ) (s : S)
    (l : List Handle)
    → ((n : ℕ) (t : S) → n ≢ vfs_get_root mounts → fs.has_close n t ≡ true)
    → ((n : ℕ) (name : List ℕ) (t : S) → (fs.finddir n name t).0 ≢ vfs_get_root mounts)
    → (vfs_open (tracked fs) mounts path (s, some l) ≢ none)
      × IsOpened (vfs_get_root mounts) (vfs_open (tracked fs) mounts path (s, some l)) l
vfs_open-IsOpened fs mounts path s l closable not_root = (
  vfs_open-total (tracked fs) mounts path (s, some l),
  walk-IsOpened fs mounts path s l closable not_root,
)
