-- ===== src/Shell/Builtins/Handles/Listing.antt =====
-- ls and cat give back what they open.
use yotos.Base.{
  ℕ, zero, suc, ◌+◌, ◌≡◌, inl, inr, Option, none, some, List, [], ◌∷◌, ◌==◌, Bool-cases, length,
  u32,
}
use yotos.Vfs.{vfs_file, vfs_dir, VfsDirent}
use yotos.Shell.Paths.{path_resolve, is_empty}
use yotos.Shell.Builtins.{has, System, put, print}
use yotos.Shell.Builtins.Listing.{cmd_ls, cmd_cat, ls_loop, cat_loop, list_entry}
use yotos.Handles.{Handle, node, Held}
use yotos.Shell.Builtins.Handles.{
  Accounts, put-held, after_print, after_close, not_opened, looked, opened, after_use,
}
use mathlib.Core.Option.{map as map_option}

-- A state that a loop ends in has the list open.
unfoldable pub IsKept : {S : Type 0} → (S → Held) → Option S → List Handle → Type 0
IsKept held none l = Unit
IsKept held (some s) l = held s ≡ some l

module _ {S : Type 0} (held : S → Held) where
  map-IsKept :
      (f : S → S) {l m : List Handle}
      → ((s : S) → held s ≡ some m → held (f s) ≡ some l)
      → (o : Option S) → IsKept held o m
      → IsKept held (map_option f o) l
  unfolding IsKept
  map-IsKept f keeps none k = tt
  map-IsKept f keeps (some s) k = keeps s k

module _ {S : Type 0} (sys : System S) (held : S → Held) (laws : Accounts sys held) where
  list_entry-held :
      {s : S} (entry : VfsDirent) {h : Held} → held s ≡ h → held (list_entry sys entry s) ≡ h
  unfolding list_entry
  list_entry-held entry e = elim (Bool-cases (has vfs_dir entry.flags)) [
    | inl k ↦ rw k (after_print sys held laws _ _ e)
    | inr k ↦ rw k (after_print sys held laws _ _ e)
  ]

  ls_loop-held :
      {s : S} (fuel dir i : ℕ) (l : List Handle)
      → held s ≡ some (node dir ∷ l)
      → IsKept held (ls_loop sys fuel dir i s) (node dir ∷ l)
  unfolding ls_loop IsKept
  ls_loop-held zero dir i l h = tt
  ls_loop-held {s = s} (suc fuel) dir i l h =
      let t = (sys.vfs_readdir dir i s).1 in
      let next : held t ≡ some (node dir ∷ l) = after_use sys held laws (laws.lists dir i s) h in
      elim (sys.vfs_readdir dir i s).0
        as (λ r.
          IsKept held
            (elim r [
              | none ↦ some t
              | some e ↦ ls_loop sys fuel dir (u32 (i + 1)) (list_entry sys e t)
            ])
            (node dir ∷ l)) [
              | none ↦ next
              | some e ↦
                  ls_loop-held {s = list_entry sys e t} fuel dir (u32 (i + 1)) l
                    (list_entry-held e next)
            ]

  cat_loop-held :
      {s : S} (fuel file offset : ℕ) (l : List Handle)
      → held s ≡ some (node file ∷ l)
      → IsKept held (cat_loop sys fuel file offset s) (node file ∷ l)
  unfolding cat_loop IsKept
  cat_loop-held zero file offset l h = tt
  cat_loop-held {s = s} (suc fuel) file offset l h =
      let t = (sys.vfs_read file offset 512 s).1 in
      let next : held t ≡ some (node file ∷ l) =
        after_use sys held laws (laws.reads file offset 512 s) h in
      elim (sys.vfs_read file offset 512 s).0
        as (λ r.
          IsKept held
            (elim r [
              | none ↦ some t
              | some [] ↦ some t
              | some (c ∷ buf) ↦
                  cat_loop sys fuel file (u32 (offset + length (c ∷ buf))) (put sys (c ∷ buf) t)
            ])
            (node file ∷ l)) [
              | none ↦ next
              | some [] ↦ next
              | some (c ∷ buf) ↦
                  cat_loop-held {s = put sys (c ∷ buf) t} fuel file
                    (u32 (offset + length (c ∷ buf))) l (put-held sys held laws (c ∷ buf) next)
            ]

  pub cmd_ls-held :
      {s : S} (fuel : ℕ) (path arg : List ℕ) (l : List Handle)
      → held s ≡ some l
      → IsKept held (cmd_ls sys fuel path arg s) l
  unfolding cmd_ls IsKept
  cmd_ls-held {s = s} fuel path arg l h =
      let resolved = path_resolve path arg 256 in
      let dir = (sys.vfs_open resolved s).0 in
      let is_dir = has vfs_dir (sys.flags dir (sys.vfs_open resolved s).1).0 in
      elim (Bool-cases (dir == 0)) [
        | inl null ↦ rw null (after_print sys held laws _ _ (not_opened sys held laws h null))
        | inr there ↦ rw there (elim (Bool-cases is_dir) [
          | inl e ↦ rw e (
              map-IsKept held (λ t. sys.vfs_close dir t) (λ t k. after_close sys held laws k) _
                (ls_loop-held fuel dir 0 l (looked sys held laws (opened sys held laws h there))))
          | inr e ↦ rw e (
              after_close sys held laws (
                after_print sys held laws _ _
                  (looked sys held laws (opened sys held laws h there))))
        ])
      ]

  pub cmd_cat-held :
      {s : S} (fuel : ℕ) (path arg : List ℕ) (l : List Handle)
      → held s ≡ some l
      → IsKept held (cmd_cat sys fuel path arg s) l
  unfolding cmd_cat IsKept
  cmd_cat-held {s = s} fuel path arg l h =
      let resolved = path_resolve path arg 256 in
      let file = (sys.vfs_open resolved s).0 in
      let is_file = has vfs_file (sys.flags file (sys.vfs_open resolved s).1).0 in
      elim (Bool-cases (is_empty arg)) [
        | inl e ↦ rw e (after_print sys held laws _ _ h)
        | inr e ↦ rw e (elim (Bool-cases (file == 0)) [
          | inl null ↦ rw null (after_print sys held laws _ _ (not_opened sys held laws h null))
          | inr there ↦ rw there (elim (Bool-cases is_file) [
            | inl e ↦ rw e (
                map-IsKept held (λ t. sys.vfs_close file (print sys (10 ∷ []) [] t))
                  (λ t k. after_close sys held laws (after_print sys held laws _ _ k)) _
                  (cat_loop-held fuel file 0 l
                    (looked sys held laws (opened sys held laws h there))))
            | inr e ↦ rw e (
                after_close sys held laws (
                  after_print sys held laws _ _
                    (looked sys held laws (opened sys held laws h there))))
          ])
        ])
      ]
