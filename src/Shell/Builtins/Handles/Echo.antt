-- ===== src/Shell/Builtins/Handles/Echo.antt =====
-- echo gives back what it opens.
use yotos.Base.{
  ℕ, ◌≡◌, inl, inr, true, false, some, List, ◌∷◌, arith, ◌==◌, Bool-cases, Option-cases,
}
use yotos.Klibc.{strlen}
use yotos.Vfs.{vfs_file}
use yotos.Shell.{skip_spaces}
use yotos.Shell.Paths.{path_resolve, path_parent_and_name, is_empty}
use yotos.Shell.Builtins.{has, System}
use yotos.Shell.Builtins.Echo.{cmd_echo, echo_make, echo_open, echo_to, split_at_gt, strip_loop}
use yotos.Handles.{Handle, node, Held}
use yotos.Shell.Builtins.Handles.{
  Accounts, after_print, after_close, after_close_second, not_opened, looked, opened, not_created,
  created, after_use,
}

-- Once a file was looked for, it is open beside the list, or there is none.
record IsFound {S : Type 0} (held : S → Held) (r : ℕ × S) (l : List Handle) : Type 0 where
  pub absent : (r.0 == 0) ≡ true → held r.1 ≡ some l
  pub present : (r.0 == 0) ≡ false → held r.1 ≡ some (node r.0 ∷ l)

module _ {S : Type 0} (sys : System S) (held : S → Held) (laws : Accounts sys held) where
  -- What a search for a file leaves open: the file, if there is one.
  echo_make-held :
      {s : S} (filename resolved : List ℕ) (l : List Handle)
      → held s ≡ some l
      → IsFound held (echo_make sys filename resolved s) l
  unfolding echo_make
  echo_make-held {s = s} filename resolved l h =
      let (parent, base) = path_parent_and_name resolved 256 128 in
      let (dir, s1) = sys.vfs_open parent s in
      let (file, s2) = sys.vfs_create dir base vfs_file s1 in
      elim (Bool-cases (dir == 0)) [
        | inl null ↦ rw null (record {
          absent = λ _. after_print sys held laws _ _ (not_opened sys held laws h null);
          present = λ k. cc;
        })
        | inr there ↦ rw there (elim (Bool-cases (file == 0)) [
          | inl null ↦ rw null (record {
            absent = λ _. after_print sys held laws _ _ (
                after_close sys held laws
                  (not_created sys held laws (opened sys held laws h there) null));
            present = λ k. cc;
          })
          | inr made ↦ rw made (record {
            absent = λ k. absurd (ground (arith, k, made));
            present = λ _.
                after_close_second sys held laws
                  (created sys held laws (opened sys held laws h there) made);
          })
        ])
      ]

  echo_open-held :
      {s : S} (path filename : List ℕ) (l : List Handle)
      → held s ≡ some l
      → IsFound held (echo_open sys path filename s) l
  unfolding echo_open
  echo_open-held {s = s} path filename l h =
      let resolved = path_resolve path filename 256 in
      elim (Bool-cases ((sys.vfs_open resolved s).0 == 0)) [
        | inl null ↦ rw null (echo_make-held filename resolved l (not_opened sys held laws h null))
        | inr there ↦ rw there (record {
          absent = λ k. absurd (ground (arith, k, there));
          present = λ _. opened sys held laws h there;
        })
      ]

  echo_to-held :
      {s : S} (path content filename : List ℕ) (l : List Handle)
      → held s ≡ some l
      → held (echo_to sys path content filename s) ≡ some l
  unfolding echo_to
  echo_to-held {s = s} path content filename l h =
      let (file, s1) = echo_open sys path filename s in
      let found = echo_open-held path filename l h in
      let is_file = has vfs_file (sys.flags file s1).0 in
      elim (Bool-cases (is_empty filename)) [
        | inl e ↦ rw e (after_print sys held laws _ _ h)
        | inr e ↦ rw e (elim (Bool-cases (file == 0)) [
          | inl null ↦ rw null (found.absent null)
          | inr there ↦ rw there (elim (Bool-cases is_file) [
            | inl e ↦ rw e (
                after_close sys held laws (
                  after_use sys held laws (laws.writes _ _ _ _) (
                    after_use sys held laws (laws.writes _ _ _ _)
                      (looked sys held laws (found.present there)))))
            | inr e ↦ rw e (
                after_close sys held laws
                  (after_print sys held laws _ _ (looked sys held laws (found.present there))))
          ])
        ])
      ]

  pub cmd_echo-held :
      {s : S} (path arg : List ℕ) (l : List Handle)
      → held s ≡ some l
      → held (cmd_echo sys path arg s) ≡ some l
  unfolding cmd_echo
  cmd_echo-held {s = s} path arg l h = elim (Bool-cases (is_empty arg)) [
    | inl e ↦ rw e (after_print sys held laws _ _ h)
    | inr e ↦ rw e (elim (Option-cases (split_at_gt arg)) [
      | inl none_there ↦ rw none_there (after_print sys held laws _ _ h)
      | inr ((content, behind), split) ↦
          rw split
            (echo_to-held path (strip_loop (strlen content) content) (skip_spaces behind) l h)
    ])
  ]
