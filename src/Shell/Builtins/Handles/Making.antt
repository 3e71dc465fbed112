-- ===== src/Shell/Builtins/Handles/Making.antt =====
-- touch, mkdir, cd and exec give back what they open.
use yotos.Base.{ℕ, ◌≡◌, ◌∙◌, inl, inr, ◌||◌, some, List, [], ◌∷◌, ◌==◌, Bool-cases}
use yotos.Vfs.{vfs_file, vfs_dir}
use yotos.Shell.{same_string}
use yotos.Shell.Paths.{path_resolve, path_parent_and_name, is_empty}
use yotos.Shell.Builtins.{has, System}
use yotos.Shell.Builtins.Make.{cmd_touch, cmd_mkdir, touch_in, mkdir_in}
use yotos.Shell.Builtins.Cd.{cmd_cd, enter}
use yotos.Shell.Builtins.Exec.{cmd_exec, exec_run}
use yotos.Handles.{Handle, node, process, Held, given_back-open}
use yotos.Shell.Builtins.Handles.{
  Accounts, after_print, after_close, not_opened, looked, opened, not_created, created, after_use,
  not_loaded, loaded,
}

module _ {S : Type 0} (sys : System S) (held : S → Held) (laws : Accounts sys held) where
  touch_in-held :
      {s : S} (dir : ℕ) (base : List ℕ) (l : List Handle)
      → held s ≡ some (node dir ∷ l)
      → held (touch_in sys dir base s) ≡ some l
  unfolding touch_in
  touch_in-held {s = s} dir base l h =
      elim (Bool-cases ((sys.vfs_create dir base vfs_file s).0 == 0)) [
        | inl null ↦
            rw (touch_in, null)
              (after_close sys held laws
                (after_print sys held laws _ _ (not_created sys held laws h null)))
        | inr made ↦
            rw (touch_in, made)
              (after_close sys held laws (after_close sys held laws (created sys held laws h made)))
      ]

  pub cmd_touch-held :
      {s : S} (path arg : List ℕ) (l : List Handle)
      → held s ≡ some l
      → held (cmd_touch sys path arg s) ≡ some l
  unfolding cmd_touch
  cmd_touch-held {s = s} path arg l h =
      let (parent, base) = path_parent_and_name (path_resolve path arg 256) 256 128 in
      let dir = (sys.vfs_open parent s).0 in
      let is_dir = has vfs_dir (sys.flags dir (sys.vfs_open parent s).1).0 in
      elim (Bool-cases (is_empty arg)) [
        | inl e ↦ rw e (after_print sys held laws _ _ h)
        | inr e ↦ rw e (elim (Bool-cases (is_empty base)) [
          | inl e ↦ rw e (after_print sys held laws _ _ h)
          | inr e ↦ rw e (elim (Bool-cases (dir == 0)) [
            | inl null ↦ rw null (after_print sys held laws _ _ (not_opened sys held laws h null))
            | inr there ↦ rw there (elim (Bool-cases is_dir) [
              | inl e ↦
                  rw e (touch_in-held _ _ l (looked sys held laws (opened sys held laws h there)))
              | inr e ↦ rw e (
                  after_close sys held laws (
                    after_print sys held laws _ _
                      (looked sys held laws (opened sys held laws h there))))
            ])
          ])
        ])
      ]

  mkdir_in-held :
      {s : S} (dir : ℕ) (base : List ℕ) (l : List Handle)
      → held s ≡ some (node dir ∷ l)
      → held (mkdir_in sys dir base s) ≡ some l
  unfolding mkdir_in
  mkdir_in-held {s = s} dir base l h =
      elim (Bool-cases ((sys.vfs_create dir base vfs_dir s).0 == 0)) [
        | inl null ↦
            rw (mkdir_in, null)
              (after_close sys held laws
                (after_print sys held laws _ _ (not_created sys held laws h null)))
        | inr made ↦
            rw (mkdir_in, made)
              (after_close sys held laws (after_close sys held laws (created sys held laws h made)))
      ]

  pub cmd_mkdir-held :
      {s : S} (path arg : List ℕ) (l : List Handle)
      → held s ≡ some l
      → held (cmd_mkdir sys path arg s) ≡ some l
  unfolding cmd_mkdir
  cmd_mkdir-held {s = s} path arg l h =
      let (parent, base) = path_parent_and_name (path_resolve path arg 256) 256 128 in
      let dir = (sys.vfs_open parent s).0 in
      let is_dir = has vfs_dir (sys.flags dir (sys.vfs_open parent s).1).0 in
      elim (Bool-cases (is_empty arg)) [
        | inl e ↦ rw e (after_print sys held laws _ _ h)
        | inr e ↦ rw e (elim (Bool-cases (is_empty base)) [
          | inl e ↦ rw e (after_print sys held laws _ _ h)
          | inr e ↦ rw e (elim (Bool-cases (dir == 0)) [
            | inl null ↦ rw null (after_print sys held laws _ _ (not_opened sys held laws h null))
            | inr there ↦ rw there (elim (Bool-cases is_dir) [
              | inl e ↦
                  rw e (mkdir_in-held _ _ l (looked sys held laws (opened sys held laws h there)))
              | inr e ↦ rw e (
                  after_close sys held laws (
                    after_print sys held laws _ _
                      (looked sys held laws (opened sys held laws h there))))
            ])
          ])
        ])
      ]

  enter-held :
      {s : S} (path arg : List ℕ) (l : List Handle)
      → held s ≡ some l
      → held (enter sys path arg s).1 ≡ some l
  unfolding enter
  enter-held {s = s} path arg l h =
      let resolved = path_resolve path arg 256 in
      let node = (sys.vfs_open resolved s).0 in
      let is_dir = has vfs_dir (sys.flags node (sys.vfs_open resolved s).1).0 in
      elim (Bool-cases (node == 0)) [
        | inl null ↦ rw null (after_print sys held laws _ _ (not_opened sys held laws h null))
        | inr there ↦ rw there (elim (Bool-cases is_dir) [
          | inl e ↦
              rw e (after_close sys held laws (looked sys held laws (opened sys held laws h there)))
          | inr e ↦ rw e (
              after_close sys held laws (
                after_print sys held laws _ _
                  (looked sys held laws (opened sys held laws h there))))
        ])
      ]

  pub cmd_cd-held :
      {s : S} (path arg : List ℕ) (l : List Handle)
      → held s ≡ some l
      → held (cmd_cd sys path arg s).1 ≡ some l
  unfolding cmd_cd
  cmd_cd-held path arg l h = elim (Bool-cases (is_empty arg || same_string arg (b'/' ∷ []))) [
    | inl e ↦ rw e h
    | inr e ↦ rw e (elim (Bool-cases (same_string arg (b'.' ∷ b'.' ∷ []))) [
      | inl e ↦ rw e h
      | inr e ↦ rw e (enter-held path arg l h)
    ])
  ]

  exec_run-held :
      {s : S} (path : List ℕ) (file : ℕ) (l : List Handle)
      → held s ≡ some (node file ∷ l)
      → held (exec_run sys path file s) ≡ some l
  unfolding exec_run
  exec_run-held {s = s} path file l h =
      let (proc, s1) = sys.process_create file s in
      let s3 = sys.keyboard_flush (sys.vfs_close file s1) in
      elim (Bool-cases (proc == 0)) [
        | inl null ↦ rw null (
            after_print sys held laws _ _
              (after_close sys held laws (not_loaded sys held laws h null)))
        | inr there ↦
            let run : held (sys.process_run proc s3) ≡ some (process proc ∷ l) =
              after_use sys held laws {a = process proc} {s = s3} (laws.runs proc s3)
                (laws.flushes _ ∙ loaded sys held laws h there) in
            rw there (
              laws.frees proc _
              ∙ given_back-open (process proc) l _ (
                  after_print sys held laws _ _ (
                    after_use sys held laws {a = process proc} (laws.exits proc _)
                      (laws.shows _ _ ∙ after_print sys held laws _ _ run))))
      ]

  pub cmd_exec-held :
      {s : S} (path arg : List ℕ) (l : List Handle)
      → held s ≡ some l
      → held (cmd_exec sys path arg s) ≡ some l
  unfolding cmd_exec
  cmd_exec-held {s = s} path arg l h =
      let resolved = path_resolve path arg 256 in
      let file = (sys.vfs_open resolved s).0 in
      let is_file = has vfs_file (sys.flags file (sys.vfs_open resolved s).1).0 in
      elim (Bool-cases (is_empty arg)) [
        | inl e ↦ rw e (after_print sys held laws _ _ h)
        | inr e ↦ rw e (elim (Bool-cases (file == 0)) [
          | inl null ↦ rw null (after_print sys held laws _ _ (not_opened sys held laws h null))
          | inr there ↦ rw there (elim (Bool-cases is_file) [
            | inl e ↦
                rw e (exec_run-held _ _ l (looked sys held laws (opened sys held laws h there)))
            | inr e ↦ rw e (
                after_close sys held laws (
                  after_print sys held laws _ _
                    (looked sys held laws (opened sys held laws h there))))
          ])
        ])
      ]
