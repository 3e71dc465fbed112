-- ===== src/Vmm/Table.antt =====
-- The first part of `vmm_map_page`: after it there is a table, or memory is short.
use yotos.Base.{
  ℕ, ◌+◌, ◌*◌, ◌/◌, ◌%◌, ◌^◌, ◌<◌, ◌≡◌, refl, ap, ◌∙◌, ◌≢◌, inl, inr, Bool, true, false, not, ◌||◌,
  some, arith, bit_and, bit_or, ◌==◌, update, bit_or-lt, Bool-cases,
}
use yotos.Pmm.{Pmm, alloc_block}
use yotos.Pmm.Map.{frame_bit}
use yotos.Pmm.Inv.{IsValid}
use yotos.Pmm.Alloc.{alloc_block-Allocated, alloc_block-IsValid, alloc_block-kept}
use yotos.Vmm.{
  Vmm, walk, load, store, clear_page, zero_page, ensure_table, pd_entry, has_flag, page_user,
}
use yotos.Vmm.Entry.{has_flag-present, table_entry_lem, bit_or-frame, bit_or-present}
use yotos.Vmm.Window.{IsPaged, pde, walk-entries, walk-pd_entry, load-pd_entry}
use yotos.Vmm.NewTable.{table-IsPaged}
use yotos.Vmm.Steps.{flags-IsPaged}

-- The state `s1` translates the addresses below the window as `s` does and takes no frame back.
pub record Extends (s s1 : Vmm) : Type 0 where
  pub paged : IsPaged s1
  pub same_cr3 : s1.cr3 ≡ s.cr3
  pub walks : (a : ℕ) → a / 2 ^ 22 < 1023 → walk s1.memory s1.cr3 a ≡ walk s.memory s.cr3 a
  pub kept : (m : ℕ) → frame_bit s.pmm.memory_map m ≡ 1 → frame_bit s1.pmm.memory_map m ≡ 1

ensure_table-new :
    (i flags t : ℕ) (pmm : Pmm) (s s2 s3 : Vmm) (e : ℕ)
    → load (pd_entry i) s ≡ some e
    → has_flag e 1 ≡ false
    → alloc_block s.pmm ≡ (t, pmm)
    → (t == 0) ≡ false
    → store (pd_entry i) (bit_or (bit_or (bit_or t 1) 2) (bit_and flags 4)) (record s { pmm = pmm })
      ≡ some s2
    → clear_page (0xFFC00000 + i * 4096) s2 ≡ some s3
    → ensure_table i flags s ≡ some (true, s3)
unfolding ensure_table
ensure_table-new i flags t pmm s s2 s3 e l off al ok st cl =
    let t_eq = ap (λ (r : ℕ × Pmm). r.0) al in
    let pmm_eq = ap (λ (r : ℕ × Pmm). r.1) al in
    rw (ensure_table, l, off, t_eq, pmm_eq, ok, st, cl) refl

-- One entry and its physical address.
store-pd_entry :
    (i e : ℕ) (s : Vmm)
    → i < 1024
    → s.cr3 % 4096 ≡ 0
    → walk s.memory s.cr3 (pd_entry i) ≡ some (s.cr3 + 4 * i)
    → store (pd_entry i) e s
      ≡ some (record s { memory = update s.memory (s.cr3 / 4096 * 1024 + i) e })
unfolding store
store-pd_entry i e s h al w =
    rw (store, w)
      (ap (λ (x : ℕ). some (record s { memory = update s.memory x e })) (omega (arith, al)))

module _ {s : Vmm} (p : IsPaged s) (i flags : ℕ) (h : i < 1023) where
  -- The window shows the new table as soon as the entry of the directory is written.
  clear_new :
      (f e : ℕ) (pmm : Pmm)
      → e / 4096 ≡ f
      → e % 2 ≡ 1
      → let s2 = record s { pmm = pmm; memory = update s.memory (s.cr3 / 4096 * 1024 + i) e } in
        clear_page (0xFFC00000 + i * 4096) s2
        ≡ some (record s2 { memory = zero_page (f * 4096) s2.memory })
  unfolding clear_page
  clear_new f e pmm frame on =
      let m = update s.memory (s.cr3 / 4096 * 1024 + i) e in
      let s2 = record s { pmm = pmm; memory = m } in
      let steps =
        walk-entries m s.cr3 (0xFFC00000 + i * 4096) 1023 i 0 (omega arith) (omega arith)
          (omega arith) in
      let last : m (s.cr3 / 4096 * 1024 + 1023) ≡ pde s 1023 = ground arith in
      let again : m (m (s.cr3 / 4096 * 1024 + 1023) / 4096 * 1024 + i) ≡ e =
        ap (λ (x : ℕ). m (x / 4096 * 1024 + i)) last
        ∙ ap (λ (x : ℕ). m (x * 1024 + i)) p.itself
        ∙ ground arith in
      let reached : walk m s.cr3 (0xFFC00000 + i * 4096) ≡ some (f * 4096) =
        steps ∙ ground (arith, last, again, p.present) in
      rw (clear_page, reached) refl

  -- An entry without a table, and a frame for it.
  new_table :
      pde s i % 2 ≡ 0
      → (alloc_block s.pmm).0 ≢ 0
      → (s1 : Vmm) × (ensure_table i flags s ≡ some (true, s1)) × Extends s s1 × (pde s1 i % 2 ≡ 1)
  new_table off ok =
      let t = (alloc_block s.pmm).0 in
      let pmm = (alloc_block s.pmm).1 in
      let (f, a) = alloc_block-Allocated p.frames ok in
      let e = bit_or (bit_or (bit_or t 1) 2) (bit_and flags 4) in
      let frames = p.frames.frames in
      let entry = table_entry_lem t flags (omega (arith, a.address, a.inside, frames)) in
      let s1 = record s { pmm = pmm } in
      let stored =
        store-pd_entry i e s1 (omega arith) p.aligned (walk-pd_entry p i (omega arith)) in
      let s2 = record s1 { memory = update s.memory (s.cr3 / 4096 * 1024 + i) e } in
      let (paged, here, walks) =
        table-IsPaged p i f e pmm h off entry.2 (omega (arith, entry.0, a.address)) entry.1
          (alloc_block-IsValid p.frames) a.was_free a.taken in
      (
        record s2 { memory = zero_page (f * 4096) s2.memory },
        ensure_table-new i flags t pmm s s2 _ (pde s i) (load-pd_entry p i (omega arith))
            (has_flag-present (pde s i) ∙ ground arith) refl (ground arith) stored
            (clear_new f e pmm (omega (arith, entry.0, a.address)) entry.1),
        record {
          paged = paged;
          same_cr3 = refl;
          walks = walks;
          kept = λ m used. a.taken m ∙ ground (arith, used);
        },
        ap (λ (x : ℕ). x % 2) here ∙ entry.1,
      )

  -- An entry without a table, and no frame.
  no_table :
      pde s i % 2 ≡ 0
      → (alloc_block s.pmm).0 ≡ 0
      → ensure_table i flags s ≡ some (false, record s { pmm = (alloc_block s.pmm).1 })
  unfolding ensure_table
  no_table off null =
      let clear : has_flag (pde s i) 1 ≡ false = has_flag-present (pde s i) ∙ ground arith in
      rw (ensure_table, load-pd_entry p i (omega arith), clear, null) refl

  -- A table that is there.
  old_table :
      pde s i % 2 ≡ 1
      → (s1 : Vmm) × (ensure_table i flags s ≡ some (true, s1)) × Extends s s1 × (pde s1 i % 2 ≡ 1)
  unfolding ensure_table
  old_table on =
      let set : has_flag (pde s i) 1 ≡ true = has_flag-present (pde s i) ∙ ground arith in
      let l = load-pd_entry p i (omega arith) in
      let e = bit_or (pde s i) 4 in
      let frame = bit_or-frame (pde s i) 4 (omega arith) in
      let flag : e % 2 ≡ pde s i % 2 = omega (arith, bit_or-present (pde s i) 4) in
      let small = bit_or-lt 32 (pde s i) 4 (p.words _) (omega arith) in
      let (paged, walks) = flags-IsPaged p i e h small frame flag in
      let stored = store-pd_entry i e s (omega arith) p.aligned (walk-pd_entry p i (omega arith)) in
      let here : update s.memory (s.cr3 / 4096 * 1024 + i) e (s.cr3 / 4096 * 1024 + i) ≡ e =
        ground arith in
      elim (Bool-cases (has_flag flags page_user)) [
        | inl user ↦ (
          record s { memory = update s.memory (s.cr3 / 4096 * 1024 + i) e },
          rw (ensure_table, l, set, user, stored) refl,
          record {
            paged = paged;
            same_cr3 = refl;
            walks = λ a low. walks a;
            kept = λ m used. used;
          },
          ap (λ (x : ℕ). x % 2) here ∙ flag ∙ on,
        )
        | inr plain ↦ (
          s,
          rw (ensure_table, l, set, plain) refl,
          record { paged = p; same_cr3 = refl; walks = λ a low. refl; kept = λ m used. used },
          on,
        )
      ]

-- A state of the physical memory manager that has given no frame back.
pub pmm-IsPaged :
    (s : Vmm) (pmm : Pmm)
    → IsPaged s
    → IsValid pmm
    → ((m : ℕ) → frame_bit s.pmm.memory_map m ≡ 1 → frame_bit pmm.memory_map m ≡ 1)
    → IsPaged (record s { pmm = pmm })
pmm-IsPaged s pmm p valid kept = record {
  frames = valid;
  aligned = p.aligned;
  words = p.words;
  itself = p.itself;
  present = p.present;
  in_use = kept _ p.in_use;
  tables_in_use = λ i h on. kept _ (p.tables_in_use i h on);
  tables_apart = p.tables_apart;
  tables_differ = p.tables_differ;
}

pub alloc-IsPaged : {s : Vmm} → IsPaged s → IsPaged (record s { pmm = (alloc_block s.pmm).1 })
alloc-IsPaged {s} p =
    pmm-IsPaged s (alloc_block s.pmm).1 p (alloc_block-IsValid p.frames) (alloc_block-kept p.frames)

-- Whether a table is there or can be had.
abbrev pub reachable : Vmm → ℕ → Bool
reachable s i = (pde s i % 2 == 1) || not ((alloc_block s.pmm).0 == 0)

pub ensure_table-Extends :
    {s : Vmm}
    → IsPaged s
    → (i flags : ℕ) → i < 1023
    → (s1 : Vmm) × (ensure_table i flags s ≡ some (reachable s i, s1))
      × Extends s s1
      × (reachable s i ≡ true → pde s1 i % 2 ≡ 1)
ensure_table-Extends {s} p i flags h = elim (Bool-cases (pde s i % 2 == 1)) [
  | inl on ↦
      let (s1, e, x, here) = old_table p i flags h (ground arith) in
      let yes_it : reachable s i ≡ true = ground (arith, on) in (s1, rw yes_it e, x, λ _. here)
  | inr off ↦ elim (Bool-cases ((alloc_block s.pmm).0 == 0)) [
    | inl null ↦
        let no_it : reachable s i ≡ false = ground (arith, off, null) in
        (
          record s { pmm = (alloc_block s.pmm).1 },
          rw no_it (no_table p i flags h (ground arith) (ground arith)),
          record {
            paged = alloc-IsPaged p;
            same_cr3 = refl;
            walks = λ a low. refl;
            kept = alloc_block-kept p.frames;
          },
          λ b. absurd (ground (arith, b, no_it)),
        )
    | inr room ↦
        let (s1, e, x, here) = new_table p i flags h (ground arith) (ground arith) in
        let yes_it : reachable s i ≡ true = ground (arith, room) in (s1, rw yes_it e, x, λ _. here)
  ]
]
