-- ===== src/Vmm/NewTable.antt =====
-- A new, empty table for an entry of the directory that had none, in a frame that was free: the page
-- tables stay in order, and every address below the window keeps its translation.
use yotos.Base.{
  ℕ, ◌+◌, ◌*◌, ◌/◌, ◌%◌, ◌^◌, ◌<◌, ◌≡◌, refl, sym, ap, ◌∙◌, ◌≢◌, ◌⊎◌, inl, inr, false, none, arith,
  ◌==◌, if◌then◌else◌, update,
}
use native.Mathlib.Decide.{ℕ_discrete}
use yotos.Pmm.{Pmm}
use yotos.Pmm.Map.{frame_bit}
use yotos.Pmm.Inv.{IsValid}
use yotos.Vmm.{Vmm, walk, zero_page}
use yotos.Vmm.Steps.{through, through-hit}
use yotos.Vmm.Window.{IsPaged, pde, walk-entries}

module _ {s : Vmm} (p : IsPaged s) (i f e : ℕ) (pmm : Pmm) (h : i < 1023) (off : pde s i % 2 ≡ 0)
    (small : e < 2 ^ 32) (frame : e / 4096 ≡ f) (on : e % 2 ≡ 1) (valid : IsValid pmm)
    (free : frame_bit s.pmm.memory_map f ≡ 0)
    (taken : (m : ℕ)
      → frame_bit pmm.memory_map m ≡ (if m == f then 1 else frame_bit s.pmm.memory_map m)) where
  abbrev with_table : Vmm
  with_table = record s {
    pmm = pmm;
    memory = zero_page (f * 4096) (update s.memory (s.cr3 / 4096 * 1024 + i) e);
  }

  -- A frame that is in use is another one.
  fresh : (m : ℕ) → frame_bit s.pmm.memory_map m ≡ 1 → m ≢ f
  fresh m used same = omega (arith, used, free, ap (frame_bit s.pmm.memory_map) same)

  entry : (k : ℕ) → k < 1024 → pde with_table k ≡ (if k == i then e else pde s k)
  entry k lt = ground (arith, fresh (s.cr3 / 4096) p.in_use)

  here : pde with_table i ≡ e
  here = ground (arith, entry i (omega arith))

  kept : (k : ℕ) → k < 1024 → k ≢ i → pde with_table k ≡ pde s k
  kept k lt ne = ground (arith, entry k lt)

  -- A table is the new one or one that was there.
  new_or_old :
      (k : ℕ)
      → k < 1023
      → pde with_table k % 2 ≡ 1
      → ((k ≡ i) × (pde with_table k / 4096 ≡ f))
        ⊎ ((k ≢ i) × (pde with_table k ≡ pde s k) × (pde s k % 2 ≡ 1))
  new_or_old k lt present = elim (ℕ_discrete k i) [
    | yes same ↦
        inl (
          same,
          ap (λ (x : ℕ). pde with_table x / 4096) same ∙ ap (λ (x : ℕ). x / 4096) here ∙ frame,
        )
    | no ne ↦
        let old = kept k (omega arith) ne in
        inr (ne, old, ap (λ (x : ℕ). x % 2) (sym old) ∙ present)
  ]

  with_table-IsPaged : IsPaged with_table
  with_table-IsPaged = record {
    frames = valid;
    aligned = p.aligned;
    words = λ w. ground (arith, p.words w);
    itself = ap (λ (x : ℕ). x / 4096) (kept 1023 (omega arith) (omega arith)) ∙ p.itself;
    present = ap (λ (x : ℕ). x % 2) (kept 1023 (omega arith) (omega arith)) ∙ p.present;
    in_use = taken (s.cr3 / 4096) ∙ ground (arith, p.in_use);
    tables_in_use = λ k lt there. elim (new_or_old k lt there) [
      | inl (_, e') ↦ rw e' (taken f ∙ ground arith)
      | inr (_, e', old) ↦ rw e' (taken (pde s k / 4096) ∙ ground (arith, p.tables_in_use k lt old))
    ];
    tables_apart = λ k lt there. elim (new_or_old k lt there) [
      | inl (_, e') ↦ rw e' (λ same. fresh (s.cr3 / 4096) p.in_use (sym same))
      | inr (_, e', old) ↦ rw e' (p.tables_apart k lt old)
    ];
    tables_differ = λ k l lt lt' ne there there'. elim (new_or_old k lt there) [
      | inl (k_i, ek) ↦ elim (new_or_old l lt' there') [
        | inl (l_i, el) ↦ absurd (omega arith)
        | inr (_, el, old) ↦
            rw (ek, el) (λ same. fresh (pde s l / 4096) (p.tables_in_use l lt' old) (sym same))
      ]
      | inr (_, ek, old) ↦ elim (new_or_old l lt' there') [
        | inl (l_i, el) ↦ rw (ek, el) (fresh (pde s k / 4096) (p.tables_in_use k lt old))
        | inr (_, el, old') ↦ rw (ek, el) (p.tables_differ k l lt lt' ne old old')
      ]
    ];
  }

  table_walks : (a : ℕ) → a / 2 ^ 22 < 1023 → walk with_table.memory s.cr3 a ≡ walk s.memory s.cr3 a
  table_walks a low =
      let x = a / 2 ^ 22 in
      let y = a / 4096 % 1024 in
      let m = with_table.memory in
      let before = walk-entries s.memory s.cr3 a x y (a % 4096) refl refl refl in
      let after = walk-entries m s.cr3 a x y (a % 4096) refl refl refl in
      let below = λ (q : ℕ). through q (m (q / 4096 * 1024 + y)) (a % 4096) in
      elim (ℕ_discrete x i) [
        | yes same ↦
            let empty : m (e / 4096 * 1024 + y) ≡ 0 = ground (arith, frame) in
            let gone : pde s x % 2 ≡ 0 = ap (λ (z : ℕ). pde s z % 2) same ∙ off in
            let none_after : below e ≡ none = ground (arith, empty) in
            let none_before : walk s.memory s.cr3 a ≡ none = before ∙ ground (arith, gone) in
            after ∙ ap below (ap (pde with_table) same ∙ here) ∙ none_after ∙ sym none_before
        | no ne ↦
            let old = pde s x / 4096 * 1024 + y in
            let word : pde s x % 2 ≡ 1 → m old ≡ s.memory old = λ there. ground (
              arith,
              fresh (pde s x / 4096) (p.tables_in_use x low there),
              p.tables_apart x low there,
            ) in
            after
            ∙ ap below (kept x (omega arith) ne)
            ∙ through-hit (pde s x) (s.memory old) (m old) 0 (a % 4096) false word
                (λ b. absurd (ground (arith, b)))
            ∙ sym before
      ]

  pub table-IsPaged :
      IsPaged with_table
      × (pde with_table i ≡ e)
      × ((a : ℕ) → a / 2 ^ 22 < 1023 → walk with_table.memory s.cr3 a ≡ walk s.memory s.cr3 a)
  table-IsPaged = (with_table-IsPaged, here, table_walks)
