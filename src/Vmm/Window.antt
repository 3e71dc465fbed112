-- ===== src/Vmm/Window.antt =====
-- The recursive slot: where the last entry of the directory points to the directory itself, the top
-- 4 MiB of the address space show the tables, and the top page the directory.
use yotos.Base.{
  ℕ, ◌+◌, ◌*◌, ◌/◌, ◌%◌, ◌^◌, ◌<◌, ◌≡◌, refl, ap, ◌∙◌, ◌≢◌, none, some, arith, ◌==◌, if◌then◌else◌,
}
use yotos.Pmm.Map.{frame_bit}
use yotos.Pmm.Inv.{IsValid}
use yotos.Vmm.{Vmm, walk, load, pd_entry, pt_entry}

-- Entry `i` of the active directory.
abbrev pub pde : Vmm → ℕ → ℕ
pde s i = s.memory (s.cr3 / 4096 * 1024 + i)

-- The active directory is a whole frame and shows itself in its last entry. Its frame and those of
-- the tables are in use in the physical memory manager, and are all different.
pub record IsPaged (s : Vmm) : Type 0 where
  pub frames : IsValid s.pmm
  pub aligned : s.cr3 % 4096 ≡ 0
  pub words : (w : ℕ) → s.memory w < 2 ^ 32
  pub itself : pde s 1023 / 4096 ≡ s.cr3 / 4096
  pub present : pde s 1023 % 2 ≡ 1
  pub in_use : frame_bit s.pmm.memory_map (s.cr3 / 4096) ≡ 1
  pub tables_in_use :
      (i : ℕ) → i < 1023 → pde s i % 2 ≡ 1 → frame_bit s.pmm.memory_map (pde s i / 4096) ≡ 1
  pub tables_apart : (i : ℕ) → i < 1023 → pde s i % 2 ≡ 1 → pde s i / 4096 ≢ s.cr3 / 4096
  pub tables_differ :
      (i j : ℕ)
      → i < 1023
      → j < 1023
      → i ≢ j
      → pde s i % 2 ≡ 1
      → pde s j % 2 ≡ 1
      → pde s i / 4096 ≢ pde s j / 4096

-- A walk whose two entries are known.
pub walk-entries :
    (memory : ℕ → ℕ) (dir virt i j off : ℕ)
    → virt / 2 ^ 22 ≡ i
    → virt / 4096 % 1024 ≡ j
    → virt % 4096 ≡ off
    → let e = memory (dir / 4096 * 1024 + i) in
      let t = memory (e / 4096 * 1024 + j) in
      walk memory dir virt
      ≡ (if e % 2 == 0 then none else if t % 2 == 0 then none else some (t / 4096 * 4096 + off))
unfolding walk
walk-entries memory dir virt i j off a b c = rw (a, b, c) refl

-- What an address that has a translation says of the two entries.
pub walk-some :
    (memory : ℕ → ℕ) (dir virt q : ℕ)
    → walk memory dir virt ≡ some q
    → let e = memory (dir / 4096 * 1024 + virt / 2 ^ 22) in
      let t = memory (e / 4096 * 1024 + virt / 4096 % 1024) in
      (e % 2 ≡ 1) × (t % 2 ≡ 1) × (q ≡ t / 4096 * 4096 + virt % 4096)
unfolding walk
walk-some memory dir virt q w =
    let e = memory (dir / 4096 * 1024 + virt / 2 ^ 22) in
    let t = memory (e / 4096 * 1024 + virt / 4096 % 1024) in ground (arith, w)

module _ {s : Vmm} (p : IsPaged s) where
  -- The top page shows the directory.
  pub walk-pd_entry : (i : ℕ) → i < 1024 → walk s.memory s.cr3 (pd_entry i) ≡ some (s.cr3 + 4 * i)
  walk-pd_entry i h =
      let steps =
        walk-entries s.memory s.cr3 (pd_entry i) 1023 1023 (4 * i) (omega arith) (omega arith)
          (omega arith) in
      let again : s.memory (pde s 1023 / 4096 * 1024 + 1023) ≡ pde s 1023 =
        ap (λ (x : ℕ). s.memory (x * 1024 + 1023)) p.itself in
      steps ∙ ground (arith, again, p.present, p.itself, p.aligned)

  -- The page before it, for each entry of the directory, shows the entry's table.
  pub walk-pt_entry :
      (i j : ℕ)
      → i < 1024
      → j < 1024
      → pde s i % 2 ≡ 1
      → walk s.memory s.cr3 (pt_entry i j) ≡ some (pde s i / 4096 * 4096 + 4 * j)
  walk-pt_entry i j h k on =
      let steps =
        walk-entries s.memory s.cr3 (pt_entry i j) 1023 i (4 * j) (omega arith) (omega arith)
          (omega arith) in
      let again : s.memory (pde s 1023 / 4096 * 1024 + i) ≡ pde s i =
        ap (λ (x : ℕ). s.memory (x * 1024 + i)) p.itself in
      steps ∙ ground (arith, again, p.present)

  pub load-pd_entry : (i : ℕ) → i < 1024 → load (pd_entry i) s ≡ some (pde s i)
  unfolding load
  load-pd_entry i h =
      rw (load, walk-pd_entry i h) (ap (λ (x : ℕ). some (s.memory x)) (omega (arith, p.aligned)))
