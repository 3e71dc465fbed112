-- ===== src/Vmm/Boot.antt =====
-- `vmm_init`: the page directory it leaves, and what it translates.
use yotos.Base.{
  ℕ, ◌+◌, ◌*◌, ◌/◌, ◌%◌, ◌^◌, ◌≤◌, ◌<◌, ◌≡◌, refl, sym, ap, ◌∙◌, ◌≢◌, true, none, some, arith,
  update,
}
use native.Mathlib.Decide.{ℕ_discrete}
use yotos.Pmm.{Pmm, alloc_block}
use yotos.Pmm.Map.{frame_bit}
use yotos.Pmm.Inv.{IsValid}
use yotos.Pmm.Alloc.{alloc_block-Allocated, alloc_block-IsValid, alloc_block-kept}
use yotos.Vmm.{Vmm, walk, zero_page, vmm_init, page_entry}
use yotos.Vmm.Entry.{page_entry_lem}
use yotos.Vmm.KernelPages.{linked, linked_lem, FirstTables, map_kernel-FirstTables}
use yotos.Vmm.Window.{IsPaged, pde, walk-entries}

low_walk :
    (d t : ℕ) (m : ℕ → ℕ)
    → t < 2 ^ 32
    → FirstTables d t m
    → (a : ℕ) → 4096 ≤ a
    → a < 2 ^ 22
    → walk m d a ≡ some a
low_walk d t m small r a lo hi =
    let page = a / 4096 in
    let steps = walk-entries m d a 0 page (a % 4096) (omega arith) (omega arith) refl in
    let e = linked_lem t small in
    let table : m (d / 4096 * 1024 + 0) ≡ linked t = ap m (omega arith) ∙ r.table in
    let entry = page_entry_lem (page * 4096) 3 (omega arith) (omega arith) in
    let found : m (m (d / 4096 * 1024 + 0) / 4096 * 1024 + page) ≡ page_entry (page * 4096) 3 =
      ap (λ (x : ℕ). m (x / 4096 * 1024 + page)) table
      ∙ ap (λ (x : ℕ). m (x * 1024 + page)) e.0
      ∙ r.pages page (omega arith) (omega arith) in
    steps ∙ ground (arith, table, e, found, entry)

high_walk :
    (d t : ℕ) (m : ℕ → ℕ)
    → FirstTables d t m
    → (a : ℕ) → 2 ^ 22 ≤ a
    → a / 2 ^ 22 < 1023
    → walk m d a ≡ none
high_walk d t m r a lo hi =
    let i = a / 2 ^ 22 in
    let steps = walk-entries m d a i (a / 4096 % 1024) (a % 4096) refl refl refl in
    steps ∙ ground (arith, r.others i (omega arith) hi)

-- From a valid physical memory manager with two free frames, `vmm_init` leaves page tables that are in
-- order, switches paging on and maps the addresses from 4 KiB to 4 MiB to themselves; no other
-- address from 4 MiB up to the window has a translation.
pub vmm_init-IsPaged :
    (s : Vmm)
    → IsValid s.pmm
    → ((w : ℕ) → s.memory w < 2 ^ 32)
    → (alloc_block s.pmm).0 ≢ 0
    → (alloc_block (alloc_block s.pmm).1).0 ≢ 0
    → let s' = vmm_init s in
      IsPaged s'
      × (s'.paging ≡ true)
      × ((a : ℕ) → 4096 ≤ a → a < 2 ^ 22 → walk s'.memory s'.cr3 a ≡ some a)
      × ((a : ℕ) → 2 ^ 22 ≤ a → a / 2 ^ 22 < 1023 → walk s'.memory s'.cr3 a ≡ none)
unfolding vmm_init
vmm_init-IsPaged s valid words ok ok2 =
    let d = (alloc_block s.pmm).0 in
    let pmm1 = (alloc_block s.pmm).1 in
    let t = (alloc_block pmm1).0 in
    let valid1 = alloc_block-IsValid valid in
    let (f, a) = alloc_block-Allocated valid ok in
    let (g, b) = alloc_block-Allocated valid1 ok2 in
    let frames = valid.frames in
    let used : frame_bit pmm1.memory_map f ≡ 1 = a.taken f ∙ ground arith in
    let apart : g ≢ f =
      λ same. omega (arith, b.was_free, used, ap (frame_bit pmm1.memory_map) same) in
    let m0 = update (zero_page d s.memory) (d / 4 + 1023) (linked d) in
    let s0 : Vmm = record s { pmm = pmm1; kernel_directory = d; memory = m0 } in
    let d_lt : d < 2 ^ 32 = omega (arith, a.address, a.inside, frames) in
    let t_lt : t < 2 ^ 32 = omega (arith, b.address, b.inside, valid1.frames) in
    let (only, tables, words') =
      map_kernel-FirstTables d t (alloc_block pmm1).1 s0 (omega (arith, a.address))
        (omega (arith, b.address)) d_lt t_lt (omega (arith, a.address, b.address)) refl
        (ground arith) (λ w. ground (arith, words w, linked_lem d d_lt)) (ground (arith, a.address))
        (λ k lt. ground (arith, a.address)) in
    let pmm2 = (alloc_block pmm1).1 in
    let s' = vmm_init s in
    let m = s'.memory in
    let pmm_eq : s'.pmm ≡ pmm2 = ap (λ (x : Vmm). x.pmm) only in
    let e = linked_lem d d_lt in
    let e' = linked_lem t t_lt in
    let first : pde s' 0 ≡ linked t = ap m (omega arith) ∙ tables.table in
    let zero_only : (i : ℕ) → i < 1023 → pde s' i % 2 ≡ 1 → i ≡ 0 = λ i lt on.
      elim (ℕ_discrete i 0) [
        | yes same ↦ same
        | no ne ↦
            absurd (omega (arith, on, ap (λ (x : ℕ). x % 2) (tables.others i (omega arith) lt)))
      ] in
    let frame : (i : ℕ) → i < 1023 → pde s' i % 2 ≡ 1 → pde s' i / 4096 ≡ g = λ i lt on.
      ap (λ (x : ℕ). pde s' x / 4096) (zero_only i lt on)
      ∙ ap (λ (x : ℕ). x / 4096) first
      ∙ omega (arith, e', b.address) in
    let g_used : frame_bit s'.pmm.memory_map g ≡ 1 =
      ap (λ (x : Pmm). frame_bit x.memory_map g) pmm_eq ∙ b.taken g ∙ ground arith in
    let paged : IsPaged s' = record {
      frames = rw pmm_eq (alloc_block-IsValid valid1);
      aligned = omega (arith, a.address);
      words = words';
      itself = ap (λ (x : ℕ). x / 4096) tables.last ∙ e.0;
      present = ap (λ (x : ℕ). x % 2) tables.last ∙ e.1;
      in_use =
          ap (λ (x : Pmm). frame_bit x.memory_map (d / 4096)) pmm_eq
          ∙ alloc_block-kept valid1 (d / 4096)
              (ap (frame_bit pmm1.memory_map) (omega (arith, a.address)) ∙ used);
      tables_in_use = λ i lt on. ap (frame_bit s'.pmm.memory_map) (frame i lt on) ∙ g_used;
      tables_apart = λ i lt on same. omega (arith, frame i lt on, same, apart, a.address);
      tables_differ =
          λ i j lt lt' ne on on'. absurd (ne (zero_only i lt on ∙ sym (zero_only j lt' on')));
    } in
    (paged, refl, low_walk d t m t_lt tables, high_walk d t m tables)
