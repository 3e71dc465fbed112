-- ===== src/Vmm/KernelPages.antt =====
-- `vmm_map_kernel`: the first page table and the identity mapping of the low 4 MiB.
use yotos.Base.{
  ℕ, zero, suc, ◌+◌, ◌-◌, ◌*◌, ◌/◌, ◌%◌, ◌^◌, ◌≤◌, ◌<◌, ◌≡◌, refl, sym, ap, ◌∙◌, ◌≢◌, true, false,
  ◌&&◌, arith, bit_or, ltb, leb, ◌==◌, if◌then◌else◌, update, bit_or-lt, for_loop, for_loop-suc,
}
use mathlib.Core.Path.{subst}
use native.Mathlib.Decide.{ℕ_discrete}
use yotos.Pmm.{Pmm, alloc_block}
use yotos.Vmm.{
  Vmm, early_identity_map, map_kernel_page, map_kernel, page_entry, has_flag, entry_frame, pt_index,
}
use yotos.Vmm.Entry.{
  has_flag-present, pt_index_lem, page_entry_lem, entry_frame_lem, bit_or-frame, bit_or-present,
}

-- `t | PAGE_PRESENT | PAGE_WRITABLE`
abbrev pub linked : ℕ → ℕ
linked t = bit_or (bit_or t 1) 2

pub linked_lem :
    (t : ℕ) → t < 2 ^ 32 → (linked t / 4096 ≡ t / 4096) × (linked t % 2 ≡ 1) × (linked t < 2 ^ 32)
linked_lem t h =
    let one = bit_or-lt 32 t 1 h (omega arith) in
    (
      bit_or-frame (bit_or t 1) 2 (omega arith) ∙ bit_or-frame t 1 (omega arith),
      omega (arith, bit_or-present (bit_or t 1) 2, bit_or-present t 1),
      bit_or-lt 32 (bit_or t 1) 2 one (omega arith),
    )

-- One page of the kernel, where entry 0 of the directory has a table.
map_kernel_page-old :
    (dir page e : ℕ) (s : Vmm)
    → dir % 4096 ≡ 0
    → page < 1024
    → s.memory (dir / 4096 * 1024) ≡ e
    → e % 2 ≡ 1
    → e < 2 ^ 32
    → map_kernel_page dir page s
      ≡ record s { memory = update s.memory (e / 4096 * 1024 + page) (page_entry (page * 4096) 3) }
unfolding map_kernel_page early_identity_map
map_kernel_page-old dir page e s al h here on small =
    let first : dir / 4 + page * 4096 / 2 ^ 22 ≡ dir / 4096 * 1024 = omega arith in
    let set : has_flag e 1 ≡ true = has_flag-present e ∙ ground arith in
    let frame : entry_frame e / 4 ≡ e / 4096 * 1024 = omega (arith, entry_frame_lem e small) in
    let index : pt_index (page * 4096) ≡ page = omega (arith, pt_index_lem (page * 4096)) in
    let flags : bit_or 1 2 ≡ 3 = refl in
    rw (map_kernel_page, early_identity_map, first, here, set, frame, index) refl

-- The table in frame `t` maps the pages from `first` on, `n` of them, to themselves; the rest of
-- memory is that of `s`.
abbrev Mapped : (t first n : ℕ) → Vmm → Vmm → Type 0
Mapped t first n s s' =
    (s' ≡ record s { memory = s'.memory })
    × ((w : ℕ)
        → s'.memory w ≡ (
            if leb (t * 1024 + first) w && ltb w (t * 1024 + first + n)
            then page_entry ((w - t * 1024) * 4096) 3
            else s.memory w))

kernel_pages :
    (n first dir e : ℕ) (s : Vmm)
    → dir % 4096 ≡ 0
    → first + n ≤ 1024
    → s.memory (dir / 4096 * 1024) ≡ e
    → e % 2 ≡ 1
    → e < 2 ^ 32
    → e / 4096 ≢ dir / 4096
    → Mapped (e / 4096) first n s (for_loop n first (map_kernel_page dir) s)
unfolding for_loop
kernel_pages zero first dir e s al room here on small apart = (refl, λ w. ground arith)
kernel_pages (suc n) first dir e s al room here on small apart =
    let entry = page_entry (first * 4096) 3 in
    let t = e / 4096 in
    let s1 = record s { memory = update s.memory (t * 1024 + first) entry } in
    let step : map_kernel_page dir first s ≡ s1 =
      map_kernel_page-old dir first e s al (omega arith) here on small in
    let here1 : s1.memory (dir / 4096 * 1024) ≡ e = ground arith in
    let ih = kernel_pages n (suc first) dir e s1 al (omega arith) here1 on small apart in
    subst (Mapped t first (suc n) s) (ap (for_loop n (suc first) (map_kernel_page dir)) (sym step))
      (ih.0, λ w. ih.1 w ∙ word w)
  where
    word :
        (w : ℕ)
        → (if leb (e / 4096 * 1024 + suc first) w && ltb w (e / 4096 * 1024 + suc first + n)
            then page_entry ((w - e / 4096 * 1024) * 4096) 3
            else update s.memory (e / 4096 * 1024 + first) (page_entry (first * 4096) 3) w)
          ≡ (if leb (e / 4096 * 1024 + first) w && ltb w (e / 4096 * 1024 + first + suc n)
              then page_entry ((w - e / 4096 * 1024) * 4096) 3
              else s.memory w)
    word w = elim (ℕ_discrete w (e / 4096 * 1024 + first)) [
      | yes same ↦
          let index : (w - e / 4096 * 1024) * 4096 ≡ first * 4096 = omega arith in
          ground (arith, ap (λ (x : ℕ). page_entry x 3) index)
      | no ne ↦ ground arith
    ]

-- The first page, for which there is no table yet.
map_kernel_page-new :
    (dir page t : ℕ) (pmm : Pmm) (s : Vmm)
    → dir % 4096 ≡ 0
    → page < 1024
    → s.memory (dir / 4096 * 1024) ≡ 0
    → alloc_block s.pmm ≡ (t, pmm)
    → (t == 0) ≡ false
    → t < 2 ^ 32
    → map_kernel_page dir page s ≡ record s {
      pmm = pmm;
      memory =
          update
            (update s.memory (dir / 4096 * 1024) (linked t))
            (t / 4096 * 1024 + page)
            (page_entry (page * 4096) 3);
    }
unfolding map_kernel_page early_identity_map
map_kernel_page-new dir page t pmm s al h here new ok small =
    let first : dir / 4 + page * 4096 / 2 ^ 22 ≡ dir / 4096 * 1024 = omega arith in
    let clear : has_flag 0 1 ≡ false = has_flag-present 0 in
    let e = linked_lem t small in
    let set : (dir / 4096 * 1024 == dir / 4096 * 1024) ≡ true = ground arith in
    let frame : entry_frame (linked t) / 4 ≡ t / 4096 * 1024 =
      omega (arith, entry_frame_lem (linked t) e.2, e.0) in
    let index : pt_index (page * 4096) ≡ page = omega (arith, pt_index_lem (page * 4096)) in
    let t_eq = ap (λ (r : ℕ × Pmm). r.0) new in
    let pmm_eq = ap (λ (r : ℕ × Pmm). r.1) new in
    rw
      (map_kernel_page, early_identity_map, first, here, clear, t_eq, pmm_eq, ok, set, frame, index)
      refl

-- The directory `d` and the table `t` that `vmm_init` leaves, in the memory `m`.
pub record FirstTables (d t : ℕ) (m : ℕ → ℕ) : Type 0 where
  pub table : m (d / 4096 * 1024) ≡ linked t
  pub last : m (d / 4096 * 1024 + 1023) ≡ linked d
  pub others : (k : ℕ) → 0 < k → k < 1023 → m (d / 4096 * 1024 + k) ≡ 0
  pub pages : (j : ℕ) → 0 < j → j < 1024 → m (t / 4096 * 1024 + j) ≡ page_entry (j * 4096) 3

pub map_kernel-FirstTables :
    (d t : ℕ) (pmm : Pmm) (s : Vmm)
    → d % 4096 ≡ 0
    → t % 4096 ≡ 0
    → d < 2 ^ 32
    → t < 2 ^ 32
    → t ≢ d
    → alloc_block s.pmm ≡ (t, pmm)
    → (t == 0) ≡ false
    → ((w : ℕ) → s.memory w < 2 ^ 32)
    → s.memory (d / 4096 * 1024 + 1023) ≡ linked d
    → ((k : ℕ) → k < 1023 → s.memory (d / 4096 * 1024 + k) ≡ 0)
    → let s' = map_kernel d s in
      (s' ≡ record s { pmm = pmm; memory = s'.memory })
      × FirstTables d t s'.memory
      × ((w : ℕ) → s'.memory w < 2 ^ 32)
unfolding map_kernel
map_kernel-FirstTables d t pmm s al al' small small' apart new ok words last zeros =
    let k = map_kernel_page d in
    let e = linked_lem t small' in
    let entry = page_entry (1 * 4096) 3 in
    let s1 = record s {
      pmm = pmm;
      memory = update (update s.memory (d / 4096 * 1024) (linked t)) (t / 4096 * 1024 + 1) entry;
    } in
    let zero_first : s.memory (d / 4096 * 1024) ≡ 0 =
      ap s.memory (omega arith) ∙ zeros 0 (omega arith) in
    let step : k 1 s ≡ s1 =
      map_kernel_page-new d 1 t pmm s al (omega arith) zero_first new ok small' in
    let frames : t / 4096 ≢ d / 4096 = omega arith in
    let table1 : s1.memory (d / 4096 * 1024) ≡ linked t = ground arith in
    let rest =
      subst (λ x. Mapped x 2 1022 s1 (for_loop 1022 2 k s1)) e.0
        (kernel_pages 1022 2 d (linked t) s1 al (omega arith) table1 e.1 e.2
          (omega (arith, e.0))) in
    let start = for_loop-suc k 1 s 1022 ∙ ap (for_loop 1022 2 k) step in
    let m = (for_loop 1022 2 k s1).memory in
    subst
      (λ (x : Vmm).
        (x ≡ record s { pmm = pmm; memory = x.memory })
        × FirstTables d t x.memory
        × ((w : ℕ) → x.memory w < 2 ^ 32))
      (sym start)
      (
        rest.0,
        record {
          table = rest.1 (d / 4096 * 1024) ∙ ground (arith, frames, table1);
          last = rest.1 (d / 4096 * 1024 + 1023) ∙ ground (arith, frames, last);
          others = λ i lo hi. rest.1 (d / 4096 * 1024 + i) ∙ ground (arith, frames, zeros i hi);
          pages = λ j lo hi.
              rest.1 (t / 4096 * 1024 + j)
              ∙ ground (arith, ap (λ (x : ℕ). page_entry x 3) (index j), first_page j);
        },
        λ w. ground (arith, rest.1 w, words w, bound (w - t / 4096 * 1024), bound 1, e.2),
      )
  where
    index : (j : ℕ) → (t / 4096 * 1024 + j - t / 4096 * 1024) * 4096 ≡ j * 4096
    index j = omega arith

    first_page : (j : ℕ) → j ≡ 1 → page_entry (j * 4096) 3 ≡ page_entry (1 * 4096) 3
    first_page j same = ap (λ (x : ℕ). page_entry (x * 4096) 3) same

    bound : (j : ℕ) → j < 1024 → page_entry (j * 4096) 3 < 2 ^ 32
    bound j lt = (page_entry_lem (j * 4096) 3 (omega arith) (omega arith)).2
