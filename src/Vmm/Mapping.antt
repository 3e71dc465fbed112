-- ===== src/Vmm/Mapping.antt =====
-- `vmm_map_page`, `vmm_alloc_page` and `vmm_unmap_page`: what they change of the address space.
use yotos.Base.{
  ℕ, ◌+◌, ◌*◌, ◌/◌, ◌%◌, ◌^◌, ◌<◌, ◌≡◌, refl, ap, ◌∙◌, ◌≢◌, inl, inr, Bool, true, false, ◌&&◌,
  Option, none, some, arith, ◌==◌, if◌then◌else◌, update, Bool-cases,
}
use yotos.Pmm.{Pmm, alloc_block, free_block}
use yotos.Pmm.Map.{frame_bit}
use yotos.Pmm.Alloc.{alloc_block-Allocated, free_block-frame_bit}
use yotos.Vmm.{
  Vmm, walk, load, store, map_page, alloc_page, unmap_page, pt_entry, pd_entry, pd_index, pt_index,
  page_entry, has_flag, entry_frame,
}
use yotos.Vmm.Entry.{has_flag-present, pt_index_lem, page_entry_lem, entry_frame_lem}
use yotos.Vmm.Window.{IsPaged, pde, walk-some, walk-pt_entry, load-pd_entry}
use yotos.Vmm.Steps.{entry-IsPaged}
use yotos.Vmm.Table.{reachable, ensure_table-Extends, alloc-IsPaged}

-- An entry of a table that is there, written through the window.
store-pt_entry :
    {s : Vmm}
    → IsPaged s
    → (i j e : ℕ) → i < 1023
    → j < 1024
    → pde s i % 2 ≡ 1
    → store (pt_entry i j) e s
      ≡ some (record s { memory = update s.memory (pde s i / 4096 * 1024 + j) e })
unfolding store
store-pt_entry {s} p i j e h k on =
    rw (store, walk-pt_entry p i j (omega arith) k on)
      (ap (λ (x : ℕ). some (record s { memory = update s.memory x e })) (omega arith))

-- Two addresses lie in one page exactly when their indices agree.
page_indices :
    (a virt : ℕ)
    → ((a / 2 ^ 22 == virt / 2 ^ 22) && (a / 4096 % 1024 == virt / 4096 % 1024))
      ≡ (a / 4096 == virt / 4096)
page_indices a virt = ground arith

-- `s1` is `s` with the entry `e` for the page of `virt`.
pub record Remapped (s : Vmm) (virt : ℕ) (to : ℕ → Option ℕ) (s1 : Vmm) : Type 0 where
  pub paged : IsPaged s1
  pub same_cr3 : s1.cr3 ≡ s.cr3
  pub walks :
      (a : ℕ)
      → a / 2 ^ 22 < 1023
      → walk s1.memory s1.cr3 a ≡ (if a / 4096 == virt / 4096 then to a else walk s.memory s.cr3 a)

write_entry :
    {s : Vmm}
    → IsPaged s
    → (virt e : ℕ) → pd_index virt < 1023
    → pde s (pd_index virt) % 2 ≡ 1
    → e < 2 ^ 32
    → (s1 : Vmm) × (store (pt_entry (pd_index virt) (pt_index virt)) e s ≡ some s1)
      × Remapped s virt (λ a. if e % 2 == 0 then none else some (e / 4096 * 4096 + a % 4096)) s1
      × (s1.pmm ≡ s.pmm)
write_entry {s} p virt e h on small =
    let i = pd_index virt in
    let j = virt / 4096 % 1024 in
    let (paged, walks) = entry-IsPaged p i j e h (omega arith) on small in
    (
      record s { memory = update s.memory (pde s i / 4096 * 1024 + j) e },
      rw (pt_index_lem virt) (store-pt_entry p i j e h (omega arith) on),
      record {
        paged = paged;
        same_cr3 = refl;
        walks = λ a low.
            walks a low
            ∙ ap
                (λ (b : Bool).
                  if b
                  then (if e % 2 == 0 then none else some (e / 4096 * 4096 + a % 4096))
                  else walk s.memory s.cr3 a)
                (page_indices a virt);
      },
      refl,
    )

-- Where the page tables are in order, mapping a page below the window ends without a fault and leaves
-- them in order. If the page has a table, or a frame is free for one, the page then translates to the
-- frame of `phys`, and every other page below the window as before; if not, nothing below the window
-- translates otherwise, though the function reports no error. It gives no frame back.
pub map_page-walk :
    (s : Vmm) (virt phys flags : ℕ)
    → IsPaged s
    → pd_index virt < 1023
    → phys < 2 ^ 32
    → flags < 4096
    → (s1 : Vmm) × (map_page virt phys flags s ≡ some s1)
      × IsPaged s1
      × (s1.cr3 ≡ s.cr3)
      × ((a : ℕ)
          → a / 2 ^ 22 < 1023
          → walk s1.memory s1.cr3 a ≡ (
              if reachable s (pd_index virt) && (a / 4096 == virt / 4096)
              then some (phys / 4096 * 4096 + a % 4096)
              else walk s.memory s.cr3 a))
      × ((m : ℕ) → frame_bit s.pmm.memory_map m ≡ 1 → frame_bit s1.pmm.memory_map m ≡ 1)
unfolding map_page
map_page-walk s virt phys flags p h small few =
    let (s1, e, x, ready) = ensure_table-Extends p (pd_index virt) flags h in
    let entry = page_entry_lem phys flags small few in
    elim (Bool-cases (reachable s (pd_index virt))) [
      | inr shut ↦ (
        s1,
        rw (map_page, e, shut) refl,
        x.paged,
        x.same_cr3,
        λ a low. x.walks a low ∙ ground (arith, shut),
        x.kept,
      )
      | inl ready_now ↦
          let (s2, st, r, same) =
            write_entry x.paged virt (page_entry phys flags) h (ready ready_now) entry.2 in
          (
            s2,
            rw (map_page, e, ready_now) st,
            r.paged,
            r.same_cr3 ∙ x.same_cr3,
            λ a low. r.walks a low ∙ ground (arith, ready_now, x.walks a low, entry),
            λ m used. ap (λ (q : Pmm). frame_bit q.memory_map m) same ∙ x.kept m used,
          )
    ]

unmap_page-store :
    (virt e t : ℕ) (s s1 : Vmm)
    → load (pd_entry (pd_index virt)) s ≡ some e
    → has_flag e 1 ≡ true
    → load (pt_entry (pd_index virt) (pt_index virt)) s ≡ some t
    → has_flag t 1 ≡ true
    → store (pt_entry (pd_index virt) (pt_index virt)) 0 s ≡ some s1
    → unmap_page virt s ≡ some (record s1 { pmm = free_block (entry_frame t) s1.pmm })
unfolding unmap_page
unmap_page-store virt e t s s1 l on l' on' st = rw (unmap_page, l, on, l', on', st) refl

load-pt_entry :
    {s : Vmm}
    → IsPaged s
    → (virt : ℕ) → pd_index virt < 1023
    → pde s (pd_index virt) % 2 ≡ 1
    → load (pt_entry (pd_index virt) (pt_index virt)) s
      ≡ some (s.memory (pde s (pd_index virt) / 4096 * 1024 + virt / 4096 % 1024))
unfolding load
load-pt_entry {s} p virt h on = rw (pt_index_lem virt) (
    rw (load, walk-pt_entry p (pd_index virt) (virt / 4096 % 1024) (omega arith) (omega arith) on)
      (ap (λ (x : ℕ). some (s.memory x)) (omega arith)))

-- Where the page tables are in order, unmapping a page below the window that translates to `q` ends
-- without a fault; the page then has no translation, every other page below the window keeps its
-- own, and the frame of `q` is given back to the physical memory manager, whoever uses it.
pub unmap_page-walk :
    (s : Vmm) (virt q : ℕ)
    → IsPaged s
    → pd_index virt < 1023
    → walk s.memory s.cr3 virt ≡ some q
    → (s1 : Vmm) × (unmap_page virt s ≡ some s1)
      × (s1.cr3 ≡ s.cr3)
      × ((a : ℕ)
          → a / 2 ^ 22 < 1023
          → walk s1.memory s1.cr3 a
            ≡ (if a / 4096 == virt / 4096 then none else walk s.memory s.cr3 a))
      × ((m : ℕ)
          → frame_bit s1.pmm.memory_map m
            ≡ (if m == q / 4096 then 0 else frame_bit s.pmm.memory_map m))
unmap_page-walk s virt q p h w =
    let i = pd_index virt in
    let j = virt / 4096 % 1024 in
    let t = s.memory (pde s i / 4096 * 1024 + j) in
    let (on, here, place) = walk-some s.memory s.cr3 virt q w in
    let (s1, st, r, same) = write_entry p virt 0 h on (omega arith) in
    let frame = entry_frame_lem t (p.words _) in
    (
      record s1 { pmm = free_block (entry_frame t) s1.pmm },
      unmap_page-store virt (pde s i) t s s1 (load-pd_entry p i (omega arith))
          (has_flag-present (pde s i) ∙ ground arith) (load-pt_entry p virt h on)
          (has_flag-present t ∙ ground arith) st,
      r.same_cr3,
      λ a low. r.walks a low ∙ ground arith,
      λ m.
          free_block-frame_bit (entry_frame t) m s1.pmm
          ∙ ground (arith, frame, place, ap (λ (x : Pmm). frame_bit x.memory_map m) same),
    )

-- Where the page tables are in order and a frame is free, allocating a page below the window ends
-- without a fault, returns the address it was given and leaves the page tables in order, with a frame
-- taken that was free. If the page then has a table, or a second frame is free for one, it translates
-- to the frame; if not, it translates as before, though the address is returned all the same. Every
-- other page below the window translates as before.
pub alloc_page-walk :
    (s : Vmm) (virt flags : ℕ)
    → IsPaged s
    → pd_index virt < 1023
    → flags < 4096
    → (alloc_block s.pmm).0 ≢ 0
    → (s1 : Vmm) × (f : ℕ) × (alloc_page virt flags s ≡ some (virt, s1))
      × IsPaged s1
      × (frame_bit s.pmm.memory_map f ≡ 0)
      × (frame_bit s1.pmm.memory_map f ≡ 1)
      × ((a : ℕ)
          → a / 2 ^ 22 < 1023
          → walk s1.memory s1.cr3 a ≡ (
              if reachable (record s { pmm = (alloc_block s.pmm).1 }) (pd_index virt)
                && (a / 4096 == virt / 4096)
              then some (f * 4096 + a % 4096)
              else walk s.memory s.cr3 a))
unfolding alloc_page
alloc_page-walk s virt flags p h few ok =
    let (f, a) = alloc_block-Allocated p.frames ok in
    let taken = record s { pmm = (alloc_block s.pmm).1 } in
    let frames = p.frames.frames in
    let (s1, e, paged, same, walks, kept) =
      map_page-walk taken virt (alloc_block s.pmm).0 flags (alloc-IsPaged p) h
        (omega (arith, a.address, a.inside, frames)) few in
    let not_null : ((alloc_block s.pmm).0 == 0) ≡ false = ground arith in
    let frame : (alloc_block s.pmm).0 / 4096 ≡ f = omega (arith, a.address) in
    (
      s1,
      f,
      rw (alloc_page, not_null, e) refl,
      paged,
      a.was_free,
      kept f (a.taken f ∙ ground arith),
      λ b low.
          walks b low
          ∙ ap
              (λ (x : ℕ).
                if reachable taken (pd_index virt) && (b / 4096 == virt / 4096)
                then some (x * 4096 + b % 4096)
                else walk s.memory s.cr3 b)
              frame,
    )
