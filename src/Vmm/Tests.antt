-- ===== src/Vmm/Tests.antt =====
-- The page tables that `vmm_init` makes on a small machine, and a directory without a table.
use yotos.Base.{
  ℕ, ◌+◌, ◌*◌, ◌/◌, ◌%◌, ◌^◌, ◌≤◌, ◌<◌, ◌≡◌, refl, ◌∙◌, ◌≢◌, true, false, ◌&&◌, none, some, arith,
  ◌==◌, if◌then◌else◌,
}
use yotos.Pmm.{alloc_block}
use yotos.Pmm.Map.{frame_bit}
use yotos.Pmm.Alloc.{alloc_block-IsValid, alloc_block-Allocated}
use yotos.Pmm.Tests.{booted, booted-IsValid, booted_run, booted_again}
use yotos.Vmm.{Vmm, walk, map_page, alloc_page, unmap_page, vmm_init}
use yotos.Vmm.Window.{IsPaged, pde}
use yotos.Vmm.Table.{reachable}
use yotos.Vmm.Mapping.{map_page-walk, unmap_page-walk, alloc_page-walk}
use yotos.Vmm.Boot.{vmm_init-IsPaged}

abbrev machine : Vmm
machine = record { memory = λ _. 0; pmm = booted; cr3 = 0; paging = false; kernel_directory = 0 }

one_frame : (alloc_block booted).0 ≢ 0
one_frame e = absurd (omega (arith, e, booted_run))

two_frames : (alloc_block (alloc_block booted).1).0 ≢ 0
two_frames e = absurd (omega (arith, e, booted_again))

vmm_init-IsPaged_example :
    IsPaged (vmm_init machine)
    × ((vmm_init machine).paging ≡ true)
    × ((a : ℕ)
        → 4096 ≤ a
        → a < 2 ^ 22
        → walk (vmm_init machine).memory (vmm_init machine).cr3 a ≡ some a)
    × ((a : ℕ)
        → 2 ^ 22 ≤ a
        → a / 2 ^ 22 < 1023
        → walk (vmm_init machine).memory (vmm_init machine).cr3 a ≡ none)
vmm_init-IsPaged_example =
    vmm_init-IsPaged machine booted-IsValid (λ w. omega arith) one_frame two_frames

machine-IsPaged : IsPaged (vmm_init machine)
machine-IsPaged =
    (vmm_init-IsPaged machine booted-IsValid (λ w. omega arith) one_frame two_frames).0

map_page-walk_example :
    let s = vmm_init machine in
    (s1 : Vmm) × (map_page 0x40000000 0x12000 7 s ≡ some s1)
    × IsPaged s1
    × (s1.cr3 ≡ s.cr3)
    × ((a : ℕ)
        → a / 2 ^ 22 < 1023
        → walk s1.memory s1.cr3 a ≡ (
            if reachable s 256 && (a / 4096 == 0x40000)
            then some (0x12000 + a % 4096)
            else walk s.memory s.cr3 a))
    × ((m : ℕ) → frame_bit s.pmm.memory_map m ≡ 1 → frame_bit s1.pmm.memory_map m ≡ 1)
map_page-walk_example =
    map_page-walk (vmm_init machine) 0x40000000 0x12000 7 machine-IsPaged (omega arith)
      (omega arith) (omega arith)

unmap_page-walk_example :
    let s = vmm_init machine in
    (s1 : Vmm) × (unmap_page 0x5000 s ≡ some s1)
    × (s1.cr3 ≡ s.cr3)
    × ((a : ℕ)
        → a / 2 ^ 22 < 1023
        → walk s1.memory s1.cr3 a ≡ (if a / 4096 == 5 then none else walk s.memory s.cr3 a))
    × ((m : ℕ)
        → frame_bit s1.pmm.memory_map m ≡ (if m == 5 then 0 else frame_bit s.pmm.memory_map m))
unmap_page-walk_example =
    unmap_page-walk (vmm_init machine) 0x5000 0x5000 machine-IsPaged (omega arith) (
      (vmm_init-IsPaged machine booted-IsValid (λ w. omega arith) one_frame two_frames).2 0x5000
        (omega arith) (omega arith))

-- A directory in the first free frame, with its last entry alone.
abbrev bare : Vmm
bare = record {
  memory = λ w. if w == 17407 then 0x10003 else 0;
  pmm = (alloc_block booted).1;
  cr3 = 0x10000;
  paging = true;
  kernel_directory = 0x10000;
}

bare-IsPaged : IsPaged bare
bare-IsPaged = record {
  frames = alloc_block-IsValid booted-IsValid;
  aligned = refl;
  words = λ w. ground arith;
  itself = refl;
  present = refl;
  in_use =
      let (f, a) = alloc_block-Allocated booted-IsValid one_frame in
      let frame : f ≡ 16 = omega (arith, a.address, booted_run) in
      a.taken 16 ∙ ground (arith, frame);
  tables_in_use = λ i h on. absurd (empty i h on);
  tables_apart = λ i h on. absurd (empty i h on);
  tables_differ = λ i j h k ne on on'. absurd (empty i h on);
}
  where
    empty : (i : ℕ) → i < 1023 → pde bare i % 2 ≡ 1 → ⊥
    empty i h on = ground arith

alloc_page-walk_example :
    (s1 : Vmm) × (f : ℕ) × (alloc_page 0x40000000 7 bare ≡ some (0x40000000, s1))
    × IsPaged s1
    × (frame_bit bare.pmm.memory_map f ≡ 0)
    × (frame_bit s1.pmm.memory_map f ≡ 1)
    × ((a : ℕ)
        → a / 2 ^ 22 < 1023
        → walk s1.memory s1.cr3 a ≡ (
            if reachable (record bare { pmm = (alloc_block bare.pmm).1 }) 256
              && (a / 4096 == 0x40000)
            then some (f * 4096 + a % 4096)
            else walk bare.memory bare.cr3 a))
alloc_page-walk_example =
    alloc_page-walk bare 0x40000000 7 bare-IsPaged (omega arith) (omega arith) two_frames
