-- ===== src/Kheap.antt =====
-- kernel/kheap.c: the kernel heap, a doubly linked list of block headers that lie in the heap
-- itself, each in front of the bytes that it describes. The store holds a header at each address
-- where one was written; the bytes of the blocks are their owners' and are not part of it.
pub mod Blocks
pub mod Chain
pub mod Malloc
pub mod Free
pub mod Coalesce
pub mod Live
pub mod Safety
pub mod Scratch
pub mod Calloc
pub mod Tests
use yotos.Base.{
  ℕ, zero, suc, ◌+◌, ◌-◌, ◌*◌, ◌/◌, ◌%◌, ◌^◌, Bool, true, false, not, ◌&&◌, Option, none, some, leb,
  ◌==◌, if◌then◌else◌, update, u32, sub32,
}

abbrev pub kheap_fixed_size : ℕ
kheap_fixed_size = 1024 * 1024

-- sizeof(block_header_t) on the 32-bit target: 4 + 1 + 3 of padding + 4 + 4.
abbrev pub header_size : ℕ
header_size = 16

-- block_header_t. A pointer is an address, 0 the null pointer.
pub record BlockHeader : Type 0 where
  pub size : ℕ
  pub is_free : Bool
  pub next : ℕ
  pub prev : ℕ

abbrev pub Store : Type 0
Store = ℕ → BlockHeader

abbrev pub set_size : ℕ → ℕ → Store → Store
set_size p v m = update m p (record (m p) { size = v })

abbrev pub set_is_free : ℕ → Bool → Store → Store
set_is_free p v m = update m p (record (m p) { is_free = v })

abbrev pub set_next : ℕ → ℕ → Store → Store
set_next p v m = update m p (record (m p) { next = v })

abbrev pub set_prev : ℕ → ℕ → Store → Store
set_prev p v m = update m p (record (m p) { prev = v })

-- `if (p) p->prev = v;`
abbrev pub set_prev_if : ℕ → ℕ → Store → Store
set_prev_if p v m = if p == 0 then m else set_prev p v m

-- The headers that `kheap_init` writes once the pages of the heap are mapped.
pub init_header : ℕ → Store → Store
init_header heap_start m =
    update m heap_start
      (record { size = kheap_fixed_size - header_size; is_free = true; next = 0; prev = 0 })

-- The split of `kmalloc`: a free block behind the `size` bytes that are handed out.
split_block : ℕ → ℕ → Store → Store
split_block current size m =
    let new_block = u32 (current + header_size + size) in
    let m1 = update m new_block (record {
      size = sub32 (sub32 (m current).size size) header_size;
      is_free = true;
      next = (m current).next;
      prev = current;
    }) in
    let m2 = set_prev_if (m1 current).next new_block m1 in
    set_size current size (set_next current new_block m2)

pub take_block : ℕ → ℕ → Store → Store
unfolding split_block
take_block current size m =
    set_is_free current false (
      if leb (u32 (size + header_size + 1)) (m current).size then split_block current size m else m)

-- The loop of `kmalloc` from the block `current` on: the pointer that is returned (0 when no
-- block fits) and the store; `none` means that the fuel ran out.
pub kmalloc_loop : ℕ → ℕ → ℕ → Store → Option (ℕ × Store)
kmalloc_loop zero size current m = none
kmalloc_loop (suc fuel) size current m =
    let rest = kmalloc_loop fuel size (m current).next m in
    if current == 0
    then some (0, m)
    else if (m current).is_free && leb size (m current).size
    then some (u32 (current + header_size), take_block current size m)
    else rest

-- A block takes at least its header, so the heap holds at most 65536 of them.
abbrev pub kmalloc_fuel : ℕ
kmalloc_fuel = 65537

-- `start` is `heap_start_ptr`.
pub kmalloc : (start : ℕ) → ℕ → Store → Option (ℕ × Store)
kmalloc start size m = kmalloc_loop kmalloc_fuel size start m

-- Step 2 of `kfree`.
pub coalesce_next : ℕ → Store → Store
coalesce_next header m =
    let next = (m header).next in
    if not (next == 0) && (m next).is_free
    then (let m1 = set_size header (u32 ((m header).size + header_size + (m next).size)) m in
        let m2 = set_next header (m1 next).next m1 in set_prev_if (m2 header).next header m2)
    else m

-- Step 3 of `kfree`.
pub coalesce_prev : ℕ → Store → Store
coalesce_prev header m =
    let prev = (m header).prev in
    if not (prev == 0) && (m prev).is_free
    then (let m1 = set_size prev (u32 ((m prev).size + header_size + (m header).size)) m in
        let m2 = set_next prev (m1 header).next m1 in
        set_prev_if (m2 header).next (m2 header).prev m2)
    else m

pub kfree : ℕ → Store → Store
kfree ptr m =
    if ptr == 0
    then m
    else (let header = sub32 ptr header_size in
        coalesce_prev header (coalesce_next header (set_is_free header true m)))
