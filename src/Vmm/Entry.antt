-- ===== src/Vmm/Entry.antt =====
-- The entries of page tables: the frame and the flags that the macros take out and put in.
use yotos.Base.{
  ℕ, ◌+◌, ◌-◌, ◌*◌, ◌/◌, ◌%◌, ◌^◌, ◌<◌, ◌≡◌, sym, ap, ◌∙◌, not, arith, bit_and, bit_or, ◌==◌, max,
  bit, bit-lt, bit-bit_or, bit_and-pow_iff, bit_or-lt,
}
use yotos.Base.{bit_or-parts, bit_and-parts, bit_and-ones, bit_or-zero, bit_and-zero, bit_and-pow}
use yotos.Vmm.{entry_frame, has_flag, pt_index, page_entry}

pub entry_frame_lem : (e : ℕ) → e < 2 ^ 32 → entry_frame e ≡ e / 4096 * 4096
unfolding entry_frame
entry_frame_lem e h =
    let split : e ≡ e / 4096 * 2 ^ 12 + e % 4096 = omega arith in
    let parts = bit_and-parts 12 (e % 4096) (e / 4096) 0 (2 ^ 20 - 1) (omega arith) (omega arith) in
    let high = bit_and-ones 20 (e / 4096) (omega arith) in
    let low : bit_and (e % 4096) 0 ≡ 0 = bit_and-zero (e % 4096) (e % 4096) (omega arith) in
    ap (λ (x : ℕ). bit_and x 0xFFFFF000) split ∙ parts ∙ omega (arith, high, low)

pub pt_index_lem : (a : ℕ) → pt_index a ≡ a / 4096 % 1024
unfolding pt_index
pt_index_lem a =
    let x = a / 4096 in
    let split : x ≡ x / 1024 * 2 ^ 10 + x % 1024 = omega arith in
    let parts = bit_and-parts 10 (x % 1024) (x / 1024) (2 ^ 10 - 1) 0 (omega arith) (omega arith) in
    let low = bit_and-ones 10 (x % 1024) (omega arith) in
    let high : bit_and (x / 1024) 0 ≡ 0 = bit_and-zero (x / 1024) (x / 1024) (omega arith) in
    ap (λ (y : ℕ). bit_and y 0x3FF) split ∙ parts ∙ omega (arith, high, low)

pub has_flag-present : (e : ℕ) → has_flag e 1 ≡ not (e % 2 == 0)
unfolding has_flag bit
has_flag-present e = ground (arith, bit_and-pow_iff 0 e)

-- Flags of the low twelve bits leave the frame alone.
pub bit_or-frame : (e flags : ℕ) → flags < 4096 → bit_or e flags / 4096 ≡ e / 4096
bit_or-frame e flags h =
    let parts = bit_or-parts 12 (e % 4096) (e / 4096) flags 0 (omega arith) (omega arith) in
    let x : e / 4096 * 2 ^ 12 + e % 4096 ≡ e = omega arith in
    let y : 0 * 2 ^ 12 + flags ≡ flags = omega arith in
    let split = ap (λ (t : ℕ). bit_or t (0 * 2 ^ 12 + flags)) (sym x) ∙ parts in
    let low = bit_or-lt 12 (e % 4096) flags (omega arith) h in
    let high = bit_or-zero (e / 4096) (e / 4096) (omega arith) in
    omega (arith, ap (λ (t : ℕ). bit_or e t) (sym y) ∙ split, low, high)

pub bit_or-present : (e flags : ℕ) → bit_or e flags % 2 ≡ max (e % 2) (flags % 2)
unfolding bit
bit_or-present e flags = bit-bit_or 0 e flags

-- An entry of a page table: the frame, and the present flag.
pub page_entry_lem :
    (phys flags : ℕ)
    → phys < 2 ^ 32
    → flags < 4096
    → (page_entry phys flags / 4096 ≡ phys / 4096)
      × (page_entry phys flags % 2 ≡ 1)
      × (page_entry phys flags < 2 ^ 32)
unfolding page_entry
page_entry_lem phys flags h k =
    let frame = entry_frame_lem phys h in
    let inner = bit_or (entry_frame phys) flags in
    let inner_lt = bit_or-lt 32 (entry_frame phys) flags (omega (arith, frame)) (omega arith) in
    (
      omega (
        arith,
        bit_or-frame (bit_or (entry_frame phys) flags) 1 (omega arith),
        bit_or-frame (entry_frame phys) flags k,
        frame,
      ),
      omega (arith, bit_or-present inner 1),
      bit_or-lt 32 inner 1 inner_lt (omega arith),
    )

-- `t | a | b | f` of three sets of flags, the first with the present flag: an entry of the directory.
pub table_entry_lem :
    (t flags : ℕ)
    → t < 2 ^ 32
    → let e = bit_or (bit_or (bit_or t 1) 2) (bit_and flags 4) in
      (e / 4096 ≡ t / 4096) × (e % 2 ≡ 1) × (e < 2 ^ 32)
table_entry_lem t flags h =
    let a = bit_or t 1 in
    let b = bit_or a 2 in
    let user : bit_and flags 4 < 8 = omega (arith, bit_and-pow 2 flags, bit-lt 2 flags) in
    let a_lt = bit_or-lt 32 t 1 h (omega arith) in
    let b_lt = bit_or-lt 32 a 2 a_lt (omega arith) in
    (
      omega (
        arith,
        bit_or-frame b (bit_and flags 4) (omega arith),
        bit_or-frame a 2 (omega arith),
        bit_or-frame t 1 (omega arith),
      ),
      omega (
        arith,
        bit_or-present b (bit_and flags 4),
        bit_or-present a 2,
        bit_or-present t 1,
        user_even flags,
      ),
      bit_or-lt 32 b (bit_and flags 4) b_lt (omega arith),
    )
  where
    user_even : (f : ℕ) → bit_and f 4 % 2 ≡ 0
    user_even f = omega (arith, bit_and-pow 2 f, bit-lt 2 f)
