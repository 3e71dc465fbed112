-- ===== src/Pmm/Search.antt =====
-- `mmap_first_free`: the search through the bitmap for the first frame that is free.
use yotos.Base.{
  ℕ, zero, suc, ◌+◌, ◌-◌, ◌*◌, ◌/◌, ◌%◌, ◌^◌, ◌≤◌, ◌<◌, ◌≡◌, ◌⊎◌, inl, inr, none, some, map, arith,
  bit_and, ◌==◌, bit, bit-lt, bit_and-pow_iff, bit-ones, Bool-cases, Option-cases,
}
use native.Mathlib.Decide.{dec_lt}
use yotos.Pmm.{first_free_bit, first_free_from}
use yotos.Pmm.Map.{frame_bit}

eq_or_next : (j k : ℕ) → j ≤ k → (k ≡ j) ⊎ (j + 1 ≤ k)
eq_or_next j k h = omega arith

-- What a search of the digits j, j + 1, …, j + left - 1 of a word finds: a digit that is 0 …
first_free_bit-free :
    (left j word b : ℕ)
    → first_free_bit left j word ≡ some b
    → (j ≤ b) × (b < j + left) × (bit b word ≡ 0)
unfolding first_free_bit
first_free_bit-free zero j word b h = cc
first_free_bit-free (suc left) j word b h =
    ground (arith, bit_and-pow_iff j word, first_free_bit-free left (j + 1) word b)

-- … and behind digits that are all 1;
first_free_bit-least :
    (left j word b k : ℕ) → first_free_bit left j word ≡ some b → j ≤ k → k < b → bit k word ≡ 1
unfolding first_free_bit
first_free_bit-least zero j word b k h p q = cc
first_free_bit-least (suc left) j word b k h p q = elim (Bool-cases (bit_and word (2 ^ j) == 0)) [
  | inl e ↦ ground arith
  | inr e ↦ elim (eq_or_next j k p) [
    | inl here ↦ ground (arith, bit_and-pow_iff j word, bit-lt k word)
    | inr later ↦ first_free_bit-least left (j + 1) word b k (ground arith) later q
  ]
]

-- or none, where all of them are 1.
first_free_bit-none :
    (left j word k : ℕ) → first_free_bit left j word ≡ none → j ≤ k → k < j + left → bit k word ≡ 1
unfolding first_free_bit
first_free_bit-none zero j word k h p q = absurd (omega arith)
first_free_bit-none (suc left) j word k h p q = elim (Bool-cases (bit_and word (2 ^ j) == 0)) [
  | inl e ↦ ground arith
  | inr e ↦ elim (eq_or_next j k p) [
    | inl here ↦ ground (arith, bit_and-pow_iff j word, bit-lt k word)
    | inr later ↦ first_free_bit-none left (j + 1) word k (ground arith) later (omega arith)
  ]
]

-- The same of the search through the words i, i + 1, …, i + left - 1.
pub first_free_from-free :
    (left i : ℕ) (map : ℕ → ℕ) (f : ℕ)
    → first_free_from left i map ≡ some f
    → (i * 32 ≤ f) × (f < (i + left) * 32) × (frame_bit map f ≡ 0)
unfolding first_free_from frame_bit
first_free_from-free zero i map f h = cc
first_free_from-free (suc left) i map f h = elim (Option-cases (first_free_bit 32 0 (map i))) [
  | inl e ↦ ground (arith, first_free_from-free left (i + 1) map f)
  | inr (b, e) ↦ elim (Bool-cases (map i == 2 ^ 32 - 1)) [
    | inl full ↦ ground (arith, first_free_from-free left (i + 1) map f)
    | inr room ↦
        let found : f ≡ i * 4 * 8 + b = ground arith in
        let free = first_free_bit-free 32 0 (map i) b e in
        let word : f / 32 ≡ i = omega arith in
        let digit : f % 32 ≡ b = omega arith in (omega arith, omega arith, rw (word, digit) free.2)
  ]
]

digit_of_word :
    (i : ℕ) (map : ℕ → ℕ) (m : ℕ) → bit (m % 32) (map i) ≡ 1 → m / 32 ≡ i → frame_bit map m ≡ 1
unfolding frame_bit
digit_of_word i map m h e = rw e h

full_word : (i : ℕ) (map : ℕ → ℕ) (m : ℕ) → map i ≡ 2 ^ 32 - 1 → m / 32 ≡ i → frame_bit map m ≡ 1
full_word i map m e here = digit_of_word i map m (rw e (bit-ones 32 (m % 32) (omega arith))) here

pub first_free_from-least :
    (left i : ℕ) (map : ℕ → ℕ) (f m : ℕ)
    → first_free_from left i map ≡ some f
    → i * 32 ≤ m
    → m < f
    → frame_bit map m ≡ 1
unfolding first_free_from
first_free_from-least zero i map f m h p q = cc
first_free_from-least (suc left) i map f m h p q = elim (dec_lt m ((i + 1) * 32)) [
  | yes here ↦ elim (Bool-cases (map i == 2 ^ 32 - 1)) [
    | inl full ↦ full_word i map m (ground arith) (omega arith)
    | inr room ↦ elim (Option-cases (first_free_bit 32 0 (map i))) [
      | inl e ↦
          digit_of_word i map m
            (first_free_bit-none 32 0 (map i) (m % 32) e (omega arith) (omega arith)) (omega arith)
      | inr (b, e) ↦
          let found : f ≡ i * 4 * 8 + b = ground arith in
          digit_of_word i map m
            (first_free_bit-least 32 0 (map i) b (m % 32) e (omega arith) (omega arith))
            (omega arith)
    ]
  ]
  | no later ↦ elim (Bool-cases (map i == 2 ^ 32 - 1)) [
    | inl full ↦ first_free_from-least left (i + 1) map f m (ground arith) (omega arith) q
    | inr room ↦ elim (Option-cases (first_free_bit 32 0 (map i))) [
      | inl e ↦ first_free_from-least left (i + 1) map f m (ground arith) (omega arith) q
      | inr (b, e) ↦
          let found : f ≡ i * 4 * 8 + b = ground arith in
          absurd (omega (arith, first_free_bit-free 32 0 (map i) b e))
    ]
  ]
]

pub first_free_from-none :
    (left i : ℕ) (map : ℕ → ℕ) (m : ℕ)
    → first_free_from left i map ≡ none
    → i * 32 ≤ m
    → m < (i + left) * 32
    → frame_bit map m ≡ 1
unfolding first_free_from
first_free_from-none zero i map m h p q = absurd (omega arith)
first_free_from-none (suc left) i map m h p q = elim (dec_lt m ((i + 1) * 32)) [
  | yes here ↦ elim (Bool-cases (map i == 2 ^ 32 - 1)) [
    | inl full ↦ full_word i map m (ground arith) (omega arith)
    | inr room ↦
        digit_of_word i map m
          (first_free_bit-none 32 0 (map i) (m % 32) (ground arith) (omega arith) (omega arith))
          (omega arith)
  ]
  | no later ↦ first_free_from-none left (i + 1) map m (ground arith) (omega arith) (omega arith)
]
