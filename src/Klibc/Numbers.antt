-- ===== src/Klibc/Numbers.antt =====
-- What `print_int` and `print_hex` print, read back.
use yotos.Base.{
  ℕ, zero, suc, ◌+◌, ◌-◌, ◌*◌, ◌/◌, ◌%◌, ◌^◌, ◌≤◌, ◌<◌, ◌≡◌, refl, ap, ◌∙◌, false, List, [], ◌∷◌,
  arith, leb, ◌==◌, if◌then◌else◌, length, drop, lt→ltb,
}
use native.Mathlib.Nat.{pow-suc}
use yotos.Klibc.{digits_loop, print_int, hex_digit, hex_loop, print_hex}

-- The number that a string of decimal digits stands for.
unfoldable pub read_int : ℕ → List ℕ → ℕ
read_int acc [] = acc
read_int acc (c ∷ s) = read_int (acc * 10 + (c - b'0')) s

read_int-digits_loop :
    (places value : ℕ) (buf : List ℕ)
    → value < 10 ^ places
    → read_int 0 (digits_loop places value buf) ≡ read_int value buf
unfolding digits_loop read_int
read_int-digits_loop zero value buf h = ap (λ n. read_int n buf) (omega arith)
read_int-digits_loop (suc places) zero buf h = refl
read_int-digits_loop (suc places) (suc n) buf h = rw (lt→ltb 0 (suc n) (omega arith)) (
    read_int-digits_loop places (suc n / 10) ((b'0' + suc n % 10) ∷ buf)
      (omega (arith, pow-suc 10 places))
    ∙ ap (λ m. read_int m buf) (omega arith))

length-digits_loop :
    (places value : ℕ) (buf : List ℕ) → length (digits_loop places value buf) ≤ places + length buf
unfolding digits_loop
length-digits_loop zero value buf = omega arith
length-digits_loop (suc places) value buf =
    ground (arith, length-digits_loop places (value / 10) ((b'0' + value % 10) ∷ buf))

-- What `print_int` prints of a 32-bit value reads back as the value, and fits the buffer: the
-- index never runs below its start.
pub read_int-print_int :
    (value : ℕ)
    → value < 2 ^ 32
    → (read_int 0 (print_int value) ≡ value) × (length (print_int value) ≤ 10)
unfolding print_int
read_int-print_int zero h = (unfold read_int in refl, omega arith)
read_int-print_int (suc n) h =
    let some_digit : (suc n == 0) ≡ false = ground arith in
    rw some_digit (
      read_int-digits_loop 10 (suc n) [] (omega arith) ∙ (unfold read_int in refl),
      omega (arith, length-digits_loop 10 (suc n) []),
    )

abbrev pub hex_value : ℕ → ℕ
hex_value c = if leb c b'9' then c - b'0' else c - b'A' + 10

pub read_hex : ℕ → List ℕ → ℕ
read_hex acc [] = acc
read_hex acc (c ∷ s) = read_hex (acc * 16 + hex_value c) s

hex_value-hex_digit : (n : ℕ) → n < 16 → hex_value (hex_digit n) ≡ n
hex_value-hex_digit n h = ground arith

read_hex-hex_loop :
    (places value : ℕ) (buf : List ℕ)
    → value < 16 ^ places
    → read_hex 0 (hex_loop places value buf) ≡ read_hex value buf
unfolding hex_loop read_hex
read_hex-hex_loop zero value buf h = ap (λ n. read_hex n buf) (omega arith)
read_hex-hex_loop (suc places) value buf h =
    read_hex-hex_loop places (value / 2 ^ 4) (hex_digit (value % 2 ^ 4) ∷ buf)
      (omega (arith, pow-suc 16 places))
    ∙ ap (λ m. read_hex m buf) (omega (arith, hex_value-hex_digit (value % 16) (omega arith)))

length-hex_loop :
    (places value : ℕ) (buf : List ℕ) → length (hex_loop places value buf) ≡ places + length buf
unfolding hex_loop
length-hex_loop zero value buf = omega arith
length-hex_loop (suc places) value buf =
    omega (arith, length-hex_loop places (value / 2 ^ 4) (hex_digit (value % 2 ^ 4) ∷ buf))

-- What `print_hex` prints of a 32-bit value is `0x` and eight digits, which read back as the
-- value.
pub read_hex-print_hex :
    (value : ℕ)
    → value < 2 ^ 32
    → (print_hex value ≡ b'0' ∷ b'x' ∷ hex_loop 8 value [])
      × (length (print_hex value) ≡ 10)
      × (read_hex 0 (drop 2 (print_hex value)) ≡ value)
unfolding print_hex
read_hex-print_hex value h = (
  refl,
  omega (arith, length-hex_loop 8 value []),
  read_hex-hex_loop 8 value [] (omega arith) ∙ (unfold read_hex in refl),
)
