-- ===== src/Klibc.antt =====
-- klibc/string.c and klibc/stdio.c. A C string is the list of its bytes, without the zero that
-- ends it; what is printed is the list of bytes that reach `putchar`.
pub mod Strings
pub mod Numbers
mod Tests
use yotos.Base.{
  ℕ, zero, suc, ◌+◌, ◌-◌, ◌/◌, ◌%◌, ◌^◌, Bool, true, false, ◌&&◌, List, [], ◌∷◌, ◌++◌, ltb, leb,
  ◌==◌, if◌then◌else◌, update, u32, u8, take, length,
}
use yotos.Base.Int.{ℤ, sub_ℕ, pos}

-- A byte as a signed `char`, shifted by 128 so that the order is that of numbers.
abbrev pub char_rank : ℕ → ℕ
char_rank c = (c + 128) % 256

-- memset(dest, value, size), where `dest` points at index `at` of the memory.
unfoldable pub memset : ℕ → ℕ → ℕ → (ℕ → ℕ) → ℕ → ℕ
memset at value zero m = m
memset at value (suc size) m = memset (at + 1) value size (update m at (u8 value))

unfoldable pub strlen : List ℕ → ℕ
strlen [] = 0
strlen (c ∷ s) = suc (strlen s)

-- The loop stops at the first difference or at the end of `s1`; the zero byte ends both. The
-- difference is that of signed chars.
unfoldable pub strcmp : List ℕ → List ℕ → ℤ
strcmp [] [] = pos 0
strcmp [] (d ∷ t) = sub_ℕ 128 (char_rank d)
strcmp (c ∷ s) [] = sub_ℕ (char_rank c) 128
strcmp (c ∷ s) (d ∷ t) =
    let rest = strcmp s t in if c == d then rest else sub_ℕ (char_rank c) (char_rank d)

-- `while (i < size - 1 && src[i])`, with `room` for size - 1 - i.
unfoldable pub copy_loop : ℕ → List ℕ → List ℕ
copy_loop zero src = []
copy_loop (suc room) [] = []
copy_loop (suc room) (c ∷ src) = c ∷ copy_loop room src

-- The string that `dst` holds afterwards, and the length of `src`.
unfoldable pub strlcpy : List ℕ → List ℕ → ℕ → List ℕ × ℕ
unfolding copy_loop strlen
strlcpy dst src size = (if ltb 0 size then copy_loop (size - 1) src else dst, strlen src)

-- `(*a >= 'a' && *a <= 'z') ? *a - 32 : *a`; the bytes from 128 on are negative chars.
unfoldable pub to_upper : ℕ → ℕ
to_upper c = if leb b'a' c && leb c b'z' then c - 32 else c

unfoldable pub strcasecmp : List ℕ → List ℕ → ℤ
strcasecmp [] [] = pos 0
strcasecmp [] (d ∷ t) = sub_ℕ 0 d
strcasecmp (c ∷ s) [] = sub_ℕ c 0
strcasecmp (c ∷ s) (d ∷ t) =
    let rest = strcasecmp s t in
    if to_upper c == to_upper d then rest else sub_ℕ (to_upper c) (to_upper d)

-- The loop of `print_int`: digits are put in front of those that are there. `none` of the 10
-- places of the buffer is left when the fuel is 0.
unfoldable pub digits_loop : ℕ → ℕ → List ℕ → List ℕ
digits_loop zero value buf = buf
digits_loop (suc places) value buf =
    let rest = digits_loop places (value / 10) ((b'0' + value % 10) ∷ buf) in
    if ltb 0 value then rest else buf

-- `buf` has ten places in front of its final zero.
unfoldable pub print_int : ℕ → List ℕ
unfolding digits_loop
print_int value = if value == 0 then b'0' ∷ [] else digits_loop 10 value []

abbrev pub hex_digit : ℕ → ℕ
hex_digit nibble = if ltb nibble 10 then b'0' + nibble else b'A' + nibble - 10

-- The places i = 9, 8, …, 2 of the buffer.
unfoldable pub hex_loop : ℕ → ℕ → List ℕ → List ℕ
hex_loop zero value buf = buf
hex_loop (suc places) value buf = hex_loop places (value / 2 ^ 4) (hex_digit (value % 2 ^ 4) ∷ buf)

unfoldable pub print_hex : ℕ → List ℕ
unfolding hex_loop
print_hex value = b'0' ∷ b'x' ∷ hex_loop 8 value []

-- An argument of `printf`, in the order of `va_arg`.
pub data Arg : Type 0 where
  int : ℕ → Arg
  string : List ℕ → Arg

abbrev pub int_of : Arg → ℕ
int_of (int n) = n
int_of (string s) = 0

abbrev pub string_of : Arg → List ℕ
string_of (int n) = []
string_of (string s) = s

-- What a conversion prints, and the arguments that are left. A missing argument is undefined in
-- C and prints nothing here.
unfoldable pub convert : ℕ → List Arg → List ℕ × List Arg
convert c [] = ([], [])
convert c (a ∷ args) =
    if c == b'd'
    then (print_int (u32 (int_of a)), args)
    else if c == b'x'
    then (print_hex (u32 (int_of a)), args)
    else if c == b's'
    then (string_of a, args)
    else if c == b'c'
    then (u8 (int_of a) ∷ [], args)
    else ([], a ∷ args)

-- Reading past a `%` that ends the format is undefined in C; here it ends the output.
unfoldable pub printf : List ℕ → List Arg → List ℕ
printf [] args = []
printf (c ∷ []) args = if c == b'%' then [] else c ∷ []
printf (c ∷ d ∷ fmt) args =
    let (out, args') = convert d args in
    let after = out ++ printf fmt args' in
    let plain = c ∷ printf (d ∷ fmt) args in if c == b'%' then after else plain
