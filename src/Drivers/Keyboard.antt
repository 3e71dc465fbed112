-- ===== src/Drivers/Keyboard.antt =====
-- drivers/keyboard.c: scan codes to characters, and the ring of the typed characters. Scan codes
-- come from `inb` and are arguments; characters are their codes.
pub mod Ring
use yotos.Base.{
  ℕ, zero, suc, ◌+◌, ◌-◌, ◌*◌, ◌/◌, ◌%◌, ◌^◌, ◌≤◌, ◌<◌, ◌≡◌, refl, sym, ap, ◌∙◌, fun_ext, ◌≢◌, ◌↔◌,
  ◌⊎◌, inl, inr, Bool, true, false, not, ◌&&◌, ◌||◌, Option, none, some, List, [], ◌∷◌, ◌++◌, map,
  arith, bit_and, bit_or, bit_xor, ltb, leb, ◌==◌, if◌then◌else◌, update, min, max, bit, bit-lt,
  bit-bit_or, bit-bit_and, bit-pow, bit_and-pow_iff, bit-complement, bit_or-lt, bit-ones, pow-lt,
  bit_and-le, all_ones, Bool-cases, Option-cases, length, get_or, take, drop, for_loop,
  for_loop-zero, for_loop-suc, replicate, All, length-append, length-take, length-drop,
  length-replicate, u8, u16, u32, sub32, ==_iff, ltb→lt, lt→ltb, le→ltb, leb→le,
}

pub record Keyboard : Type 0 where
  pub key_buffer : ℕ → ℕ
  pub buf_head : ℕ
  pub buf_tail : ℕ
  pub caps : ℕ
  pub shift : ℕ
  pub ctrl : ℕ

abbrev pub scancode_to_ascii : List ℕ
scancode_to_ascii =
    0 ∷ 0 ∷ 49 ∷ 50 ∷ 51 ∷ 52 ∷ 53 ∷ 54 ∷ 55 ∷ 56 ∷ 57 ∷ 48 ∷ 45 ∷ 61 ∷ 8 ∷ 9 ∷ 113 ∷ 119 ∷ 101
    ∷ 114 ∷ 116 ∷ 121 ∷ 117 ∷ 105 ∷ 111 ∷ 112 ∷ 91 ∷ 93 ∷ 10 ∷ 0 ∷ 97 ∷ 115 ∷ 100 ∷ 102 ∷ 103 ∷ 104
    ∷ 106 ∷ 107 ∷ 108 ∷ 59 ∷ 39 ∷ 96 ∷ 0 ∷ 92 ∷ 122 ∷ 120 ∷ 99 ∷ 118 ∷ 98 ∷ 110 ∷ 109 ∷ 44 ∷ 46 ∷ 47
    ∷ 0 ∷ 42 ∷ 0 ∷ 32 ∷ []

abbrev pub scancode_to_ascii_upper : List ℕ
scancode_to_ascii_upper =
    0 ∷ 0 ∷ 33 ∷ 64 ∷ 35 ∷ 36 ∷ 37 ∷ 94 ∷ 38 ∷ 42 ∷ 40 ∷ 41 ∷ 45 ∷ 61 ∷ 0 ∷ 9 ∷ 81 ∷ 87 ∷ 69 ∷ 82
    ∷ 84 ∷ 89 ∷ 85 ∷ 73 ∷ 79 ∷ 80 ∷ 123 ∷ 125 ∷ 10 ∷ 0 ∷ 65 ∷ 83 ∷ 68 ∷ 70 ∷ 71 ∷ 72 ∷ 74 ∷ 75 ∷ 76
    ∷ 58 ∷ 34 ∷ 126 ∷ 0 ∷ 124 ∷ 90 ∷ 88 ∷ 67 ∷ 86 ∷ 66 ∷ 78 ∷ 77 ∷ 60 ∷ 62 ∷ 63 ∷ 0 ∷ 42 ∷ 0 ∷ 32
    ∷ []

-- The character of a key below sizeof(scancode_to_ascii), 0 for none.
unfoldable pub key_char : ℕ → Keyboard → ℕ
key_char scancode s =
    let c =
      if not (s.shift == 0)
      then get_or scancode_to_ascii_upper scancode 0
      else get_or scancode_to_ascii scancode 0 in
    if not (s.caps == 0) && leb 97 c && leb c 122 then c - 32 else c

-- `key_buffer[buf_tail++] = c;`
pub push_key : ℕ → Keyboard → Keyboard
push_key c s = record s {
  key_buffer = update s.key_buffer s.buf_tail c;
  buf_tail = u8 (s.buf_tail + 1);
}

-- `running` is `process_is_running()`. The new state, and whether `process_signal_kill` is called.
pub keyboard_handler : Bool → ℕ → Keyboard → Keyboard × Bool
keyboard_handler running scancode s =
    if not (bit_and scancode 0x80 == 0)
    then (let s1 = if (scancode == 0xAA) || (scancode == 0xB6) then record s { shift = 0 } else s in
        (if scancode == 0x9D then record s1 { ctrl = 0 } else s1, false))
    else if scancode == 0x1D
    then (record s { ctrl = 1 }, false)
    else if (scancode == 0x2A) || (scancode == 0x36)
    then (record s { shift = 1 }, false)
    else if not (s.ctrl == 0) && (scancode == 0x2E)
    then (s, running)
    else if scancode == 0x3A
    then (record s { caps = if s.caps == 0 then 1 else 0 }, false)
    else if ltb scancode (length scancode_to_ascii)
    then (if key_char scancode s == 0 then s else push_key (key_char scancode s) s, false)
    else (s, false)

-- 0 is the empty buffer's answer.
pub keyboard_getchar : Keyboard → ℕ × Keyboard
keyboard_getchar s =
    if s.buf_head == s.buf_tail
    then (0, s)
    else (s.key_buffer s.buf_head, record s { buf_head = u8 (s.buf_head + 1) })

keyboard_flush : Keyboard → Keyboard
keyboard_flush s = record s { buf_head = s.buf_tail }
