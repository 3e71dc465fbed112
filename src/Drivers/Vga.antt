-- ===== src/Drivers/Vga.antt =====
-- drivers/vga.c: the text terminal. Its buffer is memory at 0xB8000, a function from the index of
-- a 16-bit cell to the cell; size_t has 32 bits. `ports` lists what `outb` sent, in order.
pub mod Screen
pub mod Cursor
use yotos.Base.{
  ℕ, zero, suc, ◌+◌, ◌-◌, ◌*◌, ◌/◌, ◌%◌, ◌^◌, ◌≤◌, ◌<◌, ◌≡◌, refl, sym, ap, ◌∙◌, fun_ext, ◌≢◌, ◌↔◌,
  ◌⊎◌, inl, inr, Bool, true, false, not, ◌&&◌, ◌||◌, Option, none, some, List, [], ◌∷◌, ◌++◌, map,
  arith, bit_and, bit_or, bit_xor, ltb, leb, ◌==◌, if◌then◌else◌, update, min, max, bit, bit-lt,
  bit-bit_or, bit-bit_and, bit-pow, bit_and-pow_iff, bit-complement, bit_or-lt, bit-ones, pow-lt,
  bit_and-le, all_ones, Bool-cases, Option-cases, length, get_or, take, drop, for_loop, replicate,
  All, length-append, length-take, length-drop, length-replicate, u8, u16, u32, sub32, ==_iff,
  ltb→lt, lt→ltb, le→ltb, leb→le,
}

abbrev pub vga_width : ℕ
vga_width = 80

abbrev pub vga_height : ℕ
vga_height = 25

pub record Terminal : Type 0 where
  pub terminal_row : ℕ
  pub terminal_column : ℕ
  pub terminal_color : ℕ
  pub terminal_buffer : ℕ → ℕ
  pub ports : List (ℕ × ℕ)

vga_entry_color : ℕ → ℕ → ℕ
vga_entry_color fg bg = u8 (bit_or fg (bg * 16))

pub vga_entry : ℕ → ℕ → ℕ
vga_entry uc color = u16 (bit_or uc (color * 256))

pub terminal_update_cursor : Terminal → Terminal
terminal_update_cursor s =
    let position = u16 (s.terminal_row * vga_width + s.terminal_column) in
    record s {
      ports =
          s.ports
          ++ ((0x3D4, 0x0F)
              ∷ (0x3D5, u8 position)
              ∷ (0x3D4, 0x0E)
              ∷ (0x3D5, u8 (position / 256))
              ∷ []);
    }

change_color : ℕ → ℕ → Terminal → Terminal
change_color fg bg s = record s { terminal_color = vga_entry_color fg bg }

-- One cell of the buffer is written.
abbrev pub set_cell : ℕ → ℕ → Terminal → Terminal
set_cell index v s = record s { terminal_buffer = update s.terminal_buffer index v }

pub terminal_putentryat : ℕ → ℕ → ℕ → ℕ → Terminal → Terminal
terminal_putentryat c color x y = set_cell (u32 (y * vga_width + x)) (vga_entry c color)

-- The rounds of the two loops of `terminal_initialize`.
init_cell : ℕ → ℕ → Terminal → Terminal
init_cell y x s = set_cell (y * vga_width + x) (vga_entry 32 s.terminal_color) s

init_row : ℕ → Terminal → Terminal
init_row y = for_loop vga_width 0 (init_cell y)

terminal_initialize : Terminal → Terminal
terminal_initialize s =
    for_loop vga_height 0 init_row
      (record s { terminal_row = 0; terminal_column = 0; terminal_color = vga_entry_color 7 0 })

clear_cell : ℕ → ℕ → Terminal → Terminal
clear_cell row x s = terminal_putentryat 32 s.terminal_color x row s

pub terminal_clear_row : ℕ → Terminal → Terminal
terminal_clear_row row = for_loop vga_width 0 (clear_cell row)

-- The rounds of the two loops of `terminal_scroll`.
scroll_cell : ℕ → ℕ → Terminal → Terminal
scroll_cell y x s = set_cell ((y - 1) * vga_width + x) (s.terminal_buffer (y * vga_width + x)) s

scroll_row : ℕ → Terminal → Terminal
scroll_row y = for_loop vga_width 0 (scroll_cell y)

pub terminal_scroll : Terminal → Terminal
terminal_scroll s =
    record (terminal_clear_row (vga_height - 1) (for_loop (vga_height - 1) 1 scroll_row s)) {
      terminal_row = vga_height - 1;
    }

-- `if (++terminal_row == VGA_HEIGHT) terminal_scroll();`
pub next_row : Terminal → Terminal
next_row s =
    let s1 = record s { terminal_row = u32 (s.terminal_row + 1) } in
    if s1.terminal_row == vga_height then terminal_scroll s1 else s1

-- The branch of '\b'.
pub putchar_backspace : Terminal → Terminal
putchar_backspace s =
    let s1 =
      if ltb 0 s.terminal_column
      then record s { terminal_column = sub32 s.terminal_column 1 }
      else record s { terminal_row = sub32 s.terminal_row 1; terminal_column = vga_width - 1 } in
    terminal_update_cursor
      (terminal_putentryat 32 s1.terminal_color s1.terminal_column s1.terminal_row s1)

-- The branch of every other character.
pub putchar_plain : ℕ → Terminal → Terminal
putchar_plain c s =
    let s1 = terminal_putentryat c s.terminal_color s.terminal_column s.terminal_row s in
    let s2 = record s1 { terminal_column = u32 (s1.terminal_column + 1) } in
    terminal_update_cursor
      (if s2.terminal_column == vga_width then next_row (record s2 { terminal_column = 0 }) else s2)

pub terminal_putchar : ℕ → Terminal → Terminal
terminal_putchar c s =
    if c == 10
    then terminal_update_cursor (next_row (record s { terminal_column = 0 }))
    else if c == 8
    then putchar_backspace s
    else putchar_plain c s

-- The loop of `terminal_write`; `terminal_writestring` writes the characters of its string.
pub terminal_write : List ℕ → Terminal → Terminal
terminal_write [] s = s
terminal_write (c ∷ rest) s = terminal_write rest (terminal_putchar c s)
