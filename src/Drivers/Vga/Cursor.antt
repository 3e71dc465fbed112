-- ===== src/Drivers/Vga/Cursor.antt =====
-- The cursor stays on the screen, and what is printed stays in it.
use yotos.Base.{ℕ, ◌+◌, ◌*◌, ◌≤◌, ◌<◌, ◌≡◌, refl, ◌∙◌, ◌≢◌, List, [], ◌∷◌, arith, update, All, u32}
use yotos.Drivers.Vga.{
  Terminal, vga_entry, terminal_update_cursor, terminal_putentryat, next_row, putchar_backspace,
  putchar_plain, terminal_putchar, terminal_write,
}
use yotos.Drivers.Vga.Screen.{terminal_scroll_lem}

-- The cursor is on the screen.
unfoldable pub InScreen : Terminal → Type 0
InScreen s = (s.terminal_row < 25) × (s.terminal_column < 80)

-- The memory behind the screen is the same.
abbrev pub Outside : Terminal → Terminal → Type 0
Outside s t = (i : ℕ) → 25 * 80 ≤ i → t.terminal_buffer i ≡ s.terminal_buffer i

next_row-InScreen :
    (s : Terminal)
    → s.terminal_row < 25
    → s.terminal_column < 80
    → ((next_row s).terminal_row < 25)
      × ((next_row s).terminal_column < 80)
      × Outside s (next_row s)
unfolding next_row
next_row-InScreen s r c =
    let scroll = terminal_scroll_lem (record s { terminal_row = u32 (s.terminal_row + 1) }) in
    (ground (arith, scroll.0), ground (arith, scroll.1), λ i h. ground (arith, scroll.4 i h))

putchar_plain-InScreen :
    (c : ℕ) (s : Terminal)
    → InScreen s
    → InScreen (putchar_plain c s) × Outside s (putchar_plain c s)
unfolding putchar_plain terminal_putentryat terminal_update_cursor InScreen
putchar_plain-InScreen c s (r, k) =
    let s1 : Terminal = record s {
      terminal_buffer =
          update s.terminal_buffer (u32 (s.terminal_row * 80 + s.terminal_column))
            (vga_entry c s.terminal_color);
      terminal_column = 0;
    } in
    let next = next_row-InScreen s1 r (omega arith) in
    ((ground (arith, next.0), ground (arith, next.1)), λ i h. ground (arith, next.2 i h))

-- From a cursor on the screen every character leaves the cursor on the screen and writes no memory
-- behind it, but for a backspace in the first cell.
pub terminal_putchar-InScreen :
    (c : ℕ) (s : Terminal)
    → InScreen s
    → (c ≡ 8 → s.terminal_column ≡ 0 → s.terminal_row ≢ 0)
    → InScreen (terminal_putchar c s) × Outside s (terminal_putchar c s)
unfolding terminal_putchar putchar_backspace terminal_putentryat terminal_update_cursor InScreen
terminal_putchar-InScreen c s (r, k) first =
    let next = next_row-InScreen (record s { terminal_column = 0 }) r (omega arith) in
    let plain = putchar_plain-InScreen c s (r, k) in
    (
      (ground (arith, next.0, plain.0.0), ground (arith, next.1, plain.0.1)),
      λ i h. ground (arith, next.2 i h, plain.1 i h),
    )

-- A text without a backspace leaves the cursor on the screen and writes no memory behind it.
terminal_write-InScreen :
    (text : List ℕ) (s : Terminal)
    → All (λ c. c ≢ 8) text
    → InScreen s
    → InScreen (terminal_write text s) × Outside s (terminal_write text s)
unfolding terminal_write
terminal_write-InScreen [] s clean h = (h, λ i _. refl)
terminal_write-InScreen (c ∷ rest) s (n, clean) h =
    let one = terminal_putchar-InScreen c s h (λ e. absurd (n e)) in
    let ih = terminal_write-InScreen rest (terminal_putchar c s) clean one.0 in
    (ih.0, λ i o. ih.1 i o ∙ one.1 i o)
