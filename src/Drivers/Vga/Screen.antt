-- ===== src/Drivers/Vga/Screen.antt =====
-- The terminal's screen: what a scroll leaves in the buffer, and the bounds of the cursor.
use yotos.Base.{
  ℕ, zero, suc, ◌+◌, ◌*◌, ◌≤◌, ◌<◌, ◌≡◌, refl, ◌∙◌, ◌&&◌, arith, ltb, leb, if◌then◌else◌, for_loop,
  for_loop-zero, for_loop-suc,
}
use yotos.Drivers.Vga.{
  Terminal, vga_entry, terminal_putentryat, terminal_clear_row, terminal_scroll, scroll_row,
  scroll_cell, clear_cell,
}

-- All but the buffer is the same.
abbrev Frame : Terminal → Terminal → Type 0
Frame s t =
    (t.terminal_row ≡ s.terminal_row)
    × (t.terminal_column ≡ s.terminal_column)
    × (t.terminal_color ≡ s.terminal_color)
    × (t.ports ≡ s.ports)

abbrev blank : Terminal → ℕ
blank s = vga_entry 32 s.terminal_color

clear_cells :
    (n x row : ℕ) (s : Terminal)
    → x + n ≤ 80
    → row < 25
    → let t = for_loop n x (clear_cell row) s in
      Frame s t
      × ((i : ℕ)
          → t.terminal_buffer i ≡ (
              if leb (row * 80 + x) i && ltb i (row * 80 + x + n)
              then blank s
              else s.terminal_buffer i))
unfolding for_loop clear_cell terminal_putentryat vga_entry
clear_cells zero x row s h r = ((refl, refl, refl, refl), λ i. ground arith)
clear_cells (suc n) x row s h r =
    let ih = clear_cells n (suc x) row (clear_cell row x s) (omega arith) r in
    (ih.0, λ i. ground (arith, ih.1 i))

scroll_cells :
    (n x y : ℕ) (s : Terminal)
    → x + n ≤ 80
    → let t = for_loop n x (scroll_cell (suc y)) s in
      Frame s t
      × ((i : ℕ)
          → t.terminal_buffer i ≡ (
              if leb (y * 80 + x) i && ltb i (y * 80 + x + n)
              then s.terminal_buffer (i + 80)
              else s.terminal_buffer i))
unfolding for_loop scroll_cell
scroll_cells zero x y s h = ((refl, refl, refl, refl), λ i. ground arith)
scroll_cells (suc n) x y s h =
    let ih = scroll_cells n (suc x) y (scroll_cell (suc y) x s) (omega arith) in
    (ih.0, λ i. ground (arith, ih.1 i))

-- One round of the outer loop copies the row below.
scroll_one_row :
    (y : ℕ) (s : Terminal)
    → let t = scroll_row (suc y) s in
      Frame s t
      × ((i : ℕ)
          → t.terminal_buffer i ≡ (
              if leb (y * 80) i && ltb i (y * 80 + 80)
              then s.terminal_buffer (i + 80)
              else s.terminal_buffer i))
unfolding scroll_row
scroll_one_row y s =
    let row = scroll_cells 80 0 y s (omega arith) in (row.0, λ i. ground (arith, row.1 i))

trans_Frame : (s t u : Terminal) → Frame s t → Frame t u → Frame s u
trans_Frame s t u (a, b, c, d) (e, f, g, h) = (e ∙ a, f ∙ b, g ∙ c, h ∙ d)

scroll_rows :
    (n y : ℕ) (s : Terminal)
    → y + n ≤ 24
    → let t = for_loop n (suc y) scroll_row s in
      Frame s t
      × ((i : ℕ)
          → t.terminal_buffer i ≡ (
              if leb (y * 80) i && ltb i ((y + n) * 80)
              then s.terminal_buffer (i + 80)
              else s.terminal_buffer i))
scroll_rows zero y s h =
    rw (for_loop-zero scroll_row (suc y) s) ((refl, refl, refl, refl), λ i. ground arith)
scroll_rows (suc n) y s h =
    let row = scroll_one_row y s in
    let ih = scroll_rows n (suc y) (scroll_row (suc y) s) (omega arith) in
    rw (for_loop-suc scroll_row (suc y) s n) (
      trans_Frame s (scroll_row (suc y) s)
          (for_loop n (suc (suc y)) scroll_row (scroll_row (suc y) s)) row.0 ih.0,
      λ i. ground (arith, ih.1 i, row.1 i, row.1 (i + 80)),
    )

-- A scroll moves every row up by one, blanks the last row in the current colour, leaves the memory
-- behind the 25 rows of 80 cells as it was, and puts the cursor on the last row in its column.
pub terminal_scroll_lem :
    (s : Terminal)
    → let t = terminal_scroll s in
      (t.terminal_row ≡ 24)
      × (t.terminal_column ≡ s.terminal_column)
      × ((i : ℕ) → i < 24 * 80 → t.terminal_buffer i ≡ s.terminal_buffer (i + 80))
      × ((i : ℕ) → 24 * 80 ≤ i → i < 25 * 80 → t.terminal_buffer i ≡ vga_entry 32 s.terminal_color)
      × ((i : ℕ) → 25 * 80 ≤ i → t.terminal_buffer i ≡ s.terminal_buffer i)
unfolding terminal_scroll terminal_clear_row
terminal_scroll_lem s =
    let up = scroll_rows 24 0 s (omega arith) in
    let last = clear_cells 80 0 24 (for_loop 24 1 scroll_row s) (omega arith) (omega arith) in
    (
      refl,
      last.0.1 ∙ up.0.1,
      λ i h. ground (arith, last.1 i, up.1 i),
      λ i h k. ground (arith, last.1 i, up.0.2),
      λ i h. ground (arith, last.1 i, up.1 i),
    )
