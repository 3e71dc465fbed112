-- ===== src/User/Snake/Screen.antt =====
-- user/snake.c: what is drawn before the game and after it.
use yotos.Base.{
  ℕ, zero, suc, ◌+◌, ◌-◌, ◌*◌, ◌^◌, ◌≤◌, ◌<◌, ◌≡◌, refl, ap, ◌∙◌, ◌⊎◌, inl, inr, ◌&&◌, List, [],
  ◌∷◌, arith, ltb, leb, if◌then◌else◌, update, length, for_loop, for_loop-zero, for_loop-suc,
}
use yotos.User.Snake.{px, py, pw, ph, vput, vput_list}

-- `VGA_W * VGA_H`
abbrev pub screen_cells : ℕ
screen_cells = 80 * 25

-- A blank on black, in white.
abbrev pub blank_cell : ℕ
blank_cell = 0x0F20

-- A '-' in cyan.
abbrev pub edge_cell : ℕ
edge_cell = 0x0B2D

clear_cell : ℕ → (ℕ → ℕ) → ℕ → ℕ
clear_cell i screen = update screen i (0x0F * 2 ^ 8 + b' ')

pub vclear : (ℕ → ℕ) → ℕ → ℕ
unfolding clear_cell
vclear = for_loop screen_cells 0 clear_cell

pub vstr : (x y : ℕ) → List ℕ → ℕ → (ℕ → ℕ) → ℕ → ℕ
vstr = vput_list

pub border_column : ℕ → (ℕ → ℕ) → ℕ → ℕ
border_column x screen = vput x (py + ph) b'-' 0x0B (vput x (py - 1) b'-' 0x0B screen)

pub border_row : ℕ → (ℕ → ℕ) → ℕ → ℕ
border_row y screen = vput (px + pw) y b'|' 0x0B (vput (px - 1) y b'|' 0x0B screen)

pub draw_border : (ℕ → ℕ) → ℕ → ℕ
draw_border screen =
    let s1 = for_loop (pw + 2) (px - 1) border_column screen in
    let s2 = for_loop ph py border_row s1 in
    let s3 = vput (px - 1) (py - 1) b'+' 0x0B s2 in
    let s4 = vput (px + pw) (py - 1) b'+' 0x0B s3 in
    let s5 = vput (px - 1) (py + ph) b'+' 0x0B s4 in vput (px + pw) (py + ph) b'+' 0x0B s5

-- The screen that the first tick finds, but for the snake, the food and the score.
pub start_screen : (ℕ → ℕ) → ℕ → ℕ
start_screen screen =
    let s1 = vclear screen in
    let s2 = vstr 36 0 (b'S' ∷ b'N' ∷ b'A' ∷ b'K' ∷ b'E' ∷ []) 0x0E s1 in
    let s3 = vstr 2 1 (b'S' ∷ b'c' ∷ b'o' ∷ b'r' ∷ b'e' ∷ b':' ∷ []) 0x0F s2 in
    let s4 =
      vstr 30 1
        (b'W' ∷ b'A' ∷ b'S' ∷ b'D' ∷ b':' ∷ b' ' ∷ b'm' ∷ b'o' ∷ b'v' ∷ b'e' ∷ b' ' ∷ b' ' ∷ b'Q'
          ∷ b':' ∷ b' ' ∷ b'q' ∷ b'u' ∷ b'i' ∷ b't' ∷ [])
        0x07 s3 in
    draw_border s4

pub game_over_screen : (ℕ → ℕ) → ℕ → ℕ
game_over_screen screen =
    vstr 27 13
      (b'P' ∷ b'r' ∷ b'e' ∷ b's' ∷ b's' ∷ b' ' ∷ b'Q' ∷ b' ' ∷ b't' ∷ b'o' ∷ b' ' ∷ b'e' ∷ b'x'
        ∷ b'i' ∷ b't' ∷ b'.' ∷ b'.' ∷ b'.' ∷ [])
      0x0F
      (vstr 32 11 (b'G' ∷ b'A' ∷ b'M' ∷ b'E' ∷ b' ' ∷ b'O' ∷ b'V' ∷ b'E' ∷ b'R' ∷ b'!' ∷ []) 0x0C
        screen)

for_loop-keeps :
    (body : ℕ → (ℕ → ℕ) → ℕ → ℕ) (q n first : ℕ) (s : ℕ → ℕ)
    → ((i : ℕ) (t : ℕ → ℕ) → first ≤ i → i < first + n → body i t q ≡ t q)
    → for_loop n first body s q ≡ s q
for_loop-keeps body q zero first s h = ap (λ t. t q) (for_loop-zero body first s)
for_loop-keeps body q (suc n) first s h =
    ap (λ t. t q) (for_loop-suc body first s n)
    ∙ for_loop-keeps body q n (suc first) (body first s)
        (λ i t lo hi. h i t (omega (arith, lo)) (omega (arith, hi)))
    ∙ h first s (omega arith) (omega arith)

vclear-cell :
    (n first q : ℕ) (s : ℕ → ℕ)
    → for_loop n first clear_cell s q
      ≡ (if leb first q && ltb q (first + n) then blank_cell else s q)
unfolding clear_cell
vclear-cell zero first q s = ap (λ t. t q) (for_loop-zero clear_cell first s) ∙ ground arith
vclear-cell (suc n) first q s =
    ap (λ t. t q) (for_loop-suc clear_cell first s n)
    ∙ ground (arith, vclear-cell n (suc first) q (clear_cell first s))

vput_list-keeps :
    (x y : ℕ) (cs : List ℕ) (col q : ℕ) (s : ℕ → ℕ)
    → (q < y * 80 + x) ⊎ (y * 80 + x + length cs ≤ q)
    → vput_list x y cs col s q ≡ s q
unfolding vput_list vput
vput_list-keeps x y [] col q s h = refl
vput_list-keeps x y (c ∷ cs) col q s h = elim h [
  | inl lo ↦
      vput_list-keeps (x + 1) y cs col q (vput x y c col s) (inl (omega (arith, lo)))
      ∙ (ground (arith, lo))
  | inr hi ↦
      vput_list-keeps (x + 1) y cs col q (vput x y c col s) (inr (omega (arith, hi)))
      ∙ (ground (arith, hi))
]

column-edge :
    (n first x : ℕ) (s : ℕ → ℕ)
    → x < 80
    → for_loop n first border_column s (80 + x)
      ≡ (if leb first x && ltb x (first + n) then edge_cell else s (80 + x))
unfolding border_column vput
column-edge zero first x s h =
    ap (λ t. t (80 + x)) (for_loop-zero border_column first s) ∙ ground arith
column-edge (suc n) first x s h =
    ap (λ t. t (80 + x)) (for_loop-suc border_column first s n)
    ∙ ground (arith, h, column-edge n (suc first) x (border_column first s) h)

border_row-edge : (x : ℕ) (s : ℕ → ℕ) → x < 80 → for_loop ph py border_row s (80 + x) ≡ s (80 + x)
unfolding border_row vput
border_row-edge x s h =
    for_loop-keeps border_row (80 + x) ph py s (λ i t lo hi. ground (arith, lo, hi, h))

-- Between the corners, the border is drawn over all that stood in its upper line.
draw_border-edge : (x : ℕ) (s : ℕ → ℕ) → 1 ≤ x → x < 79 → draw_border s (80 + x) ≡ edge_cell
unfolding draw_border vput
draw_border-edge x s lo hi =
    let s1 = for_loop (pw + 2) (px - 1) border_column s in
    let drawn : s1 (80 + x) ≡ edge_cell =
      column-edge (pw + 2) (px - 1) x s (omega (arith, hi)) ∙ ground (arith, lo, hi) in
    ground (arith, lo, hi, border_row-edge x s1 (omega (arith, hi)), drawn)

border_column-keeps :
    (i x y : ℕ) (t : ℕ → ℕ)
    → i < 80
    → 2 ≤ y
    → y < 23
    → x < 79
    → border_column i t (y * 80 + x) ≡ t (y * 80 + x)
unfolding border_column vput
border_column-keeps i x y t hi y0 y1 hx = ground (arith, hi, y0, y1, hx)

border_row-keeps :
    (i x y : ℕ) (t : ℕ → ℕ) → 1 ≤ x → x < 79 → border_row i t (y * 80 + x) ≡ t (y * 80 + x)
unfolding border_row vput
border_row-keeps i x y t x0 x1 = ground (arith, x0, x1)

draw_border-keeps :
    (x y : ℕ) (s : ℕ → ℕ)
    → 1 ≤ x
    → x < 79
    → 2 ≤ y
    → y < 23
    → draw_border s (y * 80 + x) ≡ s (y * 80 + x)
unfolding draw_border vput
draw_border-keeps x y s x0 x1 y0 y1 =
    let q = y * 80 + x in
    let s1 = for_loop (pw + 2) (px - 1) border_column s in
    let columns : s1 q ≡ s q =
      for_loop-keeps border_column q (pw + 2) (px - 1) s
        (λ i t lo hi. border_column-keeps i x y t (omega (arith, hi)) y0 y1 x1) in
    let rows : for_loop ph py border_row s1 q ≡ s1 q =
      for_loop-keeps border_row q ph py s1 (λ i t lo hi. border_row-keeps i x y t x0 x1) in
    ground (arith, x0, x1, y0, y1, columns, rows)

-- Before the snake and the food are put on it, the board is blank, and the line above the board is
-- the edge of the border from end to end: the texts for the score and the keys, which were written
-- to that line before, are not on the screen.
pub start_screen_lem :
    (x y : ℕ) (screen : ℕ → ℕ)
    → 1 ≤ x
    → x < 79
    → 2 ≤ y
    → y < 23
    → (start_screen screen (y * 80 + x) ≡ blank_cell) × (start_screen screen (80 + x) ≡ edge_cell)
unfolding start_screen vstr vclear
start_screen_lem x y screen x0 x1 y0 y1 =
    let q = y * 80 + x in
    let cleared = vclear-cell screen_cells 0 q screen in
    (
      draw_border-keeps x y _ x0 x1 y0 y1
          ∙ vput_list-keeps 30 1 _ 0x07 q _ (inr (omega (arith, y0)))
          ∙ vput_list-keeps 2 1 _ 0x0F q _ (inr (omega (arith, y0)))
          ∙ vput_list-keeps 36 0 _ 0x0E q _ (inr (omega (arith, y0)))
          ∙ cleared
          ∙ (ground (arith, y1, x1)),
      draw_border-edge x _ x0 x1,
    )
