-- ===== src/User/Snake.antt =====
-- user/snake.c: the snake game. The array of `slen` points is the list of those points, the head first.
-- The keys that a tick reads are a list; the sleep between two ticks has no effect on the game.
pub mod Inv
pub mod Screen
use yotos.Base.{
  ℕ, zero, suc, ◌+◌, ◌-◌, ◌*◌, ◌/◌, ◌%◌, ◌^◌, ◌≤◌, ◌<◌, ◌≡◌, refl, sym, ap, ◌∙◌, fun_ext, ◌≢◌, ◌↔◌,
  ◌⊎◌, inl, inr, Bool, true, false, not, ◌&&◌, ◌||◌, Option, none, some, List, [], ◌∷◌, ◌++◌, map,
  arith, bit_and, bit_or, bit_xor, ltb, leb, ◌==◌, if◌then◌else◌, update, min, max, bit, bit-lt,
  bit-bit_or, bit-bit_and, bit-pow, bit_and-pow_iff, bit-complement, bit_or-lt, bit-ones, pow-lt,
  bit_and-le, all_ones, Bool-cases, Option-cases, length, get_or, take, drop, for_loop,
  for_loop-zero, for_loop-suc, replicate, All, length-append, length-take, length-drop,
  length-replicate, u8, u16, u32, sub32, ==_iff, ltb→lt, lt→ltb, le→ltb, leb→le,
}

abbrev pub px : ℕ
px = 1

abbrev pub py : ℕ
py = 2

abbrev pub pw : ℕ
pw = 78

abbrev pub ph : ℕ
ph = 21

abbrev pub max_len : ℕ
max_len = 512

pub record Pt : Type 0 where
  pub x : ℕ
  pub y : ℕ

-- The four values that (dx, dy) takes.
pub data Direction : Type 0 where
  up : Direction
  down : Direction
  left : Direction
  right : Direction

pub record Game : Type 0 where
  pub snake : List Pt
  pub direction : Direction
  pub food : Pt
  pub score : ℕ
  pub seed : ℕ
  pub speed : ℕ
  pub screen : ℕ → ℕ

-- A cell of the VGA text buffer.
pub vput : (x y c col : ℕ) → (ℕ → ℕ) → ℕ → ℕ
vput x y c col screen = update screen (y * 80 + x) (bit_or (col * 2 ^ 8) (u8 c))

pub vput_list : (x y : ℕ) → List ℕ → ℕ → (ℕ → ℕ) → ℕ → ℕ
vput_list x y [] col screen = screen
vput_list x y (c ∷ cs) col screen = vput_list (x + 1) y cs col (vput x y c col screen)

-- The last digits of a number, `i` of them at most, in front of those that are there.
last_digits : (i n : ℕ) → List ℕ → List ℕ
last_digits zero n digits = digits
last_digits (suc i) n digits =
    let more = last_digits i (n / 10) ((48 + n % 10) ∷ digits) in if n == 0 then digits else more

pub vnum : (x y n col : ℕ) → (ℕ → ℕ) → ℕ → ℕ
vnum x y n col =
    let digits = if n == 0 then 48 ∷ [] else last_digits 5 n [] in
    vput_list x y (digits ++ replicate (5 - length digits) 32) col

-- `seed ^= seed << 13; seed ^= seed >> 17; seed ^= seed << 5;`
pub rng : ℕ → ℕ
rng seed =
    let a = bit_xor seed (u32 (seed * 2 ^ 13)) in
    let b = bit_xor a (a / 2 ^ 17) in bit_xor b (u32 (b * 2 ^ 5))

abbrev pub same_point : Pt → Pt → Bool
same_point p q = (p.x == q.x) && (p.y == q.y)

abbrev pub on_snake : Pt → List Pt → Bool
on_snake p [] = false
on_snake p (q ∷ qs) = same_point q p || on_snake p qs

-- The place of the food and the new seed; `none` means that the fuel ran out before a free place.
pub place_food : ℕ → List Pt → ℕ → Option (Pt × ℕ)
place_food zero snake seed = none
place_food (suc fuel) snake seed =
    let s1 = rng seed in
    let s2 = rng s1 in
    let p : Pt = record { x = px + s1 % pw; y = py + s2 % ph } in
    let again = place_food fuel snake s2 in if on_snake p snake then again else some (p, s2)

abbrev pub is_key : ℕ → ℕ → ℕ → Bool
is_key lower upper key = (key == lower) || (key == upper)

-- One key; a turn is taken only from the other axis.
unfoldable pub steer : ℕ → Direction → Direction
steer key up = if is_key b'a' b'A' key then left else if is_key b'd' b'D' key then right else up
steer key down = if is_key b'a' b'A' key then left else if is_key b'd' b'D' key then right else down
steer key left = if is_key b'w' b'W' key then up else if is_key b's' b'S' key then down else left
steer key right = if is_key b'w' b'W' key then up else if is_key b's' b'S' key then down else right

-- The keys of a tick; `none` is the exit of the program.
unfoldable pub drain : List ℕ → Direction → Option Direction
drain [] d = some d
drain (key ∷ keys) d =
    let rest = drain keys (steer key d) in if is_key b'q' b'Q' key then none else rest

-- The new head. A head inside the play area has no coordinate 0.
pub move : Direction → Pt → Pt
move up p = record { x = p.x; y = p.y - 1 }
move down p = record { x = p.x; y = p.y + 1 }
move left p = record { x = p.x - 1; y = p.y }
move right p = record { x = p.x + 1; y = p.y }

pub in_area : Pt → Bool
in_area p = leb px p.x && ltb p.x (px + pw) && leb py p.y && ltb p.y (py + ph)

-- All points but the last, and the last.
pub body : List Pt → List Pt
body [] = []
body (p ∷ []) = []
body (p ∷ q ∷ ps) = p ∷ body (q ∷ ps)

tail_of : Pt → List Pt → Pt
tail_of p [] = p
tail_of p (q ∷ qs) = tail_of q qs

-- What a tick leads to.
pub data Outcome : Type 0 where
  exits : Outcome
  game_over : Outcome
  continues : Game → Outcome

-- The food is eaten: the score, the speed and the next food.
pub feed : Pt → ℕ → Game → Game
feed food seed g = record g {
  score = u32 (g.score + 1);
  speed = if ltb 60 g.speed then g.speed - 4 else g.speed;
  food = food;
  seed = seed;
  screen = vput food.x food.y b'*' 0x0C (vnum 9 1 (u32 (g.score + 1)) 0x0F g.screen);
}

pub eat : ℕ → Game → Option Outcome
eat fuel g = elim (place_food fuel g.snake g.seed) [
  | none ↦ none
  | some (food, seed) ↦ some (continues (feed food seed g))
]

-- The move to the new head `nh`: the snake grows where it eats and has room.
pub advance : ℕ → Pt → Pt → List Pt → Game → Option Outcome
advance fuel nh head rest g =
    let ate = same_point nh g.food in
    let old_tail = tail_of head rest in
    let grown = if ate && ltb (length g.snake) max_len then nh ∷ g.snake else nh ∷ body g.snake in
    let cleared = if ate then g.screen else vput old_tail.x old_tail.y 32 0 g.screen in
    let g1 = record g { snake = grown; screen = vput nh.x nh.y b'#' 0x0A cleared } in
    let eaten = eat fuel g1 in if ate then eaten else some (continues g1)

-- One round of the game. A snake has a head.
pub step : ℕ → List ℕ → Game → Option Outcome
step fuel keys g = elim (drain keys g.direction) [
  | none ↦ some exits
  | some d ↦ elim g.snake [
    | [] ↦ some game_over
    | head ∷ rest ↦
        let nh = move d head in
        if not (in_area nh)
        then some game_over
        else if on_snake nh (body g.snake)
        then some game_over
        else advance fuel nh head rest (record g { direction = d })
  ]
]

-- Three points in the centre.
abbrev pub start_snake : List Pt
start_snake =
    let cx = px + pw / 2 in
    let cy = py + ph / 2 in
    record { x = cx; y = cy } ∷ record { x = cx - 1; y = cy } ∷ record { x = cx - 2; y = cy } ∷ []

draw_snake : List Pt → (ℕ → ℕ) → ℕ → ℕ
draw_snake [] screen = screen
draw_snake (p ∷ ps) screen = draw_snake ps (vput p.x p.y b'#' 0x0A screen)

-- The state before the first tick, on a screen that holds the border and the texts.
pub new_game : Pt → (seed : ℕ) → (ℕ → ℕ) → Game
new_game food seed screen = record {
  snake = start_snake;
  direction = right;
  food = food;
  score = 0;
  seed = seed;
  speed = 130;
  screen = vnum 9 1 0 0x0F (vput food.x food.y b'*' 0x0C (draw_snake start_snake screen));
}

pub start_game : ℕ → (seed : ℕ) → (ℕ → ℕ) → Option Game
start_game fuel seed screen = elim (place_food fuel start_snake seed) [
  | none ↦ none
  | some (food, s) ↦ some (new_game food s screen)
]

-- The loop of the game, with the keys of each tick.
pub run : ℕ → List (List ℕ) → Game → Option Outcome
run fuel [] g = some (continues g)
run fuel (keys ∷ ticks) g = elim (step fuel keys g) [
  | none ↦ none
  | some exits ↦ some exits
  | some game_over ↦ some game_over
  | some (continues g1) ↦ run fuel ticks g1
]

-- The program up to the end of the game or of the ticks.
pub play : ℕ → (seed : ℕ) → (ℕ → ℕ) → List (List ℕ) → Option Outcome
play fuel seed screen ticks = elim (start_game fuel seed screen) [
  | none ↦ none
  | some g ↦ run fuel ticks g
]
