-- ===== src/User/Snake/Inv.antt =====
-- The invariant of the game.
use yotos.Base.{
  ℕ, zero, suc, ◌+◌, ◌%◌, ◌≤◌, ◌<◌, ◌≡◌, refl, ap, inl, inr, Bool, true, false, not, ◌&&◌, Option,
  none, some, List, [], ◌∷◌, arith, ltb, if◌then◌else◌, Bool-cases, length,
}
use yotos.User.Snake.{
  Pt, Direction, Game, Outcome, exits, game_over, continues, same_point, on_snake, place_food, rng,
  move, in_area, body, feed, eat, advance, drain, step, start_snake, new_game, start_game, run,
  play, px, py, pw, ph, max_len,
}

-- Different points.
abbrev pub Distinct : List Pt → Type 0
Distinct [] = Unit
Distinct (p ∷ ps) = (on_snake p ps ≡ false) × Distinct ps

abbrev pub Inside : List Pt → Type 0
Inside [] = Unit
Inside (p ∷ ps) = (in_area p ≡ true) × Inside ps

-- The snake has 1 to 512 points, which are different and lie in the play area, and the food lies in it
-- beside the snake.
pub record IsPlayable (g : Game) : Type 0 where
  pub some_points : 0 < length g.snake
  pub few_points : length g.snake ≤ max_len
  pub inside : Inside g.snake
  pub distinct : Distinct g.snake
  pub food_inside : in_area g.food ≡ true
  pub food_free : on_snake g.food g.snake ≡ false

-- What holds of the game after a tick, if it goes on.
abbrev pub GoesOn : Option Outcome → Type 0
GoesOn none = Unit
GoesOn (some exits) = Unit
GoesOn (some game_over) = Unit
GoesOn (some (continues g)) = IsPlayable g

body-Inside : (ps : List Pt) → Inside ps → Inside (body ps)
unfolding body
body-Inside [] h = tt
body-Inside (p ∷ []) h = tt
body-Inside (p ∷ q ∷ ps) h = (h.0, body-Inside (q ∷ ps) h.1)

on_snake-body : (p : Pt) (ps : List Pt) → on_snake p ps ≡ false → on_snake p (body ps) ≡ false
unfolding body
on_snake-body p [] h = refl
on_snake-body p (q ∷ []) h = refl
on_snake-body p (q ∷ r ∷ ps) h = ground (arith, on_snake-body p (r ∷ ps))

body-Distinct : (ps : List Pt) → Distinct ps → Distinct (body ps)
unfolding body
body-Distinct [] h = tt
body-Distinct (p ∷ []) h = tt
body-Distinct (p ∷ q ∷ ps) h = (on_snake-body p (q ∷ ps) h.0, body-Distinct (q ∷ ps) h.1)

length-body : (ps : List Pt) → 0 < length ps → suc (length (body ps)) ≡ length ps
unfolding body
length-body [] h = absurd (omega arith)
length-body (p ∷ []) h = refl
length-body (p ∷ q ∷ ps) h = ap suc (length-body (q ∷ ps) (omega arith))

-- A place for the food: inside the area and beside the snake.
abbrev IsFree : List Pt → Option (Pt × ℕ) → Type 0
IsFree ps none = Unit
IsFree ps (some (p, seed)) = (in_area p ≡ true) × (on_snake p ps ≡ false)

place_food-IsFree : (fuel : ℕ) (ps : List Pt) (seed : ℕ) → IsFree ps (place_food fuel ps seed)
unfolding place_food in_area
place_food-IsFree zero ps seed = tt
place_food-IsFree (suc fuel) ps seed =
    let s1 = rng seed in
    let s2 = rng s1 in
    let p : Pt = record { x = px + s1 % pw; y = py + s2 % ph } in
    elim (Bool-cases (on_snake p ps)) [
      | inl taken ↦ rw taken (place_food-IsFree fuel ps s2)
      | inr free ↦ rw free (ground arith, free)
    ]

eat-GoesOn :
    (fuel : ℕ) (g : Game)
    → 0 < length g.snake
    → length g.snake ≤ max_len
    → Inside g.snake
    → Distinct g.snake
    → GoesOn (eat fuel g)
unfolding eat feed
eat-GoesOn fuel g some_points few_points inside distinct =
    placed (place_food fuel g.snake g.seed) (place_food-IsFree fuel g.snake g.seed)
  where
    placed :
        (r : Option (Pt × ℕ))
        → IsFree g.snake r
        → GoesOn (elim r [ none ↦ none | some (food, seed) ↦ some (continues (feed food seed g)) ])
    placed none k = tt
    placed (some (food, seed)) k = record {
      some_points = some_points;
      few_points = few_points;
      inside = inside;
      distinct = distinct;
      food_inside = k.0;
      food_free = k.1;
    }

GoesOn-if :
    (b : Bool) (x y : Option Outcome)
    → (b ≡ true → GoesOn x)
    → (b ≡ false → GoesOn y)
    → GoesOn (if b then x else y)
GoesOn-if true x y h k = h refl
GoesOn-if false x y h k = k refl

on_snake-same_point :
    (p q : Pt) (ps : List Pt) → same_point p q ≡ true → on_snake p ps ≡ on_snake q ps
on_snake-same_point p q [] h = refl
on_snake-same_point p q (r ∷ ps) h = ground (arith, on_snake-same_point p q ps h)

-- The snake behind a new head that is inside and free.
module _ (nh : Pt) (ps : List Pt) (here : in_area nh ≡ true) (free : on_snake nh (body ps) ≡ false)
    (inside : Inside ps) (distinct : Distinct ps) (some_points : 0 < length ps)
    (few : length ps ≤ max_len) where
  pub longer :
      (b : Bool)
      → (b ≡ true → (on_snake nh ps ≡ false) × (length ps < max_len))
      → let l = if b then nh ∷ ps else nh ∷ body ps in
        (0 < length l) × (length l ≤ max_len) × Inside l × Distinct l
  longer true h = (omega arith, omega (arith, (h refl).1), (here, inside), ((h refl).0, distinct))
  longer false h = (
    omega arith,
    omega (arith, length-body ps some_points, few),
    (here, body-Inside ps inside),
    (free, body-Distinct ps distinct),
  )

advance-GoesOn :
    (fuel : ℕ) (nh head : Pt) (rest : List Pt) (g : Game)
    → IsPlayable g
    → in_area nh ≡ true
    → on_snake nh (body g.snake) ≡ false
    → GoesOn (advance fuel nh head rest g)
unfolding advance
advance-GoesOn fuel nh head rest g r here free =
    let ate = same_point nh g.food in
    let grows = ate && ltb (length g.snake) max_len in
    let grown : (0 < length _) × (length _ ≤ max_len) × Inside _ × Distinct _ =
      longer nh g.snake here free r.inside r.distinct r.some_points r.few_points grows
        (λ b. ground (arith, b, on_snake-same_point nh g.food g.snake, r.food_free)) in
    GoesOn-if ate _ _ (λ e. eat-GoesOn fuel _ grown.0 grown.1 grown.2 grown.3)
      (λ e. record {
        some_points = grown.0;
        few_points = grown.1;
        inside = grown.2;
        distinct = grown.3;
        food_inside = r.food_inside;
        food_free = ground (arith, e, on_snake-body g.food g.snake r.food_free);
      })

step-GoesOn : (fuel : ℕ) (keys : List ℕ) (g : Game) → IsPlayable g → GoesOn (step fuel keys g)
unfolding step
step-GoesOn fuel keys g r =
    elim (drain keys g.direction)
      as (λ k. GoesOn (elim k [ none ↦ some exits | some d ↦ moved d g.snake ])) [
        | none ↦ tt
        | some d ↦ moved-GoesOn d g.snake
      ]
  where
    moved : Direction → List Pt → Option Outcome
    moved d ps = elim ps [
      | [] ↦ some game_over
      | head ∷ rest ↦
          let nh = move d head in
          if not (in_area nh)
          then some game_over
          else if on_snake nh (body g.snake)
          then some game_over
          else advance fuel nh head rest (record g { direction = d })
    ]

    turned : (d : Direction) → IsPlayable (record g { direction = d })
    turned d = record {
      some_points = r.some_points;
      few_points = r.few_points;
      inside = r.inside;
      distinct = r.distinct;
      food_inside = r.food_inside;
      food_free = r.food_free;
    }

    moved-GoesOn : (d : Direction) (ps : List Pt) → GoesOn (moved d ps)
    moved-GoesOn d [] = tt
    moved-GoesOn d (head ∷ rest) =
        let nh = move d head in
        GoesOn-if (not (in_area nh)) (some game_over) _ (λ _. tt)
          (λ inside.
            GoesOn-if (on_snake nh (body g.snake)) (some game_over) _ (λ _. tt)
              (λ free.
                advance-GoesOn fuel nh head rest (record g { direction = d }) (turned d)
                  (ground (arith, inside)) free))

run-GoesOn :
    (fuel : ℕ) (ticks : List (List ℕ)) (g : Game) → IsPlayable g → GoesOn (run fuel ticks g)
unfolding run
run-GoesOn fuel [] g r = r
run-GoesOn fuel (keys ∷ ticks) g r =
    after (run-GoesOn fuel ticks) (step fuel keys g) (step-GoesOn fuel keys g r)
  where
    after :
        ((g1 : Game) → IsPlayable g1 → GoesOn (run fuel ticks g1))
        → (o : Option Outcome) → GoesOn o
        → GoesOn (elim o [
          | none ↦ none
          | some exits ↦ some exits
          | some game_over ↦ some game_over
          | some (continues g1) ↦ run fuel ticks g1
        ])
    after _ none k = tt
    after _ (some exits) k = tt
    after _ (some game_over) k = tt
    after next (some (continues g1)) k = next g1 k

new_game-IsPlayable :
    (food : Pt) (seed : ℕ) (screen : ℕ → ℕ)
    → (in_area food ≡ true) × (on_snake food start_snake ≡ false)
    → IsPlayable (new_game food seed screen)
unfolding new_game in_area
new_game-IsPlayable food seed screen k = record {
  some_points = omega arith;
  few_points = omega arith;
  inside = (refl, (refl, (refl, tt)));
  distinct = (refl, (refl, (refl, tt)));
  food_inside = k.0;
  food_free = k.1;
}

-- Whatever keys are pressed, as long as the game goes on the snake has 1 to 512 different points of the
-- play area, and the food lies in the area beside it; this holds from the start of the program, for
-- every seed.
pub play-GoesOn :
    (fuel seed : ℕ) (screen : ℕ → ℕ) (ticks : List (List ℕ)) → GoesOn (play fuel seed screen ticks)
unfolding play start_game
play-GoesOn fuel seed screen ticks =
    started (place_food fuel start_snake seed) (place_food-IsFree fuel start_snake seed)
  where
    begin : Option (Pt × ℕ) → Option Game
    begin r = elim r [ none ↦ none | some (food, s) ↦ some (new_game food s screen) ]

    started :
        (r : Option (Pt × ℕ))
        → IsFree start_snake r
        → GoesOn (elim (begin r) [ none ↦ none | some g ↦ run fuel ticks g ])
    started none k = tt
    started (some (food, s)) k =
        run-GoesOn fuel ticks (new_game food s screen) (new_game-IsPlayable food s screen k)
