-- ===== src/User/Tests.antt =====
-- A short game.
use yotos.Base.{◌+◌, ◌*◌, ◌≡◌, refl, some, [], ◌∷◌, arith}
use yotos.User.Snake.Screen.{blank_cell, edge_cell, start_screen, start_screen_lem}
use yotos.User.Snake.{Direction, drain, steer, play}
use yotos.User.Snake.Inv.{GoesOn, play-GoesOn}

play-GoesOn_example : GoesOn (play 10 0xDEADBEEF (λ _. 0) ([] ∷ (b'w' ∷ []) ∷ (b'a' ∷ []) ∷ []))
play-GoesOn_example = play-GoesOn 10 0xDEADBEEF (λ _. 0) ([] ∷ (b'w' ∷ []) ∷ (b'a' ∷ []) ∷ [])

-- Two keys in one tick turn the snake round, into itself.
turned_round : drain (b'w' ∷ b'a' ∷ []) Direction.right ≡ some Direction.left
unfolding drain steer
turned_round = refl

start_screen_lem_example :
    (start_screen (λ _. 0) (12 * 80 + 40) ≡ blank_cell)
    × (start_screen (λ _. 0) (80 + 40) ≡ edge_cell)
start_screen_lem_example =
    start_screen_lem 40 12 (λ _. 0) (omega arith) (omega arith) (omega arith) (omega arith)
