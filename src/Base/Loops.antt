-- ===== src/Base/Loops.antt =====
-- The counting loop `for (i = first; i < first + n; i++)`.
use Prim.Native.Nat.{ℕ, zero, suc}
use mathlib.Core.Path.{◌≡◌, refl}

unfoldable pub for_loop {ℓ} : {A : Type ℓ} → (n first : ℕ) → (ℕ → A → A) → A → A
for_loop zero first body s = s
for_loop (suc n) first body s = for_loop n (suc first) body (body first s)

module _ {ℓ} {A : Type ℓ} (body : ℕ → A → A) (first : ℕ) (s : A) where
  pub for_loop-zero : for_loop 0 first body s ≡ s
  unfolding for_loop
  for_loop-zero = refl

  pub for_loop-suc :
      (n : ℕ) → for_loop (suc n) first body s ≡ for_loop n (suc first) body (body first s)
  unfolding for_loop
  for_loop-suc n = refl
