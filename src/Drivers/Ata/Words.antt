-- ===== src/Drivers/Ata/Words.antt =====
-- The words of a buffer, and the bytes of words.
use yotos.Base.{
  ℕ, zero, suc, ◌+◌, ◌*◌, ◌/◌, ◌^◌, ◌<◌, ◌≡◌, refl, ap, List, [], ◌∷◌, arith, length, All, u8,
}
use yotos.Drivers.Ata.{bytes_of, words_of}

pub length-words_of : (n : ℕ) (buf : List ℕ) → length buf ≡ n + n → length (words_of buf) ≡ n
unfolding words_of
length-words_of zero [] h = refl
length-words_of zero (b ∷ buf) h = absurd (omega (arith, h))
length-words_of (suc n) [] h = absurd (omega (arith, h))
length-words_of (suc n) (b ∷ []) h = absurd (omega (arith, h))
length-words_of (suc n) (lo ∷ hi ∷ buf) h = ap suc (length-words_of n buf (omega (arith, h)))

pub bytes_of-words_of :
    (n : ℕ) (buf : List ℕ)
    → length buf ≡ n + n
    → All (λ b. b < 256) buf
    → bytes_of (words_of buf) ≡ buf
unfolding words_of bytes_of
bytes_of-words_of zero [] h k = refl
bytes_of-words_of zero (b ∷ buf) h k = absurd (omega (arith, h))
bytes_of-words_of (suc n) [] h k = absurd (omega (arith, h))
bytes_of-words_of (suc n) (b ∷ []) h k = absurd (omega (arith, h))
bytes_of-words_of (suc n) (lo ∷ hi ∷ buf) h (kl, (kh, k)) =
    let low : u8 (lo + hi * 2 ^ 8) ≡ lo = omega (arith, kl) in
    let high : u8 ((lo + hi * 2 ^ 8) / 2 ^ 8) ≡ hi = omega (arith, kl, kh) in
    rw (low, high, bytes_of-words_of n buf (omega (arith, h)) k) refl
