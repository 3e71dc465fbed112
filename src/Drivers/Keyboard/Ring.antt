-- ===== src/Drivers/Keyboard/Ring.antt =====
-- The ring of the keyboard as a queue of the characters that are typed and not yet read.
use yotos.Base.{
  ℕ, zero, suc, ◌+◌, ◌-◌, ◌≤◌, ◌<◌, ◌≡◌, refl, sym, ap, ◌∙◌, ◌≢◌, ◌⊎◌, inl, inr, Bool, true, false,
  List, [], ◌∷◌, ◌++◌, arith, bit_and, ◌==◌, update, bit, bit_and-pow_iff, Bool-cases, length, u8,
}
use yotos.Drivers.Keyboard.{Keyboard, key_char, push_key, keyboard_handler, keyboard_getchar}

-- The n characters of the ring from the index h on.
unfoldable pub slots : ℕ → ℕ → (ℕ → ℕ) → List ℕ
slots zero h buffer = []
slots (suc n) h buffer = buffer h ∷ slots n (u8 (h + 1)) buffer

abbrev pub count : Keyboard → ℕ
count s = u8 (s.buf_tail + 256 - s.buf_head)

-- What is typed and not yet read, the oldest first.
unfoldable pub pending : Keyboard → List ℕ
unfolding slots
pending s = slots (count s) s.buf_head s.key_buffer

-- Both indices are of the type uint8_t.
unfoldable pub Fits : Keyboard → Type 0
Fits s = (s.buf_head < 256) × (s.buf_tail < 256)

slots-frame :
    (n h t c : ℕ) (buffer : ℕ → ℕ)
    → h < 256
    → t < 256
    → n ≤ u8 (t + 256 - h)
    → slots n h (update buffer t c) ≡ slots n h buffer
unfolding slots
slots-frame zero h t c buffer p q le = refl
slots-frame (suc n) h t c buffer p q le =
    let ih = slots-frame n (u8 (h + 1)) t c buffer (omega arith) q (omega arith) in
    let head : update buffer t c h ≡ buffer h = ground arith in rw (head, ih) refl

length-slots : (n h : ℕ) (buffer : ℕ → ℕ) → length (slots n h buffer) ≡ n
unfolding slots
length-slots zero h buffer = refl
length-slots (suc n) h buffer = ap suc (length-slots n (u8 (h + 1)) buffer)

slots-last :
    (n h : ℕ) (buffer : ℕ → ℕ)
    → h < 256
    → slots (suc n) h buffer ≡ slots n h buffer ++ (buffer (u8 (h + n)) ∷ [])
unfolding slots
slots-last zero h buffer p = let e : u8 (h + 0) ≡ h = omega arith in rw e refl
slots-last (suc n) h buffer p =
    let e : u8 (u8 (h + 1) + n) ≡ u8 (h + suc n) = omega arith in
    ap (λ t. buffer h ∷ t)
      (slots-last n (u8 (h + 1)) buffer (omega arith)
        ∙ ap (λ (i : ℕ). slots n (u8 (h + 1)) buffer ++ (buffer i ∷ [])) e)

-- While fewer than 255 characters wait, a typed character goes to their end.
push_key-pending :
    (c : ℕ) (s : Keyboard)
    → Fits s
    → length (pending s) < 255
    → (pending (push_key c s) ≡ pending s ++ (c ∷ [])) × Fits (push_key c s)
unfolding pending push_key Fits slots
push_key-pending c s (p, q) room =
    let n = count s in
    let lt : n < 255 = rw (sym (length-slots n s.buf_head s.key_buffer)) room in
    let more : u8 (u8 (s.buf_tail + 1) + 256 - s.buf_head) ≡ suc n = omega arith in
    let last : u8 (s.buf_head + n) ≡ s.buf_tail = omega arith in
    let buffer = update s.key_buffer s.buf_tail c in
    let new : buffer s.buf_tail ≡ c = ground arith in
    let frame = slots-frame n s.buf_head s.buf_tail c s.key_buffer p q (omega arith) in
    (
      ap (λ k. slots k s.buf_head buffer) more
          ∙ slots-last n s.buf_head buffer p
          ∙ ap (λ i. slots n s.buf_head buffer ++ (buffer i ∷ [])) last
          ∙ ap (λ l. l ++ (buffer s.buf_tail ∷ [])) frame
          ∙ ap (λ x. pending s ++ (x ∷ [])) new,
      (p, omega arith),
    )

-- When 255 characters wait, in a ring whose indices are bytes, one more typed character loses all
-- of them.
pub push_key-overflow :
    (c : ℕ) (s : Keyboard) → Fits s → length (pending s) ≡ 255 → pending (push_key c s) ≡ []
unfolding pending push_key Fits slots
push_key-overflow c s (p, q) full =
    let same : count s ≡ 255 = sym (length-slots (count s) s.buf_head s.key_buffer) ∙ full in
    let empty : u8 (u8 (s.buf_tail + 1) + 256 - s.buf_head) ≡ 0 = omega arith in
    ap (λ k. slots k s.buf_head (update s.key_buffer s.buf_tail c)) empty

-- In a ring whose indices are bytes `keyboard_getchar` answers 0 and changes nothing when no
-- character waits, and else takes the oldest waiting character.
pub keyboard_getchar-pending :
    (s : Keyboard)
    → Fits s
    → (pending s ≡ [] × keyboard_getchar s ≡ (0, s))
      ⊎ (pending s ≡ (keyboard_getchar s).0 ∷ pending (keyboard_getchar s).1
          × Fits (keyboard_getchar s).1)
unfolding pending keyboard_getchar Fits slots
keyboard_getchar-pending s (p, q) = elim (Bool-cases (s.buf_head == s.buf_tail)) [
  | inl e ↦
      let none_left : count s ≡ 0 = ground arith in
      inl (ap (λ k. slots k s.buf_head s.key_buffer) none_left, rw e refl)
  | inr e ↦
      let left = u8 (s.buf_tail + 256 - u8 (s.buf_head + 1)) in
      let one_more : count s ≡ suc left = ground arith in
      inr (rw e (ap (λ k. slots k s.buf_head s.key_buffer) one_more, (omega arith, q)))
]

-- The keys for shift and control have no character.
modifier :
    (scancode : ℕ) (s : Keyboard)
    → (scancode ≡ 0x1D) ⊎ ((scancode ≡ 0x2A) ⊎ (scancode ≡ 0x36))
    → key_char scancode s ≡ 0
unfolding key_char
modifier scancode s (inl e) = rw e (ground arith)
modifier scancode s (inr (inl e)) = rw e (ground arith)
modifier scancode s (inr (inr e)) = rw e (ground arith)

bit_seven : (n : ℕ) → n < 58 → bit 7 n ≡ 0
unfolding bit
bit_seven n h = omega arith

handler_pushes :
    (running : Bool) (scancode : ℕ) (s : Keyboard)
    → scancode < 58
    → key_char scancode s ≢ 0
    → (s.ctrl ≡ 0) ⊎ (scancode ≢ 0x2E)
    → keyboard_handler running scancode s ≡ (push_key (key_char scancode s) s, false)
unfolding keyboard_handler
handler_pushes running scancode s lt key free =
    let high : (bit_and scancode 0x80 == 0) ≡ true =
      (bit_and-pow_iff 7 scancode).1 (bit_seven scancode lt) in
    ground (arith, high, modifier scancode s)

-- In a ring whose indices are bytes, a key that has a character, under the shift and caps lock in
-- force, and is not Ctrl+C, puts that character at the end of the waiting ones, while fewer than
-- 255 wait; no process is killed.
pub keyboard_handler-pending :
    (running : Bool) (scancode : ℕ) (s : Keyboard)
    → Fits s
    → scancode < 58
    → key_char scancode s ≢ 0
    → (s.ctrl ≡ 0) ⊎ (scancode ≢ 0x2E)
    → length (pending s) < 255
    → (pending (keyboard_handler running scancode s).0 ≡ pending s ++ (key_char scancode s ∷ []))
      × ((keyboard_handler running scancode s).1 ≡ false)
keyboard_handler-pending running scancode s fits lt key free room =
    rw (handler_pushes running scancode s lt key free)
      ((push_key-pending (key_char scancode s) s fits room).0, refl)
