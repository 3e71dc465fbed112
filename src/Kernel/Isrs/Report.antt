-- ===== src/Kernel/Isrs/Report.antt =====
-- What the report of an exception tells.
use yotos.Base.{
  ℕ, zero, suc, ◌^◌, ◌≤◌, ◌<◌, ◌≡◌, refl, sym, ap, ◌∙◌, ◌≢◌, ◌↔◌, Bool, true, false, not, none,
  some, List, [], ◌∷◌, ◌++◌, arith, bit_and, ◌==◌, if◌then◌else◌, length, get_or, drop, u32,
  get_or-append,
}
use native.Mathlib.Decide.{dec_lt, ℕ_discrete}
use yotos.Klibc.{string, printf, convert, print_hex}
use yotos.Kernel.Isrs.{
  Regs, message_at, normal_exception_handler, cause, page_fault_handler, exception_handler,
}
use yotos.Kernel.Isrs.Messages.{
  exception_messages, exception_text, protection, not_present, user_mode, kernel_mode,
}
use yotos.Kernel.Isrs.Messages
use yotos.Klibc.Numbers.{read_hex, read_hex-print_hex}

message_at-some :
    (n : ℕ) (ms : List (List ℕ)) → n < length ms → (m : List ℕ) × (message_at n ms ≡ some m)
message_at-some n [] h = absurd (omega (arith, h))
message_at-some zero (m ∷ ms) h = (m, refl)
message_at-some (suc n) (m ∷ ms) h = message_at-some n ms (omega (arith, h))

message_at-none : (n : ℕ) (ms : List (List ℕ)) → length ms ≤ n → message_at n ms ≡ none
message_at-none n [] h = refl
message_at-none zero (m ∷ ms) h = absurd (omega (arith, h))
message_at-none (suc n) (m ∷ ms) h = message_at-none n ms (omega (arith, h))

normal_some : (n : ℕ) → n < 32 → (text : List ℕ) × (normal_exception_handler n ≡ some text)
unfolding normal_exception_handler
normal_some n h =
    let (message, e) = message_at-some n exception_messages h in
    (printf exception_text (string message ∷ []), rw (normal_exception_handler, e) refl)

normal_none : (n : ℕ) → 32 ≤ n → normal_exception_handler n ≡ none
unfolding normal_exception_handler
normal_none n h = rw (normal_exception_handler, message_at-none n exception_messages h) refl

append_cancel :
    {A : Type 0} (xs ys us vs : List A)
    → length xs ≡ length ys
    → xs ++ us ≡ ys ++ vs
    → (xs ≡ ys) × (us ≡ vs)
append_cancel [] [] us vs h e = (refl, e)
append_cancel [] (y ∷ ys) us vs h e = absurd (omega (arith, h))
append_cancel (x ∷ xs) [] us vs h e = absurd (omega (arith, h))
append_cancel (x ∷ xs) (y ∷ ys) us vs h e =
    let rest = append_cancel xs ys us vs (omega (arith, h)) (cc e) in (cc (e, rest.0), rest.1)

-- A word that is one of two, told by its first letter.
word_cancel :
    (x y : List ℕ) (b b' : Bool) (s t : List ℕ)
    → 0 < length x
    → 0 < length y
    → get_or x 0 0 ≢ get_or y 0 0
    → (if b then x else y) ++ s ≡ (if b' then x else y) ++ t
    → (b ≡ b') × (s ≡ t)
word_cancel x y true true s t hx hy n e = (refl, (append_cancel x x s t refl e).1)
word_cancel x y false false s t hx hy n e = (refl, (append_cancel y y s t refl e).1)
word_cancel x y true false s t hx hy n e =
    absurd
      (n (sym (get_or-append x s 0 0 hx) ∙ ap (λ l. get_or l 0 0) e ∙ get_or-append y t 0 0 hy))
word_cancel x y false true s t hx hy n e =
    absurd (
      n (
        sym (get_or-append x t 0 0 hx) ∙ ap (λ l. get_or l 0 0) (sym e) ∙ get_or-append y s 0 0 hy))

hex_cancel :
    (a b : ℕ) (s t : List ℕ)
    → a < 2 ^ 32
    → b < 2 ^ 32
    → print_hex a ++ s ≡ print_hex b ++ t
    → (a ≡ b) × (s ≡ t)
hex_cancel a b s t ha hb e =
    let (_, la, ra) = read_hex-print_hex a ha in
    let (_, lb, rb) = read_hex-print_hex b hb in
    let (same, rest) = append_cancel (print_hex a) (print_hex b) s t (la ∙ sym lb) e in
    (sym ra ∙ ap (λ l. read_hex 0 (drop 2 l)) same ∙ rb, rest)

abbrev cause_text : List ℕ
cause_text = b' ' ∷ b' ' ∷ b'c' ∷ b'a' ∷ b'u' ∷ b's' ∷ b'e' ∷ b':' ∷ b' ' ∷ []

cause_words :
    (p w u : Bool) (s : List ℕ)
    → cause p w u ++ s
      ≡ cause_text
        ++ ((if p then protection else not_present)
            ++ (b' '
                ∷ ((if w then Messages.write else Messages.read)
                    ++ (b' ' ∷ ((if u then user_mode else kernel_mode) ++ (10 ∷ s))))))
unfolding cause printf convert
cause_words true true true s = refl
cause_words true true false s = refl
cause_words true false true s = refl
cause_words true false false s = refl
cause_words false true true s = refl
cause_words false true false s = refl
cause_words false false true s = refl
cause_words false false false s = refl

cause_cancel :
    (p w u p' w' u' : Bool) (s t : List ℕ)
    → cause p w u ++ s ≡ cause p' w' u' ++ t
    → (p ≡ p') × (w ≡ w') × (u ≡ u') × (s ≡ t)
cause_cancel p w u p' w' u' s t e =
    let e' = sym (cause_words p w u s) ∙ e ∙ cause_words p' w' u' t in
    let (_, present) = append_cancel cause_text cause_text _ _ refl e' in
    let (is_present, r1) =
      word_cancel protection not_present p p' _ _ (omega arith) (omega arith) (ground arith)
        present in
    let (is_write, r2) =
      word_cancel Messages.write Messages.read w w' _ _ (omega arith) (omega arith) (ground arith)
        (ap (drop 1) r1) in
    let (is_user, r3) =
      word_cancel user_mode kernel_mode u u' _ _ (omega arith) (omega arith) (ground arith)
        (ap (drop 1) r2) in
    (is_present, is_write, is_user, ap (drop 1) r3)

abbrev fault_text : List ℕ
fault_text =
    b'P' ∷ b'A' ∷ b'G' ∷ b'E' ∷ b' ' ∷ b'F' ∷ b'A' ∷ b'U' ∷ b'L' ∷ b'T' ∷ b' ' ∷ b'a' ∷ b't' ∷ b' '
    ∷ []

abbrev eip_text : List ℕ
eip_text = b' ' ∷ b' ' ∷ b'e' ∷ b'i' ∷ b'p' ∷ b':' ∷ b' ' ∷ []

abbrev cs_text : List ℕ
cs_text = b' ' ∷ b' ' ∷ b'c' ∷ b's' ∷ b':' ∷ b' ' ∷ []

-- What the registers hold, and the line of the cause in between.
report : (a e eip cs : ℕ) → List ℕ
report a e eip cs =
    fault_text
    ++ (print_hex a
        ++ (10
            ∷ (cause (not (bit_and e 1 == 0)) (not (bit_and e 2 == 0)) (not (bit_and e 4 == 0))
                ++ (eip_text ++ (print_hex eip ++ (cs_text ++ (print_hex cs ++ (10 ∷ []))))))))

page_fault_handler-report :
    (a e : ℕ) (r : Regs)
    → a < 2 ^ 32
    → r.eip < 2 ^ 32
    → r.cs < 2 ^ 32
    → page_fault_handler a e r ≡ report a e r.eip r.cs
unfolding page_fault_handler report printf convert print_hex
page_fault_handler-report a e r ha he hc =
    let small : (n : ℕ) → n < 2 ^ 32 → u32 n ≡ n = λ n h. omega (arith, h) in
    rw (small a ha, small r.eip he, small r.cs hc) refl

report_cancel :
    (a e eip cs a' e' eip' cs' : ℕ)
    → (a < 2 ^ 32) × (eip < 2 ^ 32) × (cs < 2 ^ 32)
    → (a' < 2 ^ 32) × (eip' < 2 ^ 32) × (cs' < 2 ^ 32)
    → report a e eip cs ≡ report a' e' eip' cs'
    → (a ≡ a')
      × (not (bit_and e 1 == 0) ≡ not (bit_and e' 1 == 0))
      × (not (bit_and e 2 == 0) ≡ not (bit_and e' 2 == 0))
      × (not (bit_and e 4 == 0) ≡ not (bit_and e' 4 == 0))
      × (eip ≡ eip')
      × (cs ≡ cs')
unfolding report
report_cancel a e eip cs a' e' eip' cs' (ha, he, hc) (ha', he', hc') same =
    let (_, r1) = append_cancel fault_text fault_text _ _ refl same in
    let (address, r2) = hex_cancel a a' _ _ ha ha' r1 in
    let (present, write, user, r3) = cause_cancel _ _ _ _ _ _ _ _ (ap (drop 1) r2) in
    let (_, r4) = append_cancel eip_text eip_text _ _ refl r3 in
    let (same_eip, r5) = hex_cancel eip eip' _ _ he he' r4 in
    let (_, r6) = append_cancel cs_text cs_text _ _ refl r5 in
    let (same_cs, _) = hex_cancel cs cs' _ _ hc hc' r6 in
    (address, present, write, user, same_eip, same_cs)

-- The registers of a page fault hold 32 bits.
unfoldable pub FitsWords : (faulting_address : ℕ) → Regs → Type 0
FitsWords faulting_address r = (faulting_address < 2 ^ 32) × (r.eip < 2 ^ 32) × (r.cs < 2 ^ 32)

page_fault_case :
    (a : ℕ) (r : Regs)
    → r.vector ≡ 14
    → exception_handler a r ≡ some (page_fault_handler a r.error_code r)
unfolding exception_handler
page_fault_case a r h = let yes14 : (r.vector == 14) ≡ true = ground (arith, h) in rw yes14 refl

other_case :
    (a : ℕ) (r : Regs) → r.vector ≢ 14 → exception_handler a r ≡ normal_exception_handler r.vector
unfolding exception_handler
other_case a r h = let not14 : (r.vector == 14) ≡ false = ground (arith, h) in rw not14 refl

inside : (a : ℕ) (r : Regs) → r.vector < 32 → (text : List ℕ) × (exception_handler a r ≡ some text)
inside a r h = elim (ℕ_discrete r.vector 14) [
  | yes e ↦ (page_fault_handler a r.error_code r, page_fault_case a r e)
  | no n ↦ let (text, e) = normal_some r.vector h in (text, other_case a r n ∙ e)
]

outside : (a : ℕ) (r : Regs) → 32 ≤ r.vector → exception_handler a r ≡ none
outside a r h = other_case a r (λ e. omega (arith, e, h)) ∙ normal_none r.vector h

-- Two page faults with the same report have the same address, the same three bits of the cause
-- and the same place in the code, when the registers hold 32 bits.
pub exception_handler-told_apart :
    (a a' : ℕ) (r r' : Regs)
    → r.vector ≡ 14
    → r'.vector ≡ 14
    → FitsWords a r
    → FitsWords a' r'
    → exception_handler a r ≡ exception_handler a' r'
    → (a ≡ a')
      × (not (bit_and r.error_code 1 == 0) ≡ not (bit_and r'.error_code 1 == 0))
      × (not (bit_and r.error_code 2 == 0) ≡ not (bit_and r'.error_code 2 == 0))
      × (not (bit_and r.error_code 4 == 0) ≡ not (bit_and r'.error_code 4 == 0))
      × (r.eip ≡ r'.eip)
      × (r.cs ≡ r'.cs)
unfolding FitsWords
exception_handler-told_apart a a' r r' hv hv' fits fits' same =
    let text : page_fault_handler a r.error_code r ≡ page_fault_handler a' r'.error_code r' =
      cc (sym (page_fault_case a r hv) ∙ same ∙ page_fault_case a' r' hv') in
    report_cancel a r.error_code r.eip r.cs a' r'.error_code r'.eip r'.cs fits fits' (
      sym (page_fault_handler-report a r.error_code r fits.0 fits.1 fits.2)
      ∙ text
      ∙ page_fault_handler-report a' r'.error_code r' fits'.0 fits'.1 fits'.2)

-- An exception handler reads behind the table of messages exactly for the vectors from 32 on; below
-- them it prints a report.
pub exception_handler-none_iff :
    (a : ℕ) (r : Regs) → (exception_handler a r ≡ none) ↔ (32 ≤ r.vector)
exception_handler-none_iff a r = (behind, outside a r)
  where
    behind : exception_handler a r ≡ none → 32 ≤ r.vector
    behind e = elim (dec_lt r.vector 32) [
      | yes h ↦ absurd (cc (e, (inside a r h).1))
      | no n ↦ omega (arith, n)
    ]
