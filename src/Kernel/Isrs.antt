-- ===== src/Kernel/Isrs.antt =====
-- kernel/isrs.c: what the kernel prints when the processor raises an exception. It stops the processor
-- then, so that the text is all that a handler leaves.
pub mod Messages
pub mod Report
use yotos.Base.{
  ℕ, zero, suc, ◌++◌, Option, none, some, List, [], ◌∷◌, Bool, not, bit_and, ◌==◌, if◌then◌else◌,
}
use yotos.Klibc.{Arg, int, string, printf}
use yotos.Kernel.Isrs.Messages.{
  exception_messages, exception_text, protection, not_present, user_mode, kernel_mode,
}
use yotos.Kernel.Isrs.Messages

-- The fields of struct regs that the handlers read.
pub record Regs : Type 0 where
  pub vector : ℕ
  pub error_code : ℕ
  pub eip : ℕ
  pub cs : ℕ

-- An access behind the end of the table is `none`; what it reads is undefined in C.
abbrev pub message_at : ℕ → List (List ℕ) → Option (List ℕ)
message_at n [] = none
message_at zero (m ∷ ms) = some m
message_at (suc n) (m ∷ ms) = message_at n ms

unfoldable pub normal_exception_handler : ℕ → Option (List ℕ)
unfolding printf
normal_exception_handler interrupt_num = elim (message_at interrupt_num exception_messages) [
  | none ↦ none
  | some message ↦ some (printf exception_text (string message ∷ []))
]

-- The three words for the cause of a page fault.
unfoldable pub cause : (present write user : Bool) → List ℕ
unfolding printf
cause present write user =
    printf
      (b' ' ∷ b' ' ∷ b'c' ∷ b'a' ∷ b'u' ∷ b's' ∷ b'e' ∷ b':' ∷ b' ' ∷ b'%' ∷ b's' ∷ b' ' ∷ b'%'
        ∷ b's' ∷ b' ' ∷ b'%' ∷ b's' ∷ 10 ∷ [])
      (string (if present then protection else not_present)
        ∷ string (if write then Messages.write else Messages.read)
        ∷ string (if user then user_mode else kernel_mode)
        ∷ [])

-- `faulting_address` is the register CR2.
unfoldable pub page_fault_handler : (faulting_address error_code : ℕ) → Regs → List ℕ
unfolding cause
page_fault_handler faulting_address error_code r =
    let present = bit_and error_code 1 in
    let write = bit_and error_code 2 in
    let user = bit_and error_code 4 in
    printf
      (b'P' ∷ b'A' ∷ b'G' ∷ b'E' ∷ b' ' ∷ b'F' ∷ b'A' ∷ b'U' ∷ b'L' ∷ b'T' ∷ b' ' ∷ b'a' ∷ b't'
        ∷ b' ' ∷ b'%' ∷ b'x' ∷ 10 ∷ [])
      (int faulting_address ∷ [])
    ++ (cause (not (present == 0)) (not (write == 0)) (not (user == 0))
        ++ printf
            (b' ' ∷ b' ' ∷ b'e' ∷ b'i' ∷ b'p' ∷ b':' ∷ b' ' ∷ b'%' ∷ b'x' ∷ b' ' ∷ b' ' ∷ b'c'
              ∷ b's' ∷ b':' ∷ b' ' ∷ b'%' ∷ b'x' ∷ 10 ∷ [])
            (int r.eip ∷ int r.cs ∷ []))

unfoldable pub exception_handler : (faulting_address : ℕ) → Regs → Option (List ℕ)
unfolding normal_exception_handler page_fault_handler
exception_handler faulting_address r =
    if r.vector == 14
    then some (page_fault_handler faulting_address r.error_code r)
    else normal_exception_handler r.vector
