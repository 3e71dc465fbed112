-- ===== src/Kernel/Tests.antt =====
-- The processor's tables, built from blank ones.
use yotos.Base.{ℕ, ◌≤◌, ◌≡◌, refl, ◌↔◌, false, not, none, [], arith, bit_and, ◌==◌}
use yotos.Kernel.Isrs.{Regs, exception_handler}
use yotos.Kernel.Isrs.Report.{FitsWords, exception_handler-none_iff, exception_handler-told_apart}
use yotos.Kernel.Irq.{Pic}
use yotos.Kernel.Irq.Lines.{IsByte}
use yotos.Kernel.Gdt.{Gdt}
use yotos.Kernel.Idt.{Idt}

abbrev pic : Pic
pic = record { irq_handlers = λ _. 0; masks = λ _. 0xFF; ports = [] }

pic-IsByte : IsByte pic
unfolding IsByte
pic-IsByte = (omega arith, omega arith)

abbrev gdt : Gdt
gdt = record { gdt = λ _. 0; next = 0 }

abbrev idt : Idt
idt = record {
  idt = λ _. record { isr_low = 0; kernel_cs = 0; reserved = 0; attributes = 0; isr_high = 0 };
  vectors = λ _. false;
}

abbrev timer_vector : ℕ
timer_vector = 33

abbrev read_fault : Regs
read_fault = record { vector = 14; error_code = 4; eip = 0x400012; cs = 0x1B }

exception_handler-none_iff_example :
    (exception_handler 0 (record read_fault { vector = 40 }) ≡ none) ↔ (32 ≤ 40)
exception_handler-none_iff_example =
    exception_handler-none_iff 0 (record read_fault { vector = 40 })

abbrev reserved_bit : Regs
reserved_bit = record read_fault { error_code = 12 }

abbrev address : ℕ
address = 0xBEEF

exception_handler-told_apart_example :
    (address ≡ address)
    × (not (bit_and read_fault.error_code 1 == 0) ≡ not (bit_and reserved_bit.error_code 1 == 0))
    × (not (bit_and read_fault.error_code 2 == 0) ≡ not (bit_and reserved_bit.error_code 2 == 0))
    × (not (bit_and read_fault.error_code 4 == 0) ≡ not (bit_and reserved_bit.error_code 4 == 0))
    × (read_fault.eip ≡ reserved_bit.eip)
    × (read_fault.cs ≡ reserved_bit.cs)
unfolding FitsWords exception_handler
exception_handler-told_apart_example =
    exception_handler-told_apart address address read_fault reserved_bit refl refl
      (omega arith, omega arith, omega arith) (omega arith, omega arith, omega arith) refl
