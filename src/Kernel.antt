-- ===== src/Kernel.antt =====
-- The processor's tables and exceptions: kernel/irq.c, kernel/isrs.c, kernel/idt.c, kernel/gdt.c and kernel/tss.c.
pub mod Irq
pub mod Gdt
pub mod Idt
pub mod Isrs
mod Tests
