-- ===== src/Drivers.antt =====
-- The drivers: drivers/vga.c, drivers/keyboard.c and drivers/timer.c.
pub mod Ata
pub mod Vga
pub mod Keyboard
pub mod Timer
mod Tests
