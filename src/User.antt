-- ===== src/User.antt =====
-- The programs of user/.
pub mod Snake
mod Tests
