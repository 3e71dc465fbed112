-- ===== src/Klibc/Tests.antt =====
-- The library of strings and numbers on short inputs.
