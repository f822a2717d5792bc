-- ===== src/TwoDc.antt =====
-- The structures with one window for both kinds of operation: include/2Dc-window.c,
-- src/2Dc-counter and src/2Dc-stack.
pub mod Window
pub mod Counter
pub mod Stack
