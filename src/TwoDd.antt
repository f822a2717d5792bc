-- ===== src/TwoDd.antt =====
-- The 2Dd window, include/2Dd-window.c and .h: the window that bounds the put counts and the
-- window that bounds the get counts of an array of sub-structures.
pub mod Window
pub mod Counter
pub mod Stack
