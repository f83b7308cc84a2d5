-- ===== src/Misc.antt =====
-- The tools (misc/).
pub mod Binfc
