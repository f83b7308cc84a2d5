-- ===== src/Io.antt =====
-- server/io_utils.c
pub mod Rlb
pub mod Mark
pub mod Transfer
mod Tests
