-- ===== src/Server.antt =====
-- The server (server/).
pub mod Path
pub mod Client
pub mod System
pub mod Thread
pub mod Transfer
pub mod Threads
pub mod Handlers
pub mod Commands
pub mod Loop
pub mod Main
mod Tests
