-- ===== src/Server/Handlers.antt =====
-- The handlers of server/client_cmds.c, and process_command, which picks one.
pub mod Session
pub mod Files
pub mod Transfers
