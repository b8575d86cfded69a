-- ===== src/Server/Commands.antt =====
-- libgearman-server/server.cc: `gearman_server_run_command`, one handler for each group of commands.
pub mod Reply
pub mod Submit
pub mod Status
pub mod Abilities
pub mod Grab
pub mod Work
pub mod Text
pub mod Run
