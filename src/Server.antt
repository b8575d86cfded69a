-- ===== src/Server.antt =====
-- libgearman-server: the job server's state and its operations.
pub mod State
pub mod Socket
pub mod Hash
pub mod Io
pub mod Queue
pub mod Functions
pub mod Clients
pub mod Jobs
pub mod Workers
pub mod Take
pub mod Commands
