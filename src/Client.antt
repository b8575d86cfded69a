-- ===== src/Client.antt =====
-- libgearman: the client's side of the protocol, its connections, the choice of a server for a task,
-- and the states of a task.
pub mod Return
pub mod Connection
pub mod Flush
pub mod Selection
pub mod Task
pub mod Packet
