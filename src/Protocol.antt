-- ===== src/Protocol.antt =====
-- The protocol: results, commands, packets, and the way from bytes to packets.
pub mod Errors
pub mod Commands
pub mod Packet
pub mod Strings
