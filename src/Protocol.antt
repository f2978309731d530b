-- ===== src/Protocol.antt =====
-- pc_host/src/trinity_host/protocol: the wire formats of the PC host.
pub mod Constants
pub mod Errors
pub mod Crc
pub mod Cobs
pub mod Pack
pub mod Frame
pub mod Types
