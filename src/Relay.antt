-- ===== src/Relay.antt =====
-- relay/src/main.rs: the relay between a PC and the phones of other networks.
pub mod Frame
pub mod Pipe
pub mod Registry
pub mod Hub
