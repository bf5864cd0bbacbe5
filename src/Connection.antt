-- ===== src/Connection.antt =====
-- server-pc/src/connection.rs: one phone's connection, from the handshake to the clean-up.
pub mod Names
pub mod Uploads
pub mod Sender
pub mod State
pub mod Handshake
pub mod Dispatch
pub mod Session
