-- ===== src/RelayClient.antt =====
-- server-pc/src/relay_client.rs: the PC's end of the relay tunnel.
pub mod Frame
pub mod Sessions
pub mod Url
pub mod Reconnect
pub mod Writer
