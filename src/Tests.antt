-- ===== src/Tests.antt =====
-- The theorems at concrete inputs.
pub mod Codec
pub mod Devices
pub mod Phone
pub mod Settings
pub mod Sessions
pub mod Relay
pub mod Http
pub mod Picture
pub mod Network
pub mod Streams
pub mod Page
pub mod Links
