-- ===== src/Relay.antt =====
-- The relay itself, relay/*.go.
pub mod Buffer
pub mod Retry
pub mod Serve
pub mod Responses
pub mod Handler
pub mod System
pub mod Poster
pub mod Config
pub mod Udp
pub mod Packets
pub mod Listener
