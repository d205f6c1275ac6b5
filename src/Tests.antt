-- ===== src/Tests.antt =====
-- Tests and instances of the theorems at concrete data.
mod World
mod Texts
mod Build
mod Package
mod Relay
mod Serve
mod System
mod Wire
mod Listener
mod Config
