-- ===== src/Client.antt =====
-- cmd/ghost-client/main.go: how a tunnel is set up, replaced and torn down, and the packets it carries.
pub mod Establish
pub mod Packets
pub mod Rotation
pub mod Sessions
pub mod Startup
mod Tests
pub mod Watchdog
