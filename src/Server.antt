-- ===== src/Server.antt =====
-- cmd/ghost-server/main.go: authentication, and the sessions of the clients.
pub mod Admission
pub mod Sessions
pub mod Startup
pub mod Single
mod Tests
pub mod Valid
