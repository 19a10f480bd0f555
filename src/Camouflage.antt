-- ===== src/Camouflage.antt =====
-- internal/camouflage: the L2 layer, HTTP/2 requests that look ordinary.
pub mod Bridge
pub mod Client
pub mod Headers
pub mod Prefix
pub mod Server
mod Tests
