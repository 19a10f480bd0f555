-- ===== src/Transport.antt =====
-- internal/transport: TCP connections with TLS that looks like a browser's.
pub mod Dialer
pub mod Listener
mod Tests
