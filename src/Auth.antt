-- ===== src/Auth.antt =====
-- internal/auth: the L3 authentication layer.
pub mod Keys
pub mod Noise
pub mod Replay
pub mod Session
mod Tests
