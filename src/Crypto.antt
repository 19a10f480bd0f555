-- ===== src/Crypto.antt =====
-- internal/crypto: authenticated encryption of each write.
pub mod Cipher
pub mod Handshake
mod Tests
