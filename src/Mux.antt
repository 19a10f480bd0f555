-- ===== src/Mux.antt =====
-- internal/mux: the L4 stream multiplexer.
pub mod Frame
pub mod Codec
pub mod Stream
pub mod Conn
mod Tests
