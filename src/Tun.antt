-- ===== src/Tun.antt =====
-- internal/tun: packets between the TUN device and the tunnels.
pub mod Packet
pub mod Router
pub mod Bridge
pub mod Device
mod Tests
