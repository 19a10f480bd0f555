-- ===== src/Shaper.antt =====
-- internal/shaper: the L5 traffic shaper.
pub mod Asymmetry
pub mod Burst
pub mod Coalesce
pub mod Distribution
pub mod Make
pub mod Padding
pub mod Profile
mod Tests
