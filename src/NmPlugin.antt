-- ===== src/NmPlugin.antt =====
-- nm-plugin: the NetworkManager service that starts ghost-client.
pub mod Address
pub mod Client
pub mod Service
pub mod Settings
mod Tests
pub mod Variant
