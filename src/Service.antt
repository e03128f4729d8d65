-- ===== src/Service.antt =====
-- server/internal/service
pub mod Devices
pub mod Control
pub mod Scenes
pub mod Talks
pub mod Users
pub mod Context
pub mod Sync
pub mod Moves
