-- ===== src/Http.antt =====
-- The REST handlers: server/internal/handler
pub mod Reply
pub mod Requests
pub mod Devices
pub mod Scenes
pub mod Accounts
pub mod Profile
pub mod Guard
pub mod Router
pub mod Moves
