-- ===== src/Voice.antt =====
-- The voice entry of the server: server/internal/handler/{voice,voice_session,voice_proto}.go
pub mod Session
pub mod Auth
pub mod Command
pub mod Pump
pub mod Open
pub mod Moves
