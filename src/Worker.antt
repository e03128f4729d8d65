-- ===== src/Worker.antt =====
-- The worker: worker/internal/handler
pub mod Config
pub mod Prompt
pub mod Llm
pub mod Session
pub mod Asr
pub mod Tts
pub mod Orchestrate
