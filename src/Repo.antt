-- ===== src/Repo.antt =====
-- The statements of server/internal/repository. The conditions compare texts by the collation of the
-- columns; keys, UNIQUE columns and foreign keys are those of server/migrations.
pub mod Devices
pub mod States
pub mod Users
pub mod Talks
pub mod Scenes
pub mod Wf
