-- ===== src/Engine/Selector.antt =====
-- services/api/internal/engine/content_selector.go: the content of a learning session.
pub mod Pool
pub mod Pick
pub mod Phases
pub mod Variety
pub mod Generate
pub mod Stats
pub mod Sessions
