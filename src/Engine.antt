-- ===== src/Engine.antt =====
-- services/api/internal/engine: spaced repetition, experience points, session generation.
pub mod Data
pub mod Composer
pub mod Fsrs
pub mod Xp
pub mod Session
pub mod Selector
