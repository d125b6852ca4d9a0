-- ===== src/Store.antt =====
-- services/api/internal/store: the tables of the database.
pub mod Streak
pub mod Database
pub mod Sessions
pub mod Skills
pub mod Content
pub mod Profiles
