-- ===== src/Engine/Session.antt =====
-- services/api/internal/engine/session.go: which skills a session practises, the roles of its items,
-- the content of each item, and the level that a placement test gives.
pub mod Roles
pub mod Select
pub mod Placement
pub mod Build
