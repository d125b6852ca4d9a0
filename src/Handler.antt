-- ===== src/Handler.antt =====
-- services/api/internal/handler: the HTTP handlers.
pub mod Auth
pub mod Sessions
pub mod Placement
pub mod Learners
