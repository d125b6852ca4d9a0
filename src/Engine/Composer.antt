-- ===== src/Engine/Composer.antt =====
-- services/api/internal/engine/session_composer.go: the session's data. The children hold the
-- templates, the placement of items, the adaptation during a session and the time budget.
pub mod Items
pub mod Template
pub mod Place
pub mod Adapt
pub mod Budget
