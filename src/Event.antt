-- ===== src/Event.antt =====
-- services/api/internal/event: the in-memory message broker.
pub mod Broker
pub mod Activity
