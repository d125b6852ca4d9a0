-- ===== src/Tests.antt =====
-- Concrete inputs on which the theorems are applied.
pub mod Decimals
mod Services
pub mod Sessions
mod Composition
mod Memory
mod Selection
mod Messages
pub mod Access
mod Logins
mod Streaks
mod Requests
mod Devservers
