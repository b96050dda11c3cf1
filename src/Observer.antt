-- ===== src/Observer.antt =====
-- packages/observer: what the observer of the network keeps and shows.
pub mod Types
pub mod Project
pub mod Health
pub mod Store
mod Tests
