-- ===== src/Data.antt =====
-- packages/data-plane: the cache of economic data that the agents read.
pub mod RateLimit
pub mod Scheduler
pub mod Workers
mod Tests
