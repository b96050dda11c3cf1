-- ===== src/Agent/Swap.antt =====
-- The skill negotiate-bilateral-swap of packages/agent/src/a2a/executor.ts.
pub mod Decide
pub mod Settle
pub mod Handle
