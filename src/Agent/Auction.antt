-- ===== src/Agent/Auction.antt =====
-- The bond auction of an issuer: packages/agent/src/a2a/executor.ts (the evaluator and the mint)
-- and packages/agent/src/a2a/bond-auction-registry.ts (the coordinator).
pub mod Evaluate
pub mod Registry
