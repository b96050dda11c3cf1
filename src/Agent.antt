-- ===== src/Agent.antt =====
-- packages/agent/src: the process of one agent.
pub mod Auction
pub mod Executor
pub mod Swap
pub mod State
pub mod Rebalance
pub mod Sweep
pub mod Memory
