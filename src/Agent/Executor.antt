-- ===== src/Agent/Executor.antt =====
-- packages/agent/src/a2a/executor.ts: the agent's answers to the A2A messages that reach it.
pub mod Events
pub mod Deps
pub mod Chain
pub mod Coalition
pub mod Aid
pub mod Shock
pub mod Bond
pub mod Execute
mod Tests
