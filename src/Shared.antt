-- ===== src/Shared.antt =====
-- packages/shared/src: what every agent shares.
pub mod Text
pub mod States
pub mod Personas
pub mod Deployments
pub mod Credit
pub mod BigInt
pub mod Skills
pub mod Platform
