-- ===== src/Inft.antt =====
-- packages/og-inft: the encrypted bundle of an iNFT and the key that opens it.
pub mod Crypto
pub mod KeyStore
mod Tests
