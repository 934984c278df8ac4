-- ===== src/Crypto.antt =====
-- crates/ndp-crypto: replay protection, sequence numbers and sealed records.
pub mod Replay
pub mod Expander
pub mod Aead
pub mod Record
mod Tests
