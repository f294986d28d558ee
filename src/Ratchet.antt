-- ===== src/Ratchet.antt =====
-- ratchet.rs: the Double Ratchet.
pub mod MessageKeys
pub mod Kdf
pub mod Cbc
pub mod Chains
pub mod Plan
pub mod Encrypt
pub mod Decrypt
