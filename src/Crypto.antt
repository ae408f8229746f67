-- ===== src/Crypto.antt =====
-- src/resolver_identity/crypto: hexadecimal, digests and Merkle trees.
pub mod Hex
pub mod Sha
pub mod Merkle
pub mod Toy
