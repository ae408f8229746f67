-- ===== src/Verifier.antt =====
-- The verifier: membership proofs, resolver objects, their signatures, and the verdict on an endpoint.
pub mod Proof
pub mod Object
pub mod Policy
pub mod Keys
pub mod Judge
pub mod Verify
pub mod Chains
pub mod Sound
pub mod Accept
mod Tests
