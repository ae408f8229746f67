-- ===== src/Discovery.antt =====
-- wrapper/resolver_chain.py: how the wrapper learns the resolvers behind an upstream, from the signed
-- chain of its Agent.
pub mod Signatures
pub mod Introduced
pub mod Trust
pub mod Depth
pub mod Versions
pub mod Context
pub mod Static
pub mod Urls
pub mod Observe
pub mod Discover
pub mod Distributed
pub mod Kept
pub mod Rollback
pub mod Refines
mod Tests
mod Sample
mod ObserveTests
pub mod Termination
pub mod Released
pub mod Printed
