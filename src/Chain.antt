-- ===== src/Chain.antt =====
-- src/resolver_identity/chain: the registry that anchors identities.
pub mod Backend
