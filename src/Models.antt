-- ===== src/Models.antt =====
-- src/resolver_identity/models: endpoints and verification results.
pub mod Endpoint
pub mod Verification
