-- ===== src/Chain/Backend.antt =====
-- chain/backend.py: statuses, anchors, and the registry as an interface.
use fanxiangdiguijiexi.Prelude.{ℕ, Bool, true, false, Option, Text, Outcome, PyError}

-- The values of STATUS_BY_ID.
pub data ChainStatus : Type 0 where
  unknown active suspended revoked expired : ChainStatus

abbrev pub is_active : ChainStatus → Bool
is_active active = true
is_active _ = false

abbrev pub is_revoked : ChainStatus → Bool
is_revoked revoked = true
is_revoked _ = false

pub record ResolverAnchor : Type 0 where
  pub resolver_id_key : Text
  pub object_hash : Text
  pub state_root : Text
  pub object_version : ℕ
  pub valid_until : ℕ
  pub status : ChainStatus

-- The reads of the protocol `RegistryBackend`. A read may raise, as one over the network does.
pub record Registry : Type 0 where
  pub get_endpoint_binding : Text → Outcome PyError (Option Text)
  pub get_anchor : Text → Outcome PyError (Option ResolverAnchor)
  pub get_root_status : Text → Outcome PyError (Option ChainStatus)
