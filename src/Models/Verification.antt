-- ===== src/Models/Verification.antt =====
-- models/verification.py. A status or a reason is a constructor where the program writes it, and
-- `other` where an Agent's payload supplies it.
use fanxiangdiguijiexi.Prelude.{Bool, true, false, Option, some, List, [], ◌∷◌, Text}
use fanxiangdiguijiexi.Prelude.Dict.{Dict}
use fanxiangdiguijiexi.Json.{Value}

pub data Status : Type 0 where
  verified refreshing rejected : Status
  other : Text → Status

pub data Reason : Type 0 where
  cache_revoked cache_endpoint_mismatch cache_binding_mismatch out_of_band_unavailable : Reason
  lookup_not_found endpoint_binding_mismatch chain_anchor_not_found chain_status_not_active : Reason
  resolver_object_not_found indexer_object_hash_metadata_mismatch chain_object_hash_mismatch :
      Reason
  object_version_mismatch resolver_id_key_mismatch signature_invalid endpoint_not_in_object : Reason
  root_status_invalid merkle_proof_missing merkle_proof_missing_leaf merkle_proof_invalid : Reason
  merkle_proof_root_mismatch merkle_leaf_binding_mismatch : Reason
  unsupported_schema_version unsupported_canonical_version status_not_active : Reason
  object_not_yet_valid object_expired transport_not_allowed : Reason
  registry_changed_during_verification verification_invalidated_during_commit : Reason
  hop_verification_failed verification_chain_failed : Reason
  other_reason : Text → Reason

abbrev pub Evidence : Type 0
Evidence = Dict Value

pub record VerificationResult : Type 0 where
  pub accepted : Bool
  pub status : Status
  pub resolver_id : Option Text
  pub reasons : List Reason
  pub evidence : Evidence

unfoldable pub accept : Text → Status → Evidence → VerificationResult
accept resolver_id status evidence = record {
  accepted = true;
  status = status;
  resolver_id = some resolver_id;
  reasons = [];
  evidence = evidence;
}

unfoldable pub reject : Reason → Option Text → Evidence → VerificationResult
reject reason resolver_id evidence = record {
  accepted = false;
  status = rejected;
  resolver_id = resolver_id;
  reasons = reason ∷ [];
  evidence = evidence;
}
