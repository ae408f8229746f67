-- ===== src/Agent/Reasons.antt =====
-- agent/verification_chain.py: the reasons of a verification as texts in a hop.
use fanxiangdiguijiexi.Prelude.{Text, codes}
use fanxiangdiguijiexi.Models.Verification
use fanxiangdiguijiexi.Models.Verification.{Reason}

-- A reason as the text that the program writes.
unfoldable pub reason_text : Reason → Text
reason_text Verification.cache_revoked = codes "cache_revoked"
reason_text Verification.cache_endpoint_mismatch = codes "cache_endpoint_mismatch"
reason_text Verification.cache_binding_mismatch = codes "cache_binding_mismatch"
reason_text Verification.out_of_band_unavailable = codes "out_of_band_unavailable"
reason_text Verification.lookup_not_found = codes "lookup_not_found"
reason_text Verification.endpoint_binding_mismatch = codes "endpoint_binding_mismatch"
reason_text Verification.chain_anchor_not_found = codes "chain_anchor_not_found"
reason_text Verification.chain_status_not_active = codes "chain_status_not_active"
reason_text Verification.resolver_object_not_found = codes "resolver_object_not_found"
reason_text Verification.indexer_object_hash_metadata_mismatch =
    codes "indexer_object_hash_metadata_mismatch"
reason_text Verification.chain_object_hash_mismatch = codes "chain_object_hash_mismatch"
reason_text Verification.object_version_mismatch = codes "object_version_mismatch"
reason_text Verification.resolver_id_key_mismatch = codes "resolver_id_key_mismatch"
reason_text Verification.signature_invalid = codes "signature_invalid"
reason_text Verification.endpoint_not_in_object = codes "endpoint_not_in_object"
reason_text Verification.root_status_invalid = codes "root_status_invalid"
reason_text Verification.merkle_proof_missing = codes "merkle_proof_missing"
reason_text Verification.merkle_proof_missing_leaf = codes "merkle_proof_missing_leaf"
reason_text Verification.merkle_proof_invalid = codes "merkle_proof_invalid"
reason_text Verification.merkle_proof_root_mismatch = codes "merkle_proof_root_mismatch"
reason_text Verification.merkle_leaf_binding_mismatch = codes "merkle_leaf_binding_mismatch"
reason_text Verification.unsupported_schema_version = codes "unsupported_schema_version"
reason_text Verification.unsupported_canonical_version = codes "unsupported_canonical_version"
reason_text Verification.status_not_active = codes "status_not_active"
reason_text Verification.object_not_yet_valid = codes "object_not_yet_valid"
reason_text Verification.object_expired = codes "object_expired"
reason_text Verification.transport_not_allowed = codes "transport_not_allowed"
reason_text Verification.registry_changed_during_verification =
    codes "registry_changed_during_verification"
reason_text Verification.verification_invalidated_during_commit =
    codes "verification_invalidated_during_commit"
reason_text Verification.hop_verification_failed = codes "hop_verification_failed"
reason_text Verification.verification_chain_failed = codes "verification_chain_failed"
reason_text (Verification.other_reason t) = t
