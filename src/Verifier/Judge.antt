-- ===== src/Verifier/Judge.antt =====
-- `_verify_cold` of verifier/resolver_verifier.py up to its commit. The registry may change between
-- two reads: read number n is made of `registry n`. The text of an exception is left out.
use fanxiangdiguijiexi.Prelude.{
  ℕ, Bool, true, false, not, ◌&&◌, ◌||◌, Option, none, some, List, [], ◌∷◌, ◌++◌, ◌==◌,
  if◌then◌else◌, Text, codes, text_eq, lower, truthy, Outcome, PyError, ok, raised, ◌>>=◌, ◌>>◌,
  raise_if,
}
use fanxiangdiguijiexi.Json.{Value, Fields, null, num, text, object, end, field, canonical_json}
use fanxiangdiguijiexi.Crypto.Sha.{Sha256, sha256_hex}
use fanxiangdiguijiexi.Crypto.Merkle.{merkle_leaf}
use fanxiangdiguijiexi.Models.Endpoint.{Endpoint, Net, matches, normalize_name}
use fanxiangdiguijiexi.Models.Verification.{
  Reason, Evidence, lookup_not_found, endpoint_binding_mismatch, chain_anchor_not_found,
  chain_status_not_active, resolver_object_not_found, indexer_object_hash_metadata_mismatch,
  chain_object_hash_mismatch, object_version_mismatch, resolver_id_key_mismatch, signature_invalid,
  endpoint_not_in_object, registry_changed_during_verification,
}
use fanxiangdiguijiexi.Chain.Backend.{
  ChainStatus, unknown, active, suspended, revoked, expired, ResolverAnchor, Registry, is_active,
}
use fanxiangdiguijiexi.Cache.Store.{Verified}
use fanxiangdiguijiexi.Verifier.Proof.{ProofRow, root_active, bound_failure_reason}
use fanxiangdiguijiexi.Verifier.Object.{
  Clock, ResolverObject, object_from_dict, parse_rfc3339, lookup,
}
use fanxiangdiguijiexi.Verifier.Policy.{Policy, check_object_semantics, expirations}
use fanxiangdiguijiexi.Verifier.Keys.{
  Signer, IssuerKeyRegistry, verify_object_signature_with_registry, text_at,
}

pub record LookupRow : Type 0 where
  pub resolver_id_key : Text
  pub resolver_id : Text

-- The object's JSON text is read when the row is.
pub record ObjectRow : Type 0 where
  pub object_json : Value
  pub object_hash : Text

-- The reads of `IndexerRepository`, or of a remote one.
pub record Indexer : Type 0 where
  pub lookup : Text → Outcome PyError (Option LookupRow)
  pub get_resolver : Text → Outcome PyError (Option ObjectRow)
  pub get_proof : Text → Outcome PyError (Option ProofRow)

-- The settings of `ResolverVerifier`.
pub record Settings : Type 0 where
  pub policy : Policy
  pub signature_secret : Text
  pub issuer_keys : Option IssuerKeyRegistry
  pub allow_hmac_signatures : Bool

-- Why a verification stops: with a `reject`, or with an exception.
pub data Stop : Type 0 where
  refused : Reason → Option Text → Evidence → Stop
  failed : PyError → Stop

unfoldable pub lift : {A : Type 0} → Outcome PyError A → Outcome Stop A
lift (ok a) = ok a
lift (raised e) = raised (failed e)

-- `if not value: return reject(...)`
unfoldable pub need : {A : Type 0} → Option A → Reason → Option Text → Evidence → Outcome Stop A
need none reason resolver_id evidence = raised (refused reason resolver_id evidence)
need (some a) reason resolver_id evidence = ok a

-- `if not test: return reject(...)`
unfoldable pub demand : Bool → Reason → Option Text → Evidence → Outcome Stop Unit
demand test reason resolver_id evidence = raise_if (not test) (refused reason resolver_id evidence)

-- `if error: return reject(error, ...)`
unfoldable pub no_reason : Option Reason → Text → Evidence → Outcome Stop Unit
no_reason none resolver_id evidence = ok tt
no_reason (some reason) resolver_id evidence = raised (refused reason (some resolver_id) evidence)

abbrev pub bound_is : Option Text → Text → Bool
bound_is none key = false
bound_is (some bound) key = text_eq bound key

abbrev pub status_text : ChainStatus → Text
status_text unknown = codes "UNKNOWN"
status_text active = codes "ACTIVE"
status_text suspended = codes "SUSPENDED"
status_text revoked = codes "REVOKED"
status_text expired = codes "EXPIRED"

abbrev text_or_null : Option Text → Value
text_or_null none = null
text_or_null (some t) = text t

abbrev status_or_null : Option ChainStatus → Value
status_or_null none = null
status_or_null (some status) = text (status_text status)

-- `object_hash` and `resolver_id_key` of crypto/hashes.py.
unfoldable pub object_hash : Sha256 → Value → Text
object_hash s v = sha256_hex s (canonical_json v)

unfoldable pub resolver_id_key : Sha256 → Text → Text
resolver_id_key s resolver_id = sha256_hex s (codes "resolver-id:" ++ normalize_name resolver_id)

-- `extract_agent_key`, on an attestation whose key is a string.
abbrev agent_of : Option Value → Fields
agent_of (some (object fields)) = fields
agent_of _ = end

abbrev or_default : Option Text → Text → Text
or_default none default = default
or_default (some t) default = if truthy t then t else default

abbrev agent_key : Option Text → Option Text → Option Text → Evidence
agent_key none algorithm key_id = []
agent_key (some public_key) algorithm key_id =
    if not (truthy public_key) || not (text_eq (lower (or_default algorithm [])) (codes "ed25519"))
    then []
    else (codes "agent_public_key", text public_key)
      ∷ (codes "agent_key_algorithm", text (codes "ed25519"))
      ∷ (codes "agent_key_id", text (or_default key_id (codes "agent-key-01")))
      ∷ []

unfoldable pub extract_agent_key : ResolverObject → Evidence
unfolding text_at
extract_agent_key obj =
    let agent = agent_of (lookup (codes "agent") obj.attestation) in
    agent_key (text_at (codes "public_key") agent) (text_at (codes "algorithm") agent)
      (text_at (codes "key_id") agent)

-- `any(candidate.matches(endpoint) for candidate in obj.endpoints)`
unfoldable pub any_matches : Net → List Endpoint → Endpoint → Outcome PyError Bool
any_matches net [] observed = ok false
any_matches net (e ∷ es) observed =
    let rest = any_matches net es observed in
    matches net e observed >>= λ m. if m then ok true else rest

-- The last comparison of `_verify_cold`.
abbrev anchor_still : Option ResolverAnchor → Text → ℕ → Text → Bool
anchor_still none hash version root = false
anchor_still (some a) hash version root =
    is_active a.status
    && (text_eq a.object_hash hash && (a.object_version == version && text_eq a.state_root root))

unfoldable pub unchanged :
    Option Text → Option ResolverAnchor → Option ChainStatus → Text → Text → ℕ → Text → Bool
unchanged bound anchor root_status key hash version root =
    bound_is bound key && (anchor_still anchor hash version root && root_active root_status)

module _ (net : Net) (s : Sha256) (clock : Clock) (signer : Signer) (settings : Settings)
    (indexer : Indexer) (registry : ℕ → Registry) where
  -- The endpoint's row, and the anchor that the chain binds it to.
  unfoldable pub anchored : Text → Outcome Stop (LookupRow × ResolverAnchor)
  unfolding lift need demand
  anchored key = do
    found ← lift (indexer.lookup key)
    row ←
        need found lookup_not_found none
          ((codes "evidence", object (field (codes "endpoint_key") (text key) end)) ∷ [])
    bound ← lift ((registry 0).get_endpoint_binding key)
    demand (bound_is bound row.resolver_id_key) endpoint_binding_mismatch (some row.resolver_id) (
        (codes "endpoint_key", text key)
        ∷ (codes "bound", text_or_null bound)
        ∷ (codes "expected", text row.resolver_id_key)
        ∷ [])
    at ← lift ((registry 1).get_anchor row.resolver_id_key)
    anchor ← need at chain_anchor_not_found (some row.resolver_id) []
    demand (is_active anchor.status) chain_status_not_active (some row.resolver_id)
        ((codes "chain_status", text (status_text anchor.status)) ∷ [])
    ok (row, anchor)

  -- The object, with the hash, the version, the name and the signature that are due.
  unfoldable pub authentic : LookupRow → ResolverAnchor → Outcome Stop (ResolverObject × ObjectRow)
  unfolding lift need demand no_reason object_hash resolver_id_key
  authentic row anchor = do
    found ← lift (indexer.get_resolver row.resolver_id)
    object_row ← need found resolver_object_not_found (some row.resolver_id) []
    obj ← lift (object_from_dict net object_row.object_json)
    let local_hash = object_hash s object_row.object_json
    demand (text_eq local_hash object_row.object_hash) indexer_object_hash_metadata_mismatch
        (some obj.resolver_id)
        ((codes "local_hash", text local_hash)
          ∷ (codes "indexer_hash", text object_row.object_hash)
          ∷ [])
    demand (text_eq local_hash anchor.object_hash) chain_object_hash_mismatch (some obj.resolver_id)
        ((codes "local_hash", text local_hash) ∷ (codes "chain_hash", text anchor.object_hash) ∷ [])
    demand (obj.object_version == anchor.object_version) object_version_mismatch
        (some obj.resolver_id)
        ((codes "object_version", num obj.object_version)
          ∷ (codes "chain_version", num anchor.object_version)
          ∷ [])
    demand (text_eq (resolver_id_key s obj.resolver_id) row.resolver_id_key)
        resolver_id_key_mismatch (some obj.resolver_id) []
    demand
        (verify_object_signature_with_registry signer object_row.object_json settings.issuer_keys
          (if settings.allow_hmac_signatures then some settings.signature_secret else none))
        signature_invalid (some obj.resolver_id) []
    ok (obj, object_row)

  -- The root's status, once the object is a leaf under it, is in order, and has the endpoint.
  unfoldable pub proven :
      LookupRow
      → ResolverAnchor
      → ResolverObject
      → Text
      → Endpoint
      → ℕ
      → Outcome Stop (Option ChainStatus)
  unfolding lift need demand no_reason any_matches
  proven row anchor obj local_hash endpoint now = do
    root_status ← lift ((registry 2).get_root_status anchor.state_root)
    proof_row ← lift (indexer.get_proof obj.resolver_id)
    let leaf = merkle_leaf s row.resolver_id_key local_hash obj.object_version obj.status
    proof_error ← lift (bound_failure_reason s proof_row root_status anchor.state_root leaf)
    no_reason proof_error obj.resolver_id (
        (codes "root_status", status_or_null root_status) ∷ (codes "expected_leaf", text leaf) ∷ [])
    semantic_error ← lift (check_object_semantics clock settings.policy obj now)
    no_reason semantic_error obj.resolver_id []
    matched ← lift (any_matches net obj.endpoints endpoint)
    demand matched endpoint_not_in_object (some obj.resolver_id) []
    ok root_status

  -- The registry is read once more.
  unfoldable pub reread :
      Text → LookupRow → ResolverAnchor → ResolverObject → Text → Outcome Stop Unit
  unfolding lift need demand no_reason unchanged
  reread key row anchor obj local_hash = do
    final_bound ← lift ((registry 3).get_endpoint_binding key)
    final_anchor ← lift ((registry 4).get_anchor row.resolver_id_key)
    final_root_status ← lift ((registry 5).get_root_status anchor.state_root)
    demand
        (unchanged final_bound final_anchor final_root_status row.resolver_id_key local_hash
          obj.object_version anchor.state_root)
        registry_changed_during_verification (some obj.resolver_id) []

  unfoldable pub verified_evidence :
      Text → LookupRow → ResolverAnchor → ResolverObject → Text → Option ChainStatus → Evidence
  unfolding extract_agent_key
  verified_evidence key row anchor obj local_hash root_status =
      (codes "endpoint_key", text key)
      ∷ (codes "resolver_id_key", text row.resolver_id_key)
      ∷ (codes "object_hash", text local_hash)
      ∷ (codes "object_version", num obj.object_version)
      ∷ (codes "resolver_status", text obj.status)
      ∷ (codes "state_root", text anchor.state_root)
      ∷ (codes "chain_status", text (status_text anchor.status))
      ∷ (codes "root_status", status_or_null root_status)
      ∷ (codes "endpoint_binding_status", text (codes "MATCHED"))
      ∷ extract_agent_key obj

  -- What `_verify_cold` hands to `store_verified`.
  unfoldable pub judge : Endpoint → Text → ℕ → Outcome Stop Verified
  unfolding lift need demand no_reason anchored authentic proven reread verified_evidence
      object_hash
  judge endpoint key now = do
    (row, anchor) ← anchored key
    (obj, object_row) ← authentic row anchor
    let local_hash = object_hash s object_row.object_json
    root_status ← proven row anchor obj local_hash endpoint now
    valid_until ← lift (parse_rfc3339 clock obj.valid_until)
    let (soft, hard) = expirations settings.policy now valid_until
    reread key row anchor obj local_hash
    ok (record {
      endpoint_key = key;
      resolver_id = obj.resolver_id;
      endpoint = endpoint;
      object_hash = local_hash;
      object_version = obj.object_version;
      state_root = anchor.state_root;
      soft_expire_at = soft;
      hard_expire_at = hard;
      evidence = verified_evidence key row anchor obj local_hash root_status;
    })
