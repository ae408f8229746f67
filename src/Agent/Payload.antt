-- ===== src/Agent/Payload.antt =====
-- agent/verification_chain.py: hops and chains read from JSON, the signed window, and the signed
-- payloads. A verification of a hop or a chain is given the present second.
use fanxiangdiguijiexi.Prelude.{
  ℕ, ◌+◌, Bool, true, false, not, ◌&&◌, Option, none, some, List, [], ◌∷◌, ltb, if◌then◌else◌,
  length, drop, Text, codes, text_eq, decimal, option_eq, Outcome, PyError, key_error, type_error,
  ok, raised, ◌>>=◌, ◌>>◌,
}
use fanxiangdiguijiexi.Json.{
  Value, Items, Fields, null, num, text, bool, array, object, nil, cons, end, field, canonical_json,
  is_true,
}
use fanxiangdiguijiexi.Crypto.Sha.{Sha256}
use fanxiangdiguijiexi.Models.Endpoint.{Endpoint, Net, from_dict, matches}
use fanxiangdiguijiexi.Models.Verification.{Evidence}
use fanxiangdiguijiexi.Cache.Store.{int_value}
use fanxiangdiguijiexi.Verifier.Object.{
  lookup, required, optional, text_or, list_of, fields_of, required_value, items_or, fields_or,
  read_endpoint, endpoints_from,
}
use fanxiangdiguijiexi.Verifier.Keys.{Signer, text_at, starts_with, ed25519_prefix}
use fanxiangdiguijiexi.Agent.Chain.{
  Hop, Chain, Chains, chain, no_chains, and_chain, node_of, refuse_if,
  validate_verification_chain_semantics,
}
use fanxiangdiguijiexi.Agent.Evidence.{validate_hop_evidence_integrity}

abbrev pub hop_schema : Text
hop_schema = codes "resolver-identity-hop-verification-v1"

abbrev pub chain_schema : Text
chain_schema = codes "resolver-identity-verification-chain-v1"

-- `dict(...)` of an object's fields.
unfoldable pub to_evidence : Fields → Evidence
to_evidence end = []
to_evidence (field k v rest) = (k, v) ∷ to_evidence rest

-- `str(data[key])`, where the value is not a list or an object.
abbrev pub str_of : Option Value → Outcome PyError Text
str_of none = raised key_error
str_of (some (text t)) = ok t
str_of (some (num n)) = ok (decimal n)
str_of (some null) = ok (codes "None")
str_of (some (bool b)) = ok (if b then codes "True" else codes "False")
str_of (some (array items)) = raised type_error
str_of (some (object fields)) = raised type_error

abbrev pub required_int : Option Value → Outcome PyError ℕ
required_int none = raised key_error
required_int (some v) = int_value v

abbrev optional_int : Option Value → Outcome PyError (Option ℕ)
optional_int none = ok none
optional_int (some null) = ok none
optional_int (some v) = int_value v >>= λ n. ok (some n)

abbrev truth_or : Option Value → Bool → Bool
truth_or none default = default
truth_or (some v) default = is_true v

module _ (net : Net) where
  unfoldable pub endpoint_from : Option Value → Outcome PyError Endpoint
  endpoint_from v = do
    value ← required_value v
    fields ← fields_of value
    raw ← read_endpoint fields
    from_dict net raw

  unfoldable pub hop_from_dict : Value → Outcome PyError Hop
  unfolding endpoint_from to_evidence
  hop_from_dict v = do
    d ← fields_of v
    schema_version ← text_or (lookup (codes "schema_version") d) hop_schema
    from_resolver_id ← required (codes "from_resolver_id") d
    from_endpoint ← endpoint_from (lookup (codes "from_endpoint") d)
    upstream_endpoint ← endpoint_from (lookup (codes "upstream_endpoint") d)
    upstream_resolver_id ← optional (codes "upstream_resolver_id") d
    accepted ← required_value (lookup (codes "accepted") d)
    status ← required (codes "status") d
    reasons ← list_of (lookup (codes "reasons") d)
    evidence ← fields_or (lookup (codes "evidence") d)
    issued_at ← required_int (lookup (codes "issued_at") d)
    expires_at ← optional_int (lookup (codes "expires_at") d)
    issuer ← text_or (lookup (codes "issuer") d) (codes "resolver-agent")
    key_id ← text_or (lookup (codes "key_id") d) (codes "agent-key-01")
    signature ← optional (codes "signature") d
    ok (record {
      from_resolver_id = from_resolver_id;
      from_endpoint = from_endpoint;
      upstream_endpoint = upstream_endpoint;
      accepted = is_true accepted;
      status = status;
      upstream_resolver_id = upstream_resolver_id;
      reasons = reasons;
      evidence = to_evidence evidence;
      issued_at = issued_at;
      expires_at = expires_at;
      issuer = issuer;
      key_id = key_id;
      schema_version = schema_version;
      signature = signature;
    })

  unfoldable pub hops_from : Items → Outcome PyError (List Hop)
  unfolding hop_from_dict
  hops_from nil = ok []
  hops_from (cons v rest) = do hop ← hop_from_dict v; hops ← hops_from rest; ok (hop ∷ hops)

  -- `VerificationChain.from_dict`, given how the downstream chains are read.
  unfoldable pub node_from_fields : Fields → Outcome PyError Chains → Outcome PyError Chain
  unfolding endpoint_from hops_from
  node_from_fields d below = do
    schema_version ← text_or (lookup (codes "schema_version") d) chain_schema
    resolver_id ← required (codes "resolver_id") d
    endpoint ← endpoint_from (lookup (codes "endpoint") d)
    config_version ← str_of (lookup (codes "config_version") d)
    challenge ← optional (codes "challenge") d
    hop_items ← items_or (lookup (codes "hops") d)
    hops ← hops_from hop_items
    downstream_chains ← below
    terminal_items ← items_or (lookup (codes "terminal_upstreams") d)
    terminal_upstreams ← endpoints_from net terminal_items
    chain_errors ← list_of (lookup (codes "chain_errors") d)
    issued_at ← required_int (lookup (codes "issued_at") d)
    expires_at ← optional_int (lookup (codes "expires_at") d)
    issuer ← text_or (lookup (codes "issuer") d) (codes "resolver-agent")
    key_id ← text_or (lookup (codes "key_id") d) (codes "agent-key-01")
    signature ← optional (codes "signature") d
    ok (
        chain
          (record {
            resolver_id = resolver_id;
            endpoint = endpoint;
            config_version = config_version;
            challenge = challenge;
            hops = hops;
            terminal_upstreams = terminal_upstreams;
            chain_errors = chain_errors;
            final_result = truth_or (lookup (codes "final_result") d) false;
            issued_at = issued_at;
            expires_at = expires_at;
            issuer = issuer;
            key_id = key_id;
            schema_version = schema_version;
            signature = signature;
          })
          downstream_chains)

  -- `VerificationChain.from_dict`
  unfoldable mutual
    unfolding node_from_fields

    pub chain_from_dict : Value → Outcome PyError Chain
    chain_from_dict (object d) = node_from_fields d (below_in d)
    chain_from_dict _ = raised type_error

    pub below_in : Fields → Outcome PyError Chains
    below_in end = ok no_chains
    below_in (field k v rest) =
        let later = below_in rest in
        let here = below_of v in if text_eq k (codes "downstream_chains") then here else later

    pub below_of : Value → Outcome PyError Chains
    below_of (array items) = chains_from items
    below_of _ = raised type_error

    pub chains_from : Items → Outcome PyError Chains
    chains_from nil = ok no_chains
    chains_from (cons v rest) = do c ← chain_from_dict v; cs ← chains_from rest; ok (and_chain c cs)

-- `_validate_signed_window`
abbrev pub expired_at : Option ℕ → ℕ → Bool
expired_at none now = true
expired_at (some t) now = ltb t now

unfoldable pub validate_signed_window : ℕ → Option ℕ → ℕ → ℕ → Outcome PyError Unit
validate_signed_window issued_at expires_at now skew = do
  refuse_if (ltb (now + skew) issued_at)
  refuse_if (expired_at expires_at now)

abbrev signature_valid : Signer → Option Text → Fields → Text → Bool
signature_valid signer none payload public_key = false
signature_valid signer (some signature) payload public_key =
    starts_with ed25519_prefix signature
    && signer.ed25519_verify public_key (drop (length ed25519_prefix) signature)
        (canonical_json (object payload))

-- `verify_ed25519_signature`
unfoldable pub verify_ed25519_signature : Signer → Fields → Text → Bool
unfolding text_at starts_with
verify_ed25519_signature signer payload public_key =
    signature_valid signer (text_at (codes "signature") payload) payload public_key

-- `expected is not None and actual != expected`
abbrev pub other_text : Option Text → Text → Bool
other_text none actual = false
other_text (some expected) actual = not (text_eq actual expected)

abbrev pub other_challenge : Option Text → Option Text → Bool
other_challenge none actual = false
other_challenge (some expected) actual = not (option_eq actual (some expected))

module _ (net : Net) (s : Sha256) (signer : Signer) where
  abbrev pub matches_expected : Endpoint → Option Endpoint → Outcome PyError Bool
  matches_expected actual none = ok true
  matches_expected actual (some expected) = matches net actual expected

  unfoldable pub verify_hop_verification_result_payload :
      Fields → Text → Option Text → Option Endpoint → ℕ → ℕ → Outcome PyError Hop
  unfolding validate_signed_window verify_ed25519_signature hop_from_dict
  verify_hop_verification_result_payload payload public_key resolver_id endpoint now skew = do
    refuse_if (not (option_eq (text_at (codes "schema_version") payload) (some hop_schema)))
    refuse_if (not (verify_ed25519_signature signer payload public_key))
    hop ← hop_from_dict net (object payload)
    validate_signed_window hop.issued_at hop.expires_at now skew
    refuse_if (other_text resolver_id hop.from_resolver_id)
    matched ← matches_expected hop.from_endpoint endpoint
    refuse_if (not matched)
    validate_hop_evidence_integrity net s hop
    ok hop

  unfoldable pub verify_verification_chain_payload :
      Fields → Text → Option Text → Option Endpoint → ℕ → ℕ → Option Text → Outcome PyError Chain
  unfolding validate_signed_window verify_ed25519_signature chain_from_dict
  verify_verification_chain_payload payload public_key resolver_id endpoint now skew challenge = do
    refuse_if (not (option_eq (text_at (codes "schema_version") payload) (some chain_schema)))
    refuse_if (not (verify_ed25519_signature signer payload public_key))
    c ← chain_from_dict net (object payload)
    validate_signed_window (node_of c).issued_at (node_of c).expires_at now skew
    refuse_if (other_text resolver_id (node_of c).resolver_id)
    matched ← matches_expected (node_of c).endpoint endpoint
    refuse_if (not matched)
    refuse_if (other_challenge challenge (node_of c).challenge)
    validate_verification_chain_semantics net s c
    ok c
