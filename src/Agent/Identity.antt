-- ===== src/Agent/Identity.antt =====
-- agent/identity.py: an Agent's signed statement of its endpoint and upstreams.
use fanxiangdiguijiexi.Prelude.{
  ℕ, Bool, true, not, Option, none, some, List, Text, codes, text_eq, option_eq, Outcome, PyError,
  ok, ◌>>=◌, ◌>>◌,
}
use fanxiangdiguijiexi.Json.{Value, Fields, text, num, array, object, end, field}
use fanxiangdiguijiexi.Models.Endpoint.{Endpoint, Net, normalized, matches, to_dict}
use fanxiangdiguijiexi.Verifier.Object.{
  lookup, required, optional, text_or, items_or, endpoints_from,
}
use fanxiangdiguijiexi.Verifier.Keys.{Signer, text_at, verify_object_signature}
use fanxiangdiguijiexi.Agent.Chain.{refuse_if}
use fanxiangdiguijiexi.Agent.Payload.{
  endpoint_from, required_int, str_of, verify_ed25519_signature, validate_signed_window,
}
use fanxiangdiguijiexi.Agent.Print.{expiry, signature_field, endpoints_to_items}

abbrev pub agent_schema : Text
agent_schema = codes "resolver-identity-agent-v1"

pub record AgentIdentity : Type 0 where
  pub resolver_id : Text
  pub endpoint : Endpoint
  pub upstreams : List Endpoint
  pub config_version : Text
  pub health : Text
  pub issued_at : ℕ
  pub expires_at : Option ℕ
  pub issuer : Text
  pub key_id : Text
  pub schema_version : Text
  pub signature : Option Text

module _ (net : Net) where
  -- `AgentIdentity.to_dict`, but for the key "signature".
  unfoldable pub identity_fields : AgentIdentity → Fields → Outcome PyError Value
  unfolding endpoints_to_items
  identity_fields a signature = do
    endpoint ← normalized net a.endpoint
    upstreams ← endpoints_to_items net a.upstreams
    ok (
        object (
          field (codes "schema_version") (text a.schema_version) (
            field (codes "resolver_id") (text a.resolver_id) (
              field (codes "endpoint") (to_dict endpoint) (
                field (codes "upstreams") (array upstreams) (
                  field (codes "config_version") (text a.config_version) (
                    field (codes "health") (text a.health) (
                      field (codes "issued_at") (num a.issued_at) (
                        field (codes "expires_at") (num (expiry a.expires_at a.issued_at)) (
                          field (codes "issuer") (text a.issuer)
                            (field (codes "key_id") (text a.key_id) signature)))))))))))

  unfoldable pub identity_from_dict : Fields → Outcome PyError AgentIdentity
  unfolding endpoint_from
  identity_from_dict d = do
    schema_version ← text_or (lookup (codes "schema_version") d) agent_schema
    resolver_id ← required (codes "resolver_id") d
    endpoint ← endpoint_from net (lookup (codes "endpoint") d)
    items ← items_or (lookup (codes "upstreams") d)
    upstreams ← endpoints_from net items
    config_version ← str_of (lookup (codes "config_version") d)
    health ← text_or (lookup (codes "health") d) (codes "unknown")
    issued_at ← required_int (lookup (codes "issued_at") d)
    expires_at ← required_int (lookup (codes "expires_at") d)
    issuer ← text_or (lookup (codes "issuer") d) (codes "resolver-agent")
    key_id ← text_or (lookup (codes "key_id") d) (codes "agent-key-01")
    signature ← optional (codes "signature") d
    ok (record {
      resolver_id = resolver_id;
      endpoint = endpoint;
      upstreams = upstreams;
      config_version = config_version;
      health = health;
      issued_at = issued_at;
      expires_at = some expires_at;
      issuer = issuer;
      key_id = key_id;
      schema_version = schema_version;
      signature = signature;
    })

  -- `build_agent_identity` and its Ed25519 twin, by the signing function; `a` is not signed.
  unfoldable pub build_agent_identity : (Value → Text) → AgentIdentity → Outcome PyError Value
  unfolding identity_fields
  build_agent_identity sign a = do
    unsigned ← identity_fields a end
    identity_fields a (signature_field (some (sign unsigned)))

  abbrev pub expected_match : Endpoint → Option Endpoint → Outcome PyError Bool
  expected_match actual none = ok true
  expected_match actual (some expected) = matches net actual expected

  -- `_validate_agent_identity_payload`
  unfoldable pub validate_agent_identity_payload :
      Fields → Option Endpoint → ℕ → ℕ → Outcome PyError AgentIdentity
  unfolding identity_from_dict validate_signed_window
  validate_agent_identity_payload payload endpoint now skew = do
    a ← identity_from_dict payload
    refuse_if (not (text_eq a.health (codes "ok")))
    validate_signed_window a.issued_at a.expires_at now skew
    matched ← expected_match a.endpoint endpoint
    refuse_if (not matched)
    ok a

  -- The two ways to verify a payload differ in how its signature is checked.
  unfoldable pub verify_signed_identity :
      Bool → Fields → Option Endpoint → ℕ → ℕ → Outcome PyError AgentIdentity
  unfolding validate_agent_identity_payload
  verify_signed_identity valid payload endpoint now skew = do
    refuse_if (not (option_eq (text_at (codes "schema_version") payload) (some agent_schema)))
    refuse_if (not valid)
    validate_agent_identity_payload payload endpoint now skew

  unfoldable pub verify_agent_identity_payload :
      Signer → Fields → Text → Option Endpoint → ℕ → ℕ → Outcome PyError AgentIdentity
  unfolding verify_signed_identity verify_object_signature
  verify_agent_identity_payload signer payload secret endpoint now skew =
      verify_signed_identity (verify_object_signature signer payload secret) payload endpoint now
        skew

  unfoldable pub verify_agent_identity_payload_with_public_key :
      Signer → Fields → Text → Option Endpoint → ℕ → ℕ → Outcome PyError AgentIdentity
  unfolding verify_signed_identity verify_ed25519_signature
  verify_agent_identity_payload_with_public_key signer payload public_key endpoint now skew =
      verify_signed_identity (verify_ed25519_signature signer payload public_key) payload endpoint
        now skew
