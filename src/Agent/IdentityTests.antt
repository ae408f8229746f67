-- ===== src/Agent/IdentityTests.antt =====
-- An Agent's identity, and a chain that answers a challenge.
use fanxiangdiguijiexi.Agent.Toy.{trusting, endpoint_at}
use fanxiangdiguijiexi.Prelude.{
  ◌≡◌, refl, true, false, none, some, [], Text, codes, Outcome, PyError, ok, raised, value_error,
  strip, lower, decimal, Bool,
}
use fanxiangdiguijiexi.Prelude.Dict
use fanxiangdiguijiexi.Json.{Fields, text, num, bool, array, object, nil, field, end}
use fanxiangdiguijiexi.Crypto.Toy.{toy_sha}
use fanxiangdiguijiexi.Models.Endpoint.{
  normalized, canonical_ip, matches, from_dict, same_endpoint, both_differ, both_given,
  endpoint_lookup_key,
}
use fanxiangdiguijiexi.Models.Endpoint.Toy.{toy_net, udp_endpoint, address_53}
use fanxiangdiguijiexi.Cache.Store.{int_value}
use fanxiangdiguijiexi.Verifier.Keys.{text_at, starts_with}
use fanxiangdiguijiexi.Verifier.Object.{required, optional, lookup, read_endpoint, endpoints_from}
use fanxiangdiguijiexi.Agent.Chain.{
  Chain, chain, no_chains, validate_node, validate_verification_chain_semantics, check_hops,
  check_terminals, check_parent, lacks_chain, refuse_if,
}
use fanxiangdiguijiexi.Agent.Payload.{
  chain_schema, verify_verification_chain_payload, verify_ed25519_signature, chain_from_dict,
  node_from_fields, endpoint_from, hops_from, validate_signed_window,
}
use fanxiangdiguijiexi.Agent.Identity.{
  AgentIdentity, agent_schema, identity_from_dict, verify_signed_identity,
  validate_agent_identity_payload, verify_agent_identity_payload_with_public_key,
}
use fanxiangdiguijiexi.Agent.Identified.{
  IsIdentity, verify_agent_identity_payload_with_public_key-IsIdentity,
}
use fanxiangdiguijiexi.Agent.Answers.{Answers, verify_verification_chain_payload-Answers}

abbrev identity_payload : Fields
identity_payload = field (codes "schema_version") (text agent_schema) (
    field (codes "resolver_id") (text (codes "a")) (
      field (codes "endpoint") (object (endpoint_at address_53)) (
        field (codes "upstreams") (array nil) (
          field (codes "config_version") (num 7) (
            field (codes "health") (text (codes "ok")) (
              field (codes "issued_at") (num 100) (
                field (codes "expires_at") (num 130)
                  (field (codes "signature") (text (codes "base64:ed25519:c2ln")) end))))))))

abbrev identity : AgentIdentity
identity = record {
  resolver_id = codes "a";
  endpoint = udp_endpoint address_53;
  upstreams = [];
  config_version = codes "7";
  health = codes "ok";
  issued_at = 100;
  expires_at = some 130;
  issuer = codes "resolver-agent";
  key_id = codes "agent-key-01";
  schema_version = agent_schema;
  signature = some (codes "base64:ed25519:c2ln");
}

good_identity :
    verify_agent_identity_payload_with_public_key toy_net trusting identity_payload
      (codes "key")
      (some (udp_endpoint address_53))
      110
      5
    ≡ ok identity
unfolding verify_agent_identity_payload_with_public_key verify_signed_identity
    validate_agent_identity_payload identity_from_dict verify_ed25519_signature endpoint_from
    validate_signed_window refuse_if text_at starts_with from_dict required optional lookup
    read_endpoint int_value endpoints_from matches normalized canonical_ip strip same_endpoint lower
    both_differ both_given decimal
good_identity = refl

verify_agent_identity_payload_with_public_key-IsIdentity_example :
    (verify_ed25519_signature trusting identity_payload (codes "key") ≡ true)
    × IsIdentity toy_net identity_payload (some (udp_endpoint address_53)) 110 5 identity
verify_agent_identity_payload_with_public_key-IsIdentity_example =
    verify_agent_identity_payload_with_public_key-IsIdentity toy_net trusting identity_payload
      (codes "key") (some (udp_endpoint address_53)) 110 5 identity good_identity

abbrev chain_payload : Bool → Fields
chain_payload final = field (codes "schema_version") (text chain_schema) (
    field (codes "resolver_id") (text (codes "a")) (
      field (codes "endpoint") (object (endpoint_at address_53)) (
        field (codes "config_version") (text (codes "1")) (
          field (codes "challenge") (text (codes "nonce")) (
            field (codes "final_result") (bool final) (
              field (codes "issued_at") (num 100) (
                field (codes "expires_at") (num 130)
                  (field (codes "signature") (text (codes "base64:ed25519:c2ln")) end))))))))

abbrev answer : Chain
answer =
    chain
      (record {
        resolver_id = codes "a";
        endpoint = udp_endpoint address_53;
        config_version = codes "1";
        challenge = some (codes "nonce");
        hops = [];
        terminal_upstreams = [];
        chain_errors = [];
        final_result = true;
        issued_at = 100;
        expires_at = some 130;
        issuer = codes "resolver-agent";
        key_id = codes "agent-key-01";
        schema_version = chain_schema;
        signature = some (codes "base64:ed25519:c2ln");
      })
      no_chains

-- The verification of the payload for a challenge.
abbrev verified : Bool → Text → Outcome PyError Chain
verified final challenge =
    verify_verification_chain_payload toy_net toy_sha trusting (chain_payload final) (codes "key")
      none none 110 5 (some challenge)

good_answer : verified true (codes "nonce") ≡ ok answer
unfolding verify_verification_chain_payload verify_ed25519_signature chain_from_dict
    node_from_fields endpoint_from hops_from validate_signed_window
    validate_verification_chain_semantics validate_node check_hops check_terminals check_parent
    lacks_chain refuse_if matches normalized canonical_ip strip same_endpoint lower both_differ
    both_given endpoint_lookup_key Dict.get text_at starts_with from_dict required read_endpoint
    int_value endpoints_from
good_answer = refl

-- The answer to another challenge is refused, and so is a chain that claims less than its hops show.
bad_answers :
    (verified true (codes "other") ≡ raised value_error)
    × (verified false (codes "nonce") ≡ raised value_error)
unfolding verify_verification_chain_payload verify_ed25519_signature chain_from_dict
    node_from_fields endpoint_from hops_from validate_signed_window
    validate_verification_chain_semantics validate_node check_hops check_terminals check_parent
    lacks_chain refuse_if matches normalized canonical_ip strip same_endpoint lower both_differ
    both_given endpoint_lookup_key Dict.get text_at starts_with from_dict required read_endpoint
    int_value endpoints_from
bad_answers = (refl, refl)

verify_verification_chain_payload-Answers_example : Answers (some (codes "nonce")) answer
verify_verification_chain_payload-Answers_example =
    verify_verification_chain_payload-Answers toy_net toy_sha trusting (chain_payload true)
      (codes "key") none none 110 5 (codes "nonce") answer good_answer
