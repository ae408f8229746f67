-- ===== src/Agent/BuildTests.antt =====
-- An Agent that builds its chain from the chain of the next one.
use fanxiangdiguijiexi.Agent.Toy.{trusting, endpoint_at}
use fanxiangdiguijiexi.Cache.Toy.{empty_cache}
use fanxiangdiguijiexi.Prelude.{
  ◌≡◌, refl, true, false, Bool, none, some, Option, [], ◌∷◌, codes, Outcome, PyError, ok, raised,
  runtime_error, strip, lower, decimal,
}
use fanxiangdiguijiexi.Prelude.Dict
use fanxiangdiguijiexi.Json.{Fields, text, num, bool, object, field, end}
use fanxiangdiguijiexi.Crypto.Toy.{toy_sha}
use fanxiangdiguijiexi.Models.Endpoint.{
  normalized, canonical_ip, matches, from_dict, same_endpoint, both_differ, both_given,
}
use fanxiangdiguijiexi.Models.Endpoint.Toy.{toy_net, udp_endpoint, address_53, address_54}
use fanxiangdiguijiexi.Models.Verification
use fanxiangdiguijiexi.Models.Verification.{VerificationResult}
use fanxiangdiguijiexi.Cache.Store.{int_value}
use fanxiangdiguijiexi.Verifier.Keys.{text_at, starts_with}
use fanxiangdiguijiexi.Verifier.Object.{required, read_endpoint, endpoints_from}
use fanxiangdiguijiexi.Agent.Chain.{
  Chain, chain, no_chains, node_of, validate_node, validate_verification_chain_semantics,
  check_hops, check_terminals, check_parent, lacks_chain, refuse_if,
}
use fanxiangdiguijiexi.Agent.Payload.{
  chain_schema, verify_verification_chain_payload, verify_ed25519_signature, chain_from_dict,
  node_from_fields, endpoint_from, hops_from, validate_signed_window,
}
use fanxiangdiguijiexi.Agent.Keys.{endpoint_cache_key, cache_key_of, agent_url_for, any_matching}
use fanxiangdiguijiexi.Agent.Print.{sign_chain, sign_hop}
use fanxiangdiguijiexi.Agent.Build.{
  Agent, Surroundings, agent_key, fetch_verified, build_chain_payload,
}
use fanxiangdiguijiexi.Agent.Backed.{IsBacked, build_chain_payload-IsBacked}

-- The chain of the resolver at the second address.
abbrev payload_b : Bool → Fields
payload_b final = field (codes "schema_version") (text chain_schema) (
    field (codes "resolver_id") (text (codes "b")) (
      field (codes "endpoint") (object (endpoint_at address_54)) (
        field (codes "config_version") (text (codes "1")) (
          field (codes "final_result") (bool final) (
            field (codes "issued_at") (num 100) (
              field (codes "expires_at") (num 130)
                (field (codes "signature") (text (codes "base64:ed25519:c2ln")) end)))))))

abbrev verified_b : VerificationResult
verified_b = record {
  accepted = true;
  status = Verification.verified;
  resolver_id = some (codes "b");
  reasons = [];
  evidence =
      (codes "agent_public_key", text (codes "key"))
      ∷ (codes "agent_key_algorithm", text (codes "ed25519"))
      ∷ [];
}

abbrev world : Outcome PyError Fields → Surroundings
world answer = record {
  now = 110;
  verify_endpoint = λ e c. (ok verified_b, c);
  sign = λ v. codes "base64:ed25519:c2ln";
  fetch_verification_chain = λ url challenge. answer;
  error_text = λ e. codes "error";
}

abbrev agent : Agent
agent = record {
  resolver_id = codes "a";
  endpoint = udp_endpoint address_53;
  upstreams = udp_endpoint address_54 ∷ [];
  config_version = codes "1";
  agent_base_urls = (address_54, codes "http://b") ∷ [];
  terminal_upstreams = [];
  max_age_seconds = 30;
  max_depth = 4;
  max_clock_skew_seconds = 5;
  issuer = codes "resolver-agent";
  key_id = codes "agent-key-01";
}

abbrev chain_b : Bool → Chain
chain_b final =
    chain
      (record {
        resolver_id = codes "b";
        endpoint = udp_endpoint address_54;
        config_version = codes "1";
        challenge = none;
        hops = [];
        terminal_upstreams = [];
        chain_errors = [];
        final_result = final;
        issued_at = 100;
        expires_at = some 130;
        issuer = codes "resolver-agent";
        key_id = codes "agent-key-01";
        schema_version = chain_schema;
        signature = some (codes "base64:ed25519:c2ln");
      })
      no_chains

-- The answer of the next Agent is good.
answer_b :
    verify_verification_chain_payload toy_net toy_sha trusting
      (payload_b true)
      (codes "key")
      (some (codes "b"))
      (some (udp_endpoint address_54))
      110
      5
      none
    ≡ ok (chain_b true)
unfolding verify_verification_chain_payload verify_ed25519_signature chain_from_dict
    node_from_fields endpoint_from hops_from validate_signed_window
    validate_verification_chain_semantics validate_node check_hops check_terminals check_parent
    lacks_chain refuse_if matches normalized canonical_ip strip same_endpoint lower both_differ
    both_given text_at starts_with from_dict required read_endpoint int_value endpoints_from
answer_b = refl

abbrev built : Outcome PyError Fields → Outcome PyError Chain
built answer =
    (build_chain_payload toy_net toy_sha trusting agent (world answer) none empty_cache).0

abbrev chain_or : Chain → Outcome PyError Chain → Chain
chain_or default (ok c) = c
chain_or default (raised e) = default

abbrev signed_a : Chain
signed_a = chain_or (chain_b false) (built (ok (payload_b true)))

-- What an Agent claims.
abbrev claim : Outcome PyError Chain → Option Bool
claim (ok c) = some (node_of c).final_result
claim (raised e) = none

-- When the next Agent does not answer, the chain is signed all the same, and claims a false result.
unanswered : claim (built (raised runtime_error)) ≡ some false
unfolding build_chain_payload cache_key_of endpoint_cache_key normalized canonical_ip strip lower
    decimal any_matching agent_url_for Dict.get agent_key sign_chain sign_hop fetch_verified
unanswered = refl

built_a : built (ok (payload_b true)) ≡ ok signed_a
unfolding build_chain_payload cache_key_of endpoint_cache_key normalized canonical_ip strip lower
    decimal any_matching agent_url_for Dict.get agent_key sign_chain sign_hop fetch_verified
built_a = rw answer_b refl

signed_a_final : (node_of signed_a).final_result ≡ true
unfolding build_chain_payload cache_key_of endpoint_cache_key normalized canonical_ip strip lower
    decimal any_matching agent_url_for Dict.get agent_key sign_chain sign_hop fetch_verified
signed_a_final = rw answer_b refl

build_chain_payload-IsBacked_example :
    IsBacked toy_net toy_sha trusting agent (world (ok (payload_b true))) signed_a
build_chain_payload-IsBacked_example =
    build_chain_payload-IsBacked toy_net toy_sha trusting agent (world (ok (payload_b true))) none
      empty_cache signed_a built_a signed_a_final
