-- ===== src/Discovery/Sample.antt =====
-- A resolver whose Agent introduces the next one, observed by the wrapper: data and runs for the tests.
use fanxiangdiguijiexi.Agent.Toy.{trusting}
use fanxiangdiguijiexi.Cache.Toy.{empty_cache}
use fanxiangdiguijiexi.Prelude.{
  ◌≡◌, refl, true, false, some, Option, List, [], ◌∷◌, Text, codes, Outcome, PyError, ok, raised,
  ◌>>=◌, runtime_error, strip, lower, decimal,
}
use fanxiangdiguijiexi.Prelude.Dict
use fanxiangdiguijiexi.Prelude.Dict.{Dict}
use fanxiangdiguijiexi.Json.{text, num}
use fanxiangdiguijiexi.Crypto.Toy.{toy_sha}
use fanxiangdiguijiexi.Models.Endpoint.{
  normalized, canonical_ip, matches, from_dict, same_endpoint, both_differ, both_given,
  endpoint_lookup_key, to_dict,
}
use fanxiangdiguijiexi.Models.Endpoint.Toy.{toy_net, udp_endpoint, address_53, address_54}
use fanxiangdiguijiexi.Models.Verification
use fanxiangdiguijiexi.Models.Verification.{VerificationResult}
use fanxiangdiguijiexi.Cache.Manager.{accept_with}
use fanxiangdiguijiexi.Cache.Store.{int_value}
use fanxiangdiguijiexi.Verifier.Keys.{text_at, starts_with}
use fanxiangdiguijiexi.Verifier.Object.{required, optional, lookup, read_endpoint, endpoints_from}
use fanxiangdiguijiexi.Agent.Chain.{
  Hop, Node, Chain, chain, no_chains, and_chain, validate_node,
  validate_verification_chain_semantics, check_hops, check_terminals, check_parent, lacks_chain,
  refuse_if,
}
use fanxiangdiguijiexi.Agent.Evidence.{validate_hop_evidence_integrity, check_accepted}
use fanxiangdiguijiexi.Agent.Payload.{
  hop_schema, chain_schema, verify_verification_chain_payload,
  verify_hop_verification_result_payload, verify_ed25519_signature, chain_from_dict,
  node_from_fields, hop_from_dict, to_evidence, endpoint_from, hops_from, validate_signed_window,
}
use fanxiangdiguijiexi.Agent.Keys.{
  endpoint_cache_key, cache_key_of, agent_url_for, unique_endpoints, put_endpoint, same_identity,
}
use fanxiangdiguijiexi.Agent.Print.{chain_to_dict, hop_to_dict}
use fanxiangdiguijiexi.Agent.Flatten.{flatten_chain_endpoints, flatten_chain_results, hop_results}
use fanxiangdiguijiexi.Discovery.Signatures.{
  Setting, Bound, fail_if, key_of, signer_of, known_first, bind_hop, hop_signed, chain_signed,
  check_signed_hops, validate_chain_node, validate_chain_signatures,
}
use fanxiangdiguijiexi.Verifier.Object.{fields_of}
use fanxiangdiguijiexi.Discovery.Context.{
  Provider, record_context_from_chain, update_context, rolls_back, identity_of,
}
use fanxiangdiguijiexi.Discovery.Versions.{chain_config_version}
use fanxiangdiguijiexi.Discovery.Observe.{
  Outside, Observed, bound_key, first_key, lacks_challenge, fetch_first_chain, observe_chain,
  observe_result, observe_distributed_chain,
}

abbrev pub setting : Setting
setting = record { max_depth = 4; max_clock_skew_seconds = 5; now = 110 }

abbrev pub signature : Option Text
signature = some (codes "base64:ed25519:c2ln")

abbrev pub hop_b : Hop
hop_b = record {
  from_resolver_id = codes "a";
  from_endpoint = udp_endpoint address_53;
  upstream_endpoint = udp_endpoint address_54;
  accepted = true;
  status = codes "VERIFIED";
  upstream_resolver_id = some (codes "b");
  reasons = [];
  evidence =
      (codes "object_hash", text (codes "0x01"))
      ∷ (codes "object_version", num 1)
      ∷ (codes "state_root", text (codes "0x02"))
      ∷ (codes "agent_public_key", text (codes "key-b"))
      ∷ [];
  issued_at = 100;
  expires_at = some 130;
  issuer = codes "resolver-agent";
  key_id = codes "agent-key-01";
  schema_version = hop_schema;
  signature = signature;
}

abbrev pub node : Text → Text → List Hop → Node
node resolver_id address hops = record {
  resolver_id = resolver_id;
  endpoint = udp_endpoint address;
  config_version = codes "1";
  challenge = some (codes "nonce");
  hops = hops;
  terminal_upstreams = [];
  chain_errors = [];
  final_result = true;
  issued_at = 100;
  expires_at = some 130;
  issuer = codes "resolver-agent";
  key_id = codes "agent-key-01";
  schema_version = chain_schema;
  signature = signature;
}

abbrev pub chain_b : Chain
chain_b = chain (node (codes "b") address_54 []) no_chains

abbrev pub chain_a : Chain
chain_a = chain (node (codes "a") address_53 (hop_b ∷ [])) (and_chain chain_b no_chains)

abbrev pub verified_a : VerificationResult
verified_a = record {
  accepted = true;
  status = Verification.verified;
  resolver_id = some (codes "a");
  reasons = [];
  evidence =
      (codes "agent_public_key", text (codes "key-a"))
      ∷ (codes "agent_key_algorithm", text (codes "ed25519"))
      ∷ [];
}

abbrev pub nonce : Option Text
nonce = some (codes "nonce")

pub good_a :
    chain_signed toy_net toy_sha trusting setting chain_a
      (codes "key-a")
      (udp_endpoint address_53)
      nonce
    ≡ ok chain_a
unfolding chain_signed verify_verification_chain_payload verify_ed25519_signature chain_from_dict
    node_from_fields endpoint_from hops_from hop_from_dict to_evidence validate_signed_window
    validate_verification_chain_semantics validate_node check_hops check_terminals check_parent
    lacks_chain refuse_if matches normalized canonical_ip strip same_endpoint lower both_differ
    both_given endpoint_lookup_key Dict.get Dict.put text_at starts_with from_dict required optional
    lookup read_endpoint int_value endpoints_from chain_to_dict to_dict
good_a = refl

pub good_b :
    chain_signed toy_net toy_sha trusting setting chain_b
      (codes "key-b")
      (udp_endpoint address_54)
      nonce
    ≡ ok chain_b
unfolding chain_signed verify_verification_chain_payload verify_ed25519_signature chain_from_dict
    node_from_fields endpoint_from hops_from hop_from_dict to_evidence validate_signed_window
    validate_verification_chain_semantics validate_node check_hops check_terminals check_parent
    lacks_chain refuse_if matches normalized canonical_ip strip same_endpoint lower both_differ
    both_given endpoint_lookup_key Dict.get Dict.put text_at starts_with from_dict required optional
    lookup read_endpoint int_value endpoints_from chain_to_dict to_dict
good_b = refl

pub good_hop :
    hop_signed toy_net toy_sha trusting setting
      (node (codes "a") address_53 (hop_b ∷ []))
      (codes "key-a")
      hop_b
    ≡ ok hop_b
unfolding hop_signed verify_hop_verification_result_payload verify_ed25519_signature hop_from_dict
    endpoint_from to_evidence validate_signed_window validate_hop_evidence_integrity check_accepted
    refuse_if text_at starts_with from_dict required optional read_endpoint int_value lookup
    normalized canonical_ip strip lower endpoint_lookup_key Dict.get hop_to_dict matches
    same_endpoint both_differ both_given to_dict
good_hop = refl

abbrev pub known_b : Dict Bound
known_b =
    (codes "a", record { public_key = text (codes "key-a"); endpoint = udp_endpoint address_53 })
    ∷ (codes "b", record { public_key = text (codes "key-b"); endpoint = udp_endpoint address_54 })
    ∷ []

pub good_chain :
    validate_chain_signatures toy_net toy_sha trusting setting chain_a
      (udp_endpoint address_53)
      verified_a
      nonce
    ≡ ok known_b
unfolding validate_chain_signatures validate_chain_node known_first fail_if matches normalized
    canonical_ip strip same_endpoint lower both_differ both_given endpoint_cache_key cache_key_of
    decimal signer_of key_of check_signed_hops bind_hop Dict.get Dict.put
good_chain = rw (good_a, good_hop, good_b) refl

abbrev pub outside : Outside
outside = record {
  agent_base_urls = (address_53, codes "http://a") ∷ [];
  strict = true;
  signature_secret = [];
  allow_hmac_fallback = false;
  require_challenge = true;
  distributed_verification = true;
  verify_endpoint = λ e c. (ok verified_a, c);
  fetch_identity = λ url. raised runtime_error;
  fetch_verification_chain = λ url challenge. chain_to_dict toy_net chain_a >>= λ v. fields_of v;
}

abbrev pub fresh : Provider
fresh = record { context_cache = []; invalidated_endpoints = []; state_repository = some [] }

pub fetched_a :
    fetch_first_chain toy_net toy_sha trusting setting outside
      (udp_endpoint address_53)
      verified_a
      nonce
    ≡ ok chain_a
unfolding fetch_first_chain fail_if agent_url_for endpoint_cache_key cache_key_of normalized
    canonical_ip strip lower decimal Dict.get bound_key first_key key_of lacks_challenge
    chain_to_dict verify_verification_chain_payload verify_ed25519_signature chain_from_dict
    node_from_fields endpoint_from hops_from hop_from_dict to_evidence validate_signed_window
    validate_verification_chain_semantics validate_node check_hops check_terminals check_parent
    lacks_chain refuse_if matches same_endpoint both_differ both_given endpoint_lookup_key Dict.put
    text_at starts_with from_dict required optional lookup read_endpoint int_value endpoints_from
    to_dict
fetched_a = refl

abbrev pub observed_or : Outcome PyError Observed → Observed
observed_or (ok o) = o
observed_or (raised e) = record { observed = []; results = []; provider = fresh }

abbrev pub observation : Observed
observation = observed_or (
    observe_chain toy_net toy_sha trusting setting outside (codes "192.0.2.53:53:udp")
      (udp_endpoint address_53) verified_a fresh chain_a)

pub observed_a :
    observe_chain toy_net toy_sha trusting setting outside
      (codes "192.0.2.53:53:udp")
      (udp_endpoint address_53)
      verified_a
      fresh
      chain_a
    ≡ ok observation
unfolding observe_chain flatten_chain_endpoints flatten_chain_results hop_results unique_endpoints
    put_endpoint same_identity normalized canonical_ip strip lower record_context_from_chain
    update_context rolls_back identity_of chain_config_version Dict.get Dict.put accept_with
observed_a = refl

pub whole_run :
    (observe_distributed_chain toy_net toy_sha trusting setting outside
      (udp_endpoint address_53)
      nonce
      fresh
      empty_cache).0
    ≡ ok observation
unfolding observe_distributed_chain observe_result endpoint_cache_key cache_key_of normalized
    canonical_ip strip lower decimal
whole_run = rw (fetched_a, good_chain, observed_a) refl
