-- ===== src/Agent/Tests.antt =====
-- Chains to run on: a resolver with an accepted hop to another, and a signed one without hops.
use fanxiangdiguijiexi.Agent.Toy.{trusting, endpoint_at}
use fanxiangdiguijiexi.Prelude.{
  ◌≡◌, refl, Bool, true, false, none, some, List, [], ◌∷◌, Text, codes, ok, raised, value_error,
  strip, lower,
}
use fanxiangdiguijiexi.Prelude.Dict
use fanxiangdiguijiexi.Json.{Fields, num, text, bool, object, end, field}
use fanxiangdiguijiexi.Crypto.Toy.{toy_sha}
use fanxiangdiguijiexi.Models.Endpoint.{
  from_dict, matches, normalized, canonical_ip, same_endpoint, both_differ, both_given,
  endpoint_lookup_key,
}
use fanxiangdiguijiexi.Models.Endpoint.Toy.{toy_net, udp_endpoint, address_53, address_54}
use fanxiangdiguijiexi.Cache.Store.{int_value}
use fanxiangdiguijiexi.Verifier.Object.{optional, lookup, required, read_endpoint, endpoints_from}
use fanxiangdiguijiexi.Verifier.Keys.{text_at, starts_with}
use fanxiangdiguijiexi.Agent.Chain.{
  Hop, Node, Chain, chain, no_chains, and_chain, refuse_if, lacks_chain, check_hops,
  check_terminals, check_parent, validate_node, validate_verification_chain_semantics,
}
use fanxiangdiguijiexi.Agent.Payload.{
  hop_schema, hop_from_dict, to_evidence, verify_hop_verification_result_payload, chain_schema,
  verify_ed25519_signature, chain_from_dict, node_from_fields, endpoint_from, hops_from,
  validate_signed_window, verify_verification_chain_payload,
}
use fanxiangdiguijiexi.Agent.SignedHop.{
  IsSignedHop, verify_hop_verification_result_payload-IsSignedHop,
}
use fanxiangdiguijiexi.Agent.Evidence.{validate_hop_evidence_integrity, check_accepted}
use fanxiangdiguijiexi.Agent.Sound.{IsValid, validate_node-IsValid}
use fanxiangdiguijiexi.Agent.Signed.{IsSigned, verify_verification_chain_payload-IsSigned}

abbrev hop : Bool → Hop
hop accepted = record {
  from_resolver_id = codes "a";
  from_endpoint = udp_endpoint address_53;
  upstream_endpoint = udp_endpoint address_54;
  accepted = accepted;
  status = codes "ACTIVE";
  upstream_resolver_id = some (codes "b");
  reasons = [];
  evidence = [];
  issued_at = 100;
  expires_at = some 130;
  issuer = codes "resolver-agent";
  key_id = codes "agent-key-01";
  schema_version = codes "resolver-identity-hop-verification-v1";
  signature = none;
}

abbrev node : Text → Text → List Hop → Bool → Node
node resolver_id address hops final_result = record {
  resolver_id = resolver_id;
  endpoint = udp_endpoint address;
  config_version = codes "1";
  challenge = none;
  hops = hops;
  terminal_upstreams = [];
  chain_errors = [];
  final_result = final_result;
  issued_at = 100;
  expires_at = some 130;
  issuer = codes "resolver-agent";
  key_id = codes "agent-key-01";
  schema_version = chain_schema;
  signature = none;
}

abbrev two_nodes : Bool → Bool → Chain
two_nodes accepted final_result =
    chain (node (codes "a") address_53 (hop accepted ∷ []) final_result)
      (and_chain (chain (node (codes "b") address_54 [] true) no_chains) no_chains)

abbrev one_node : Bool → Chain
one_node final_result = chain (node (codes "a") address_53 (hop false ∷ []) final_result) no_chains

two_accepted : validate_node toy_net toy_sha 64 (two_nodes true true) 0 ≡ ok (true, 2)
unfolding validate_node check_hops check_terminals check_parent lacks_chain refuse_if matches
    normalized canonical_ip strip same_endpoint lower both_differ both_given endpoint_lookup_key
    Dict.get Dict.put
two_accepted = refl

-- A downstream chain needs an accepted hop.
two_unaccepted : validate_node toy_net toy_sha 64 (two_nodes false false) 0 ≡ raised value_error
unfolding validate_node check_hops check_terminals check_parent lacks_chain refuse_if matches
    normalized canonical_ip strip same_endpoint lower both_differ both_given endpoint_lookup_key
    Dict.get Dict.put
two_unaccepted = refl

one_unaccepted : validate_node toy_net toy_sha 64 (one_node false) 0 ≡ ok (false, 1)
unfolding validate_node check_hops check_terminals check_parent lacks_chain refuse_if matches
    normalized canonical_ip strip same_endpoint lower both_differ both_given endpoint_lookup_key
    Dict.get Dict.put
one_unaccepted = refl

validate_node-IsValid_example : IsValid toy_net toy_sha 64 (two_nodes true true) 0 (true, 2)
validate_node-IsValid_example =
    validate_node-IsValid toy_net toy_sha 64 (two_nodes true true) 0 (true, 2) two_accepted

abbrev payload : Fields
payload = field (codes "schema_version") (text chain_schema) (
    field (codes "resolver_id") (text (codes "a")) (
      field (codes "endpoint") (object (endpoint_at address_53)) (
        field (codes "config_version") (text (codes "1")) (
          field (codes "final_result") (bool true) (
            field (codes "issued_at") (num 100) (
              field (codes "expires_at") (num 130)
                (field (codes "signature") (text (codes "base64:ed25519:c2ln")) end)))))))

abbrev from_payload : Chain
from_payload =
    chain
      (record (node (codes "a") address_53 [] true) {
        signature = some (codes "base64:ed25519:c2ln");
      })
      no_chains

good_payload :
    verify_verification_chain_payload toy_net toy_sha trusting payload
      (codes "key")
      none
      none
      110
      5
      none
    ≡ ok from_payload
unfolding verify_verification_chain_payload verify_ed25519_signature chain_from_dict
    node_from_fields endpoint_from hops_from validate_signed_window
    validate_verification_chain_semantics validate_node check_hops check_terminals check_parent
    lacks_chain refuse_if matches normalized canonical_ip strip same_endpoint lower both_differ
    both_given endpoint_lookup_key Dict.get text_at starts_with from_dict required read_endpoint
    int_value endpoints_from
good_payload = refl

verify_verification_chain_payload-IsSigned_example :
    IsSigned toy_net trusting payload (codes "key") 110 5 from_payload
verify_verification_chain_payload-IsSigned_example =
    verify_verification_chain_payload-IsSigned toy_net toy_sha trusting payload (codes "key") none
      none 110 5 none from_payload good_payload

-- A hop that was accepted, with its evidence.
abbrev hop_payload : Fields
hop_payload = field (codes "schema_version") (text hop_schema) (
    field (codes "from_resolver_id") (text (codes "a")) (
      field (codes "from_endpoint") (object (endpoint_at address_53)) (
        field (codes "upstream_endpoint") (object (endpoint_at address_53)) (
          field (codes "accepted") (bool true) (
            field (codes "status") (text (codes "VERIFIED")) (
              field (codes "evidence")
                (object (
                  field (codes "object_hash") (text (codes "0x01")) (
                    field (codes "object_version") (num 1)
                      (field (codes "state_root") (text (codes "0x02")) end))))
                (field (codes "issued_at") (num 100) (
                  field (codes "expires_at") (num 130)
                    (field (codes "signature") (text (codes "base64:ed25519:c2ln")) end)))))))))

abbrev from_hop_payload : Hop
from_hop_payload = record {
  from_resolver_id = codes "a";
  from_endpoint = udp_endpoint address_53;
  upstream_endpoint = udp_endpoint address_53;
  accepted = true;
  status = codes "VERIFIED";
  upstream_resolver_id = none;
  reasons = [];
  evidence =
      (codes "object_hash", text (codes "0x01"))
      ∷ (codes "object_version", num 1)
      ∷ (codes "state_root", text (codes "0x02"))
      ∷ [];
  issued_at = 100;
  expires_at = some 130;
  issuer = codes "resolver-agent";
  key_id = codes "agent-key-01";
  schema_version = hop_schema;
  signature = some (codes "base64:ed25519:c2ln");
}

good_hop :
    verify_hop_verification_result_payload toy_net toy_sha trusting hop_payload
      (codes "key")
      none
      none
      110
      5
    ≡ ok from_hop_payload
unfolding verify_hop_verification_result_payload verify_ed25519_signature hop_from_dict
    endpoint_from to_evidence validate_signed_window validate_hop_evidence_integrity check_accepted
    refuse_if text_at starts_with from_dict required optional read_endpoint int_value lookup
    normalized canonical_ip strip lower endpoint_lookup_key Dict.get
good_hop = refl

verify_hop_verification_result_payload-IsSignedHop_example :
    IsSignedHop toy_net trusting hop_payload (codes "key") 110 5 from_hop_payload
verify_hop_verification_result_payload-IsSignedHop_example =
    verify_hop_verification_result_payload-IsSignedHop toy_net toy_sha trusting hop_payload
      (codes "key") none none 110 5 from_hop_payload good_hop
