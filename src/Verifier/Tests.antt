-- ===== src/Verifier/Tests.antt =====
-- A run of the verifier: one resolver, published and anchored, with one UDP endpoint.
use fanxiangdiguijiexi.Cache.Toy.{empty_cache, undisturbed}
use fanxiangdiguijiexi.Prelude.{
  ℕ, ◌≡◌, refl, true, false, none, some, [], ◌∷◌, if◌then◌else◌, Text, codes, text_eq, lower, upper,
  strip, rstrip, decimal, Outcome, PyError, ok,
}
use fanxiangdiguijiexi.Prelude.Dict
use fanxiangdiguijiexi.Json.{
  Value, num, text, object, array, field, end, cons, nil, canonical_json, dumps, quote, sort_keys,
  insert_sorted, join, pair_text, text_le, strip_signature,
}
use fanxiangdiguijiexi.Crypto.Toy.{toy_sha}
use fanxiangdiguijiexi.Crypto.Sha.{sha256_hex}
use fanxiangdiguijiexi.Crypto.Hex.{bytes_to_hex, hex}
use fanxiangdiguijiexi.Crypto.Merkle.{Proof, merkle_leaf, verify_merkle_proof, verify_loop}
use fanxiangdiguijiexi.Models.Endpoint.{
  Endpoint, normalized, canonical_ip, default_port, matches, same_endpoint, both_differ, both_given,
  from_dict, normalize_name, endpoint_lookup_key, binding_fields, to_dict,
}
use fanxiangdiguijiexi.Models.Endpoint.Toy.{toy_net, udp_endpoint, address_53}
use fanxiangdiguijiexi.Chain.Backend.{ResolverAnchor, Registry, active}
use fanxiangdiguijiexi.Cache.Manager.{Cache, get_valid}
use fanxiangdiguijiexi.Cache.Store.{Verified, store_verified, commit_row, verified_row, int_value}
use fanxiangdiguijiexi.Models.Verification
use fanxiangdiguijiexi.Models.Verification.{
  VerificationResult, accept, reject, verification_invalidated_during_commit,
}
use fanxiangdiguijiexi.Cache.Rows.{
  bump_generation, get_by_endpoint_lookup_key, latest, put_if_generation, put, trusted_cache_key,
}
use fanxiangdiguijiexi.Verifier.Proof.{
  ProofRow, IsProven, bound_failure_reason, failure_reason, binding_reason,
  bound_failure_reason-IsProven,
}
use fanxiangdiguijiexi.Verifier.Verify.{verify_endpoint, verify_cold, keyed_endpoint, miss_evidence}
use fanxiangdiguijiexi.Verifier.Sound.{Approved, judge-Approved}
use fanxiangdiguijiexi.Verifier.Accept.{Source, verify_endpoint-Source}
use fanxiangdiguijiexi.Verifier.Object.{
  Clock, object_from_dict, endpoints_from, read_endpoint, operator_from_dict, required, optional,
  lookup, parse_rfc3339, zone_of_z,
}
use fanxiangdiguijiexi.Verifier.Policy.{
  default_policy, check_object_semantics, check_form, is_allowed, expirations,
}
use fanxiangdiguijiexi.Verifier.Keys.{
  Signer, verify_object_signature_with_registry, text_at, starts_with, verify_object_signature,
  sign_object_hmac,
}
use fanxiangdiguijiexi.Verifier.Judge.{
  verified_evidence, LookupRow, Indexer, Settings, Stop, judge, anchored, authentic, proven, reread,
  lift, need, demand, no_reason, any_matches, unchanged, extract_agent_key, object_hash,
  resolver_id_key,
}

-- A clock that reads two times.
abbrev clock : Clock
clock = record {
  fromisoformat = λ t. if text_eq t (codes "from") then some 1000000 else some 900000000000;
}

abbrev signer : Signer
signer = record { hmac_sha256 = λ secret m. codes "mac"; ed25519_verify = λ key signature m. false }

abbrev settings : Settings
settings = record {
  policy = default_policy;
  signature_secret = codes "secret";
  issuer_keys = none;
  allow_hmac_signatures = true;
}

abbrev object_a : Value
object_a = object (
    field (codes "resolver_id") (text (codes "a")) (
      field (codes "operator")
        (object (
          field (codes "operator_id") (text (codes "o"))
            (field (codes "name") (text (codes "n")) end)))
        (field (codes "endpoints")
          (array (
            cons (object (field (codes "ip") (text address_53) (field (codes "port") (num 53) end)))
              nil))
          (field (codes "valid_from") (text (codes "from")) (
            field (codes "valid_until") (text (codes "until")) (
              field (codes "issuer") (text (codes "i")) (
                field (codes "key_id") (text (codes "k"))
                  (field (codes "signature") (text (codes "base64:hmac-sha256:mac")) end))))))))

abbrev key_a : Text
key_a = codes "key-a"

abbrev rid_a : Text
rid_a = resolver_id_key toy_sha (codes "a")

abbrev hash_a : Text
hash_a = object_hash toy_sha object_a

abbrev leaf_a : Text
leaf_a = merkle_leaf toy_sha rid_a hash_a 1 (codes "ACTIVE")

abbrev anchor_a : ResolverAnchor
anchor_a = record {
  resolver_id_key = rid_a;
  object_hash = hash_a;
  state_root = leaf_a;
  object_version = 1;
  valid_until = 900000;
  status = active;
}

abbrev registry_a : ℕ → Registry
registry_a n = record {
  get_endpoint_binding = λ k. ok (some rid_a);
  get_anchor = λ k. ok (some anchor_a);
  get_root_status = λ r. ok (some active);
}

abbrev proof_a : Proof
proof_a = record { leaf_hash = some leaf_a; siblings = some []; root = some leaf_a }

abbrev proof_row_a : ProofRow
proof_row_a = record { proof = some proof_a; own = proof_a; state_root = some leaf_a }

abbrev indexer_a : Indexer
indexer_a = record {
  lookup = λ k. ok (some (record { resolver_id_key = rid_a; resolver_id = codes "a" }));
  get_resolver = λ k. ok (some (record { object_json = object_a; object_hash = hash_a }));
  get_proof = λ k. ok (some proof_row_a);
}

abbrev judged : Outcome Stop Verified
judged =
    judge toy_net toy_sha clock signer settings indexer_a registry_a (udp_endpoint address_53) key_a
      2000000

abbrev row_a : LookupRow
row_a = record { resolver_id_key = rid_a; resolver_id = codes "a" }

-- What is approved, without the object's evidence.
abbrev verified_a : Text → Verified
verified_a key = record {
  endpoint_key = key;
  resolver_id = codes "a";
  endpoint = udp_endpoint address_53;
  object_hash = hash_a;
  object_version = 1;
  state_root = leaf_a;
  soft_expire_at = 602000000;
  hard_expire_at = 3602000000;
  evidence =
      (codes "endpoint_key", text key)
      ∷ (codes "resolver_id_key", text rid_a)
      ∷ (codes "object_hash", text hash_a)
      ∷ (codes "object_version", num 1)
      ∷ (codes "resolver_status", text (codes "ACTIVE"))
      ∷ (codes "state_root", text leaf_a)
      ∷ (codes "chain_status", text (codes "ACTIVE"))
      ∷ (codes "root_status", text (codes "ACTIVE"))
      ∷ (codes "endpoint_binding_status", text (codes "MATCHED"))
      ∷ [];
}

judged_a : judged ≡ ok (verified_a key_a)
unfolding judge anchored authentic proven reread lift need demand no_reason object_from_dict
    endpoints_from read_endpoint operator_from_dict required optional lookup
    verify_object_signature_with_registry text_at starts_with verify_object_signature
    sign_object_hmac check_object_semantics check_form parse_rfc3339 zone_of_z is_allowed
    expirations any_matches unchanged extract_agent_key verified_evidence int_value sha256_hex
    bytes_to_hex hex object_hash resolver_id_key normalize_name canonical_json dumps strip_signature
    quote sort_keys insert_sorted join pair_text text_le decimal merkle_leaf lower upper strip
    rstrip bound_failure_reason failure_reason binding_reason verify_merkle_proof verify_loop
    normalized canonical_ip default_port matches same_endpoint both_differ both_given from_dict
judged_a = refl

judge-Approved_example :
    Approved toy_net toy_sha clock signer settings indexer_a registry_a
      (udp_endpoint address_53)
      key_a
      2000000
      (verified_a key_a)
judge-Approved_example =
    judge-Approved toy_net toy_sha clock signer settings indexer_a registry_a
      (udp_endpoint address_53) key_a 2000000 (verified_a key_a) judged_a

abbrev endpoint_key_a : Text
endpoint_key_a =
    sha256_hex toy_sha
      (codes "endpoint-v2:{\"ip\":\"192.0.2.53\",\"port\":53,\"transport\":\"udp\"}")

abbrev run : Outcome PyError VerificationResult × Cache
run =
    verify_endpoint toy_net toy_sha clock signer settings indexer_a registry_a
      (udp_endpoint address_53) undisturbed (λ c. c) 2000000 3000000 empty_cache

abbrev result_a : VerificationResult
result_a = record {
  accepted = true;
  status = Verification.verified;
  resolver_id = some (codes "a");
  reasons = [];
  evidence = miss_evidence (verified_a endpoint_key_a).evidence 7 (codes "owner-1");
}

run_a : run.0 ≡ ok result_a
unfolding verify_endpoint verify_cold keyed_endpoint endpoint_lookup_key binding_fields to_dict
    get_valid get_by_endpoint_lookup_key latest store_verified commit_row verified_row
    put_if_generation put trusted_cache_key miss_evidence Dict.get Dict.put accept bump_generation
    judge anchored authentic proven reread lift need demand no_reason object_from_dict
    endpoints_from read_endpoint operator_from_dict required optional lookup
    verify_object_signature_with_registry text_at starts_with verify_object_signature
    sign_object_hmac check_object_semantics check_form parse_rfc3339 zone_of_z is_allowed
    expirations any_matches unchanged extract_agent_key verified_evidence int_value sha256_hex
    bytes_to_hex hex object_hash resolver_id_key normalize_name canonical_json dumps strip_signature
    quote sort_keys insert_sorted join pair_text text_le decimal merkle_leaf lower upper strip
    rstrip bound_failure_reason failure_reason binding_reason verify_merkle_proof verify_loop
    normalized canonical_ip default_port matches same_endpoint both_differ both_given from_dict
run_a = refl

verify_endpoint-Source_example :
    (e : Endpoint) × (key : Text) × (keyed_endpoint toy_net toy_sha (udp_endpoint address_53)
      ≡ ok (e, key))
    × Source toy_net toy_sha clock signer settings indexer_a registry_a undisturbed
        (λ c. c)
        2000000
        empty_cache
        run.1
        e
        key
        result_a
verify_endpoint-Source_example =
    verify_endpoint-Source toy_net toy_sha clock signer settings indexer_a registry_a
      (udp_endpoint address_53) undisturbed (λ c. c) 2000000 3000000 empty_cache result_a run_a refl

-- Moved by another thread before the commit, the result is withheld.
fenced_run :
    (verify_endpoint toy_net toy_sha clock signer settings indexer_a registry_a
      (udp_endpoint address_53)
      undisturbed
      (λ c. record c { repository = bump_generation c.repository })
      2000000
      3000000
      empty_cache).0
    ≡ ok (reject verification_invalidated_during_commit (some (codes "a")) [])
unfolding verify_endpoint verify_cold keyed_endpoint endpoint_lookup_key binding_fields to_dict
    get_valid get_by_endpoint_lookup_key latest store_verified commit_row verified_row
    put_if_generation put trusted_cache_key miss_evidence Dict.get Dict.put accept bump_generation
    judge anchored authentic proven reread lift need demand no_reason object_from_dict
    endpoints_from read_endpoint operator_from_dict required optional lookup
    verify_object_signature_with_registry text_at starts_with verify_object_signature
    sign_object_hmac check_object_semantics check_form parse_rfc3339 zone_of_z is_allowed
    expirations any_matches unchanged extract_agent_key verified_evidence int_value sha256_hex
    bytes_to_hex hex object_hash resolver_id_key normalize_name canonical_json dumps strip_signature
    quote sort_keys insert_sorted join pair_text text_le decimal merkle_leaf lower upper strip
    rstrip bound_failure_reason failure_reason binding_reason verify_merkle_proof verify_loop
    normalized canonical_ip default_port matches same_endpoint both_differ both_given from_dict
fenced_run = refl

bound_a : bound_failure_reason toy_sha (some proof_row_a) (some active) leaf_a leaf_a ≡ ok none
unfolding bound_failure_reason failure_reason binding_reason verify_merkle_proof verify_loop
    sha256_hex bytes_to_hex hex object_hash resolver_id_key normalize_name canonical_json dumps
    strip_signature quote sort_keys insert_sorted join pair_text text_le decimal merkle_leaf lower
    upper strip rstrip
bound_a = refl

bound_failure_reason-IsProven_example :
    IsProven toy_sha (some proof_row_a) (some active) leaf_a leaf_a
bound_failure_reason-IsProven_example =
    bound_failure_reason-IsProven toy_sha (some proof_row_a) (some active) leaf_a leaf_a bound_a
