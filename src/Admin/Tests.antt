-- ===== src/Admin/Tests.antt =====
-- A publication of a resolver that moved from one endpoint to another.
use fanxiangdiguijiexi.Prelude.{
  ◌≡◌, arith, refl, false, none, some, [], ◌∷◌, Text, codes, ok, raised, strip, lower, value_error,
}
use fanxiangdiguijiexi.Prelude.Dict
use fanxiangdiguijiexi.Json.{end}
use fanxiangdiguijiexi.Crypto.Sha.{Sha256, sha256_hex}
use fanxiangdiguijiexi.Crypto.Hex.{bytes_to_hex, hex}
use fanxiangdiguijiexi.Crypto.Toy.{copies, length-copies, All-copies}
use fanxiangdiguijiexi.Crypto.Merkle.{
  merkle_leaf, merkle_root, build_merkle_proof, proof_loop, root_loop,
}
use fanxiangdiguijiexi.Models.Endpoint.{normalized, endpoint_lookup_key, canonical_ip}
use fanxiangdiguijiexi.Models.Endpoint.Toy.{toy_net, udp_endpoint, address_53}
use fanxiangdiguijiexi.Verifier.Object.{Clock, ResolverObject, parse_rfc3339}
use fanxiangdiguijiexi.Verifier.Judge.{resolver_id_key, object_hash}
use fanxiangdiguijiexi.Admin.Registry.{
  RegistryRepository, active_status, revoked_status, publish_anchor, bind_endpoint, unbind_endpoint,
  publish_root, revoke_root, revoke_resolver, set_revoked,
}
use fanxiangdiguijiexi.Admin.Publisher.{
  Prepared, prepare, publish_to_registry, publish_prepared, anchor_object, bind_all, unbind_all,
  normal_items, object_to_dict, endpoint_keys_of,
}
use fanxiangdiguijiexi.Admin.Publishes.{IsPublished, publish_to_registry-IsPublished}

abbrev clock : Clock
clock = record { fromisoformat = λ t. some 900000000000 }

abbrev object_a : ResolverObject
object_a = record {
  resolver_id = codes "a";
  resolver_type = codes "recursive-forwarder";
  operator = record { operator_id = codes "o"; name = codes "n"; trust_domain = none };
  endpoints = udp_endpoint address_53 ∷ [];
  valid_from = codes "from";
  valid_until = codes "until";
  object_version = 2;
  issuer = codes "i";
  key_id = codes "k";
  schema_version = codes "resolver-auth-object-v1";
  canonical_version = 1;
  status = active_status;
  attestation = end;
  signature = none;
}

-- A digest that is the same for every message.
abbrev flat_sha : Sha256
flat_sha = record {
  digest = λ m. copies 32 7;
  digest_length = λ m. length-copies 32 7;
  digest_bytes = λ m. All-copies 32 7 (omega arith);
}

abbrev hash_7 : Text
hash_7 = codes "0x0707070707070707070707070707070707070707070707070707070707070707"

abbrev prepared_a : Prepared
prepared_a = record {
  rid_key = hash_7;
  anchor = record {
    object_hash = hash_7;
    state_root = hash_7;
    object_version = 2;
    valid_until = 900000;
    status = active_status;
  };
  leaf_hash = hash_7;
  proof = record { leaf_hash = some hash_7; siblings = some []; root = some hash_7 };
  endpoint_keys = hash_7 ∷ [];
  signature = codes "mac";
}

prepared : prepare toy_net flat_sha clock (λ v. codes "mac") object_a none ≡ ok prepared_a
unfolding prepare object_to_dict endpoint_keys_of normal_items normalized canonical_ip strip
    build_merkle_proof proof_loop merkle_root root_loop endpoint_lookup_key parse_rfc3339
    resolver_id_key object_hash merkle_leaf sha256_hex bytes_to_hex hex lower
prepared = refl

-- The resolver has version 1 and an endpoint that it gave up.
abbrev before : RegistryRepository
before = record {
  anchors =
      (
        prepared_a.rid_key,
        record {
          object_hash = codes "h";
          state_root = codes "r";
          object_version = 1;
          valid_until = 0;
          status = active_status;
        },
      )
      ∷ [];
  bindings = (codes "old", prepared_a.rid_key) ∷ [];
  roots = [];
  audit = [];
}

abbrev after : RegistryRepository
after = (publish_prepared prepared_a (codes "old" ∷ []) before).1

published :
    publish_to_registry toy_net flat_sha clock
      (λ v. codes "mac")
      object_a
      none
      (codes "old" ∷ [])
      before
    ≡ (ok (prepared_a, false), after)
unfolding publish_to_registry Dict.get publish_root
published = rw prepared refl

old_unbound : Dict.get (codes "old") after.bindings ≡ none
unfolding publish_prepared anchor_object publish_anchor publish_root bind_endpoint unbind_endpoint
    bind_all unbind_all Dict.get Dict.put Dict.remove
old_unbound = refl

-- Under a revoked root nothing is published.
refused :
    (publish_prepared prepared_a [] (revoke_root prepared_a.anchor.state_root before)).0
    ≡ raised value_error
unfolding publish_prepared revoke_root publish_root Dict.get Dict.put
refused = refl

anchor_revoked :
    Dict.get prepared_a.rid_key (revoke_resolver prepared_a.rid_key before).anchors
    ≡ some (record {
      object_hash = codes "h";
      state_root = codes "r";
      object_version = 1;
      valid_until = 0;
      status = revoked_status;
    })
unfolding revoke_resolver set_revoked Dict.get
anchor_revoked = refl

publish_to_registry-IsPublished_example :
    (prepare toy_net flat_sha clock (λ v. codes "mac") object_a none ≡ ok prepared_a)
    × IsPublished prepared_a before after
publish_to_registry-IsPublished_example =
    publish_to_registry-IsPublished toy_net flat_sha clock (λ v. codes "mac") object_a none
      (codes "old" ∷ []) before after prepared_a false published
