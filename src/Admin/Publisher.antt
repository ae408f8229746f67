-- ===== src/Admin/Publisher.antt =====
-- `AdminPublisher.publish` of admin/publisher.py, up to the calls of the indexer: what is signed and
-- hashed, and what is written to the registry. A write stays when a later step raises.
use fanxiangdiguijiexi.Prelude.{
  Bool, true, false, ◌&&◌, Option, none, some, List, [], ◌∷◌, ltb, ◌==◌, ◌/◌, if◌then◌else◌, any,
  option_eq, Text, codes, text_eq, or_blank, given, Outcome, PyError, value_error, ok, raised,
  ◌>>=◌,
}
use fanxiangdiguijiexi.Json.{Value, Items, Fields, num, text, array, object, nil, cons, end, field}
use fanxiangdiguijiexi.Crypto.Sha.{Sha256}
use fanxiangdiguijiexi.Crypto.Merkle.{Proof, merkle_leaf, merkle_root, build_merkle_proof}
use fanxiangdiguijiexi.Models.Endpoint.{Endpoint, Net, normalized, to_dict, endpoint_lookup_key}
use fanxiangdiguijiexi.Verifier.Object.{Clock, Operator, ResolverObject, parse_rfc3339}
use fanxiangdiguijiexi.Verifier.Judge.{object_hash, resolver_id_key}
use fanxiangdiguijiexi.Admin.Registry.{
  AnchorRow, RegistryRepository, active_status, revoked_status, get_anchor_row, publish_anchor,
  get_binding, bind_endpoint, unbind_endpoint, publish_root, get_root,
}

-- A key with a text, where there is one.
abbrev with_text : Text → Option Text → Fields → Fields
with_text key none rest = rest
with_text key (some t) rest = field key (text t) rest

abbrev operator_to_dict : Operator → Value
operator_to_dict o = object (
    field (codes "operator_id") (text o.operator_id)
      (field (codes "name") (text o.name) (with_text (codes "trust_domain") o.trust_domain end)))

-- What `publish` has worked out before it reads the registry.
pub record Prepared : Type 0 where
  pub rid_key : Text
  pub anchor : AnchorRow
  pub leaf_hash : Text
  pub proof : Proof
  pub endpoint_keys : List Text
  pub signature : Text

-- The loops over the endpoint keys.
unfoldable pub bind_all : List Text → Text → RegistryRepository → RegistryRepository
bind_all [] rid_key r = r
bind_all (key ∷ keys) rid_key r = bind_all keys rid_key (bind_endpoint key rid_key r)

abbrev pub unbind_removed : List Text → Text → Text → RegistryRepository → RegistryRepository
unbind_removed new rid_key key r =
    if any (text_eq key) new
    then r
    else if option_eq (get_binding key r) (some rid_key)
    then unbind_endpoint key r
    else r

unfoldable pub unbind_all : List Text → List Text → Text → RegistryRepository → RegistryRepository
unbind_all [] new rid_key r = r
unbind_all (key ∷ previous) new rid_key r =
    unbind_all previous new rid_key (unbind_removed new rid_key key r)

abbrev pub rebind : Prepared → List Text → RegistryRepository → RegistryRepository
rebind p previous r =
    unbind_all previous p.endpoint_keys p.rid_key (bind_all p.endpoint_keys p.rid_key r)

abbrev pub same_content : AnchorRow → AnchorRow → Bool
same_content a b =
    text_eq a.object_hash b.object_hash
    && text_eq a.state_root b.state_root
    && text_eq a.status b.status

-- Whether the anchor was there already, or an exception, and the registry with the anchor.
unfoldable pub anchor_object :
    Option AnchorRow → Prepared → RegistryRepository → Outcome PyError Bool × RegistryRepository
unfolding publish_anchor
anchor_object none p r = (ok false, publish_anchor p.rid_key p.anchor r)
anchor_object (some current) p r =
    if current.object_version == p.anchor.object_version
    then if same_content current p.anchor then (ok true, r) else (raised value_error, r)
    else if ltb p.anchor.object_version current.object_version
    then (raised value_error, r)
    else (ok false, publish_anchor p.rid_key p.anchor r)

abbrev pub open_root : Text → RegistryRepository → RegistryRepository
open_root state_root r =
    if option_eq (get_root state_root r) (some active_status)
    then r
    else publish_root state_root active_status r

abbrev pub rebound :
    Prepared
    → List Text
    → Outcome PyError Bool × RegistryRepository
    → Outcome PyError Bool × RegistryRepository
rebound p previous (raised e, r) = (raised e, r)
rebound p previous (ok idempotent, r) = (ok idempotent, rebind p previous r)

-- The calls of the registry. `previous` are the endpoint keys that the indexer has of the resolver.
unfoldable pub publish_prepared :
    Prepared → List Text → RegistryRepository → Outcome PyError Bool × RegistryRepository
unfolding anchor_object
publish_prepared p previous r =
    if option_eq (get_root p.anchor.state_root r) (some revoked_status)
    then (raised value_error, r)
    else let r' = open_root p.anchor.state_root r in
      rebound p previous (anchor_object (get_anchor_row p.rid_key r') p r')

abbrev pub prepared_result :
    Outcome PyError Prepared
    → List Text
    → RegistryRepository
    → Outcome PyError (Prepared × Bool) × RegistryRepository
prepared_result (raised e) previous r = (raised e, r)
prepared_result (ok p) previous r =
    let (idempotent, r') = publish_prepared p previous r in (idempotent >>= λ i. ok (p, i), r')

abbrev signed_fields : Option Text → Fields
signed_fields none = end
signed_fields (some t) = field (codes "signature") (text t) end

module _ (net : Net) (s : Sha256) (clock : Clock) (sign_object : Value → Text) where
  unfoldable pub normal_items : List Endpoint → Outcome PyError Items
  normal_items [] = ok nil
  normal_items (e ∷ rest) = do
    n ← normalized net e
    items ← normal_items rest
    ok (cons (to_dict n) items)

  -- `ResolverAuthenticityObjectV1.to_dict`, with the signature to include.
  unfoldable pub object_to_dict : ResolverObject → Option Text → Outcome PyError Value
  unfolding normal_items
  object_to_dict obj signature = do
    endpoints ← normal_items obj.endpoints
    ok (
        object (
          field (codes "schema_version") (text obj.schema_version) (
            field (codes "canonical_version") (num obj.canonical_version) (
              field (codes "resolver_id") (text obj.resolver_id) (
                field (codes "resolver_type") (text obj.resolver_type) (
                  field (codes "operator") (operator_to_dict obj.operator) (
                    field (codes "endpoints") (array endpoints) (
                      field (codes "attestation") (object obj.attestation) (
                        field (codes "valid_from") (text obj.valid_from) (
                          field (codes "valid_until") (text obj.valid_until) (
                            field (codes "status") (text obj.status) (
                              field (codes "object_version") (num obj.object_version) (
                                field (codes "issuer") (text obj.issuer) (
                                  field (codes "key_id") (text obj.key_id)
                                    (signed_fields signature)))))))))))))))

  unfoldable pub endpoint_keys_of : List Endpoint → Outcome PyError (List Text)
  endpoint_keys_of [] = ok []
  endpoint_keys_of (e ∷ rest) = do
    key ← endpoint_lookup_key net s e
    keys ← endpoint_keys_of rest
    ok (key ∷ keys)

  abbrev root_or : Option Text → List Text → Outcome PyError Text
  root_or state_root leaves =
      if given state_root then ok (or_blank state_root) else merkle_root s leaves

  -- The first part of `publish`, which touches nothing but the object's signature.
  unfoldable pub prepare : ResolverObject → Option Text → Outcome PyError Prepared
  unfolding object_to_dict endpoint_keys_of
  prepare obj state_root = do
    let rid_key = resolver_id_key s obj.resolver_id
    unsigned ← object_to_dict obj none
    let signature = sign_object unsigned
    signed ← object_to_dict obj (some signature)
    let hash = object_hash s signed
    let leaf = merkle_leaf s rid_key hash obj.object_version obj.status
    proof ← build_merkle_proof s (leaf ∷ []) 0
    root ← root_or state_root (leaf ∷ [])
    keys ← endpoint_keys_of obj.endpoints
    valid_until ← parse_rfc3339 clock obj.valid_until
    ok (record {
      rid_key = rid_key;
      anchor = record {
        object_hash = hash;
        state_root = root;
        object_version = obj.object_version;
        valid_until = valid_until / 1000000;
        status = obj.status;
      };
      leaf_hash = leaf;
      proof = proof;
      endpoint_keys = keys;
      signature = signature;
    })

  -- `publish` without the calls of the indexer after it. What it returns is made of the prepared
  -- values and `idempotent`.
  unfoldable pub publish_to_registry :
      ResolverObject
      → Option Text
      → List Text
      → RegistryRepository
      → Outcome PyError (Prepared × Bool) × RegistryRepository
  unfolding prepare publish_prepared
  publish_to_registry obj state_root previous r =
      prepared_result (prepare obj state_root) previous r
