-- ===== src/Verifier/Sound.antt =====
-- What a judgement of verifier/resolver_verifier.py that approves has checked.
use fanxiangdiguijiexi.Prelude.{
  ℕ, ◌≡◌, refl, ap, ◌∙◌, text_eq_iff, true, Option, none, some, arith, ◌==◌, if◌then◌else◌, Text,
  text_eq, ok, subst,
}
use fanxiangdiguijiexi.Crypto.Sha.{Sha256}
use fanxiangdiguijiexi.Crypto.Merkle.{merkle_leaf}
use fanxiangdiguijiexi.Models.Endpoint.{Endpoint, Net}
use fanxiangdiguijiexi.Chain.Backend.{ChainStatus, ResolverAnchor, Registry, is_active}
use fanxiangdiguijiexi.Cache.Store.{Verified}
use fanxiangdiguijiexi.Verifier.Proof.{
  IsProven, bound_failure_reason, bound_failure_reason-IsProven,
}
use fanxiangdiguijiexi.Verifier.Object.{Clock, ResolverObject, object_from_dict, parse_rfc3339}
use fanxiangdiguijiexi.Verifier.Policy.{
  IsSound, check_object_semantics, check_object_semantics-IsSound,
}
use fanxiangdiguijiexi.Verifier.Keys.{Signer, verify_object_signature_with_registry}
use fanxiangdiguijiexi.Verifier.Judge.{
  LookupRow, ObjectRow, Indexer, Settings, bound_is, object_hash, resolver_id_key, any_matches,
  unchanged, anchored, authentic, proven, reread, judge,
}
use fanxiangdiguijiexi.Verifier.Proof.{ProofRow}
use fanxiangdiguijiexi.Verifier.Chains.{
  SomeMatches, any_matches-SomeMatches, lifted, needed, demanded, unreasoned, chained, demand-eq-ok,
}

module _ (net : Net) (s : Sha256) (clock : Clock) (signer : Signer) (settings : Settings)
    (indexer : Indexer) (registry : ℕ → Registry) where
  pub record IsAnchored (key : Text) (row : LookupRow) (anchor : ResolverAnchor) : Type 0 where
    pub looked_up : indexer.lookup key ≡ ok (some row)
    pub bound : Option Text
    pub bound_read : (registry 0).get_endpoint_binding key ≡ ok bound
    pub bound_here : bound_is bound row.resolver_id_key ≡ true
    pub anchor_read : (registry 1).get_anchor row.resolver_id_key ≡ ok (some anchor)
    pub active : is_active anchor.status ≡ true

  pub anchored-IsAnchored :
      (key : Text) (row : LookupRow) (anchor : ResolverAnchor)
      → anchored net s clock signer settings indexer registry key ≡ ok (row, anchor)
      → IsAnchored key row anchor
  unfolding anchored
  anchored-IsAnchored key row anchor h = lifted (indexer.lookup key) _ h (λ found e1 h1.
      needed found _ _ _ _ h1 (λ row' e2 h2.
        lifted ((registry 0).get_endpoint_binding key) _ h2 (λ bound e3 h3.
          demanded (bound_is bound row'.resolver_id_key) _ _ _ _ h3 (λ e4 h4.
            lifted ((registry 1).get_anchor row'.resolver_id_key) _ h4 (λ at e5 h5.
              needed at _ _ _ _ h5 (λ anchor' e6 h6.
                demanded (is_active anchor'.status) _ _ _ _ h6 (λ e7 h7.
                  let q : row' ≡ row = ground arith in
                  let q' : anchor' ≡ anchor = ground arith in
                  record {
                    looked_up = cc (e1, e2, q);
                    bound = bound;
                    bound_read = e3;
                    bound_here = subst (λ r. bound_is bound r.resolver_id_key ≡ true) q e4;
                    anchor_read =
                        subst (λ r. (registry 1).get_anchor r.resolver_id_key ≡ ok (some anchor)) q
                          (cc (e5, e6, q'));
                    active = subst (λ a. is_active a.status ≡ true) q' e7;
                  })))))))

  pub record IsAuthentic (row : LookupRow) (anchor : ResolverAnchor) (obj : ResolverObject)
      (object_row : ObjectRow) : Type 0 where
    pub stored : indexer.get_resolver row.resolver_id ≡ ok (some object_row)
    pub read : object_from_dict net object_row.object_json ≡ ok obj
    pub hash_stored : text_eq (object_hash s object_row.object_json) object_row.object_hash ≡ true
    pub hash_anchored : text_eq (object_hash s object_row.object_json) anchor.object_hash ≡ true
    pub version : (obj.object_version == anchor.object_version) ≡ true
    pub named : text_eq (resolver_id_key s obj.resolver_id) row.resolver_id_key ≡ true
    pub signed :
        verify_object_signature_with_registry signer object_row.object_json settings.issuer_keys
          (if settings.allow_hmac_signatures then some settings.signature_secret else none)
        ≡ true

  pub authentic-IsAuthentic :
      (row : LookupRow) (anchor : ResolverAnchor) (obj : ResolverObject) (object_row : ObjectRow)
      → authentic net s clock signer settings indexer registry row anchor ≡ ok (obj, object_row)
      → IsAuthentic row anchor obj object_row
  unfolding authentic
  authentic-IsAuthentic row anchor obj object_row h =
      lifted (indexer.get_resolver row.resolver_id) _ h (λ found e1 h1.
        needed found _ _ _ _ h1 (λ object_row' e2 h2.
          lifted (object_from_dict net object_row'.object_json) _ h2 (λ obj' e3 h3.
            demanded _ _ _ _ _ h3 (λ e4 h4. demanded _ _ _ _ _ h4 (λ e5 h5.
              demanded _ _ _ _ _ h5 (λ e6 h6. demanded _ _ _ _ _ h6 (λ e7 h7.
                demanded _ _ _ _ _ h7 (λ e8 h8.
                  let q : obj' ≡ obj = ground arith in
                  let q' : object_row' ≡ object_row = ground arith in
                  let there : IsAuthentic row anchor obj' object_row' = record {
                    stored = cc (e1, e2);
                    read = e3;
                    hash_stored = e4;
                    hash_anchored = e5;
                    version = e6;
                    named = e7;
                    signed = e8;
                  } in
                  subst (λ r. IsAuthentic row anchor obj r) q'
                    (subst (λ o. IsAuthentic row anchor o object_row') q there)))))))))

  pub record IsInOrder (row : LookupRow) (anchor : ResolverAnchor) (obj : ResolverObject)
      (local_hash : Text) (endpoint : Endpoint) (now : ℕ) : Type 0 where
    pub root_status : Option ChainStatus
    pub proof_row : Option ProofRow
    pub root_read : (registry 2).get_root_status anchor.state_root ≡ ok root_status
    pub proof_read : indexer.get_proof obj.resolver_id ≡ ok proof_row
    pub member :
        IsProven s proof_row root_status anchor.state_root
          (merkle_leaf s row.resolver_id_key local_hash obj.object_version obj.status)
    pub sound : IsSound clock settings.policy obj now
    pub matched : SomeMatches net endpoint obj.endpoints

  pub proven-IsInOrder :
      (row : LookupRow) (anchor : ResolverAnchor) (obj : ResolverObject) (local_hash : Text)
      (endpoint : Endpoint) (now : ℕ) (status : Option ChainStatus)
      → proven net s clock signer settings indexer registry row anchor obj local_hash endpoint now
        ≡ ok status
      → IsInOrder row anchor obj local_hash endpoint now
  unfolding proven
  proven-IsInOrder row anchor obj local_hash endpoint now status h =
      let leaf = merkle_leaf s row.resolver_id_key local_hash obj.object_version obj.status in
      lifted ((registry 2).get_root_status anchor.state_root) _ h (λ root_status e1 h1.
        lifted (indexer.get_proof obj.resolver_id) _ h1 (λ proof_row e2 h2.
          lifted (bound_failure_reason s proof_row root_status anchor.state_root leaf) _ h2
            (λ error e3 h3. unreasoned error _ _ _ h3 (λ e4 h4.
              lifted (check_object_semantics clock settings.policy obj now) _ h4 (λ semantic e5 h5.
                unreasoned semantic _ _ _ h5 (λ e6 h6.
                  lifted (any_matches net obj.endpoints endpoint) _ h6 (λ matched e7 h7.
                    demanded matched _ _ _ _ h7 (λ e8 h8. record {
                      root_status = root_status;
                      proof_row = proof_row;
                      root_read = e1;
                      proof_read = e2;
                      member =
                          bound_failure_reason-IsProven s proof_row root_status anchor.state_root
                            leaf (cc (e3, e4));
                      sound =
                          check_object_semantics-IsSound clock settings.policy obj now
                            (cc (e5, e6));
                      matched = any_matches-SomeMatches net obj.endpoints endpoint (cc (e7, e8));
                    }))))))))

  pub record IsUnchanged (key : Text) (row : LookupRow) (anchor : ResolverAnchor)
      (obj : ResolverObject) (local_hash : Text) : Type 0 where
    pub final_bound : Option Text
    pub final_anchor : ResolverAnchor
    pub final_root_status : ChainStatus
    pub bound_read : (registry 3).get_endpoint_binding key ≡ ok final_bound
    pub anchor_read : (registry 4).get_anchor row.resolver_id_key ≡ ok (some final_anchor)
    pub root_read : (registry 5).get_root_status anchor.state_root ≡ ok (some final_root_status)
    pub same_binding : final_bound ≡ some row.resolver_id_key
    pub still_active : is_active final_anchor.status ≡ true
    pub same_hash : final_anchor.object_hash ≡ local_hash
    pub same_version : final_anchor.object_version ≡ obj.object_version
    pub same_root : final_anchor.state_root ≡ anchor.state_root
    pub root_active : is_active final_root_status ≡ true

  -- What the comparison at the end compares.
  unchanged-parts :
      (bound : Option Text) (at : Option ResolverAnchor) (status : Option ChainStatus)
      (key hash : Text) (version : ℕ) (root : Text)
      → unchanged bound at status key hash version root ≡ true
      → (bound ≡ some key)
        × ((a : ResolverAnchor) × (at ≡ some a)
            × (is_active a.status ≡ true)
            × (a.object_hash ≡ hash)
            × (a.object_version ≡ version)
            × (a.state_root ≡ root))
        × ((st : ChainStatus) × (status ≡ some st) × (is_active st ≡ true))
  unfolding unchanged
  unchanged-parts none at status key hash version root h = absurd (cc h)
  unchanged-parts (some b) none status key hash version root h = absurd (ground arith)
  unchanged-parts (some b) (some a) none key hash version root h = absurd (ground arith)
  unchanged-parts (some b) (some a) (some st) key hash version root h =
      let same : b ≡ key = ground (arith, text_eq_iff b key) in
      (
        ap some same,
        (
          a,
          refl,
          ground arith,
          ground (arith, text_eq_iff a.object_hash hash),
          ground arith,
          ground (arith, text_eq_iff a.state_root root),
        ),
        (st, refl, ground arith),
      )

  pub reread-IsUnchanged :
      (key : Text) (row : LookupRow) (anchor : ResolverAnchor) (obj : ResolverObject)
      (local_hash : Text) {u : Unit}
      → reread net s clock signer settings indexer registry key row anchor obj local_hash ≡ ok u
      → IsUnchanged key row anchor obj local_hash
  unfolding reread
  reread-IsUnchanged key row anchor obj local_hash h =
      lifted ((registry 3).get_endpoint_binding key) _ h (λ bound e1 h1.
        lifted ((registry 4).get_anchor row.resolver_id_key) _ h1 (λ at e2 h2.
          lifted ((registry 5).get_root_status anchor.state_root) _ h2 (λ root_status e3 h3.
            let (here, (a, is_a, on, hash, version, root), (st, is_st, up)) =
              unchanged-parts bound at root_status row.resolver_id_key local_hash obj.object_version
                anchor.state_root (demand-eq-ok _ _ _ _ h3) in
            record {
              final_bound = bound;
              final_anchor = a;
              final_root_status = st;
              bound_read = e1;
              anchor_read = e2 ∙ ap ok is_a;
              root_read = e3 ∙ ap ok is_st;
              same_binding = here;
              still_active = on;
              same_hash = hash;
              same_version = version;
              same_root = root;
              root_active = up;
            })))

  -- Everything that an approved verification rests on.
  pub record Approved (endpoint : Endpoint) (key : Text) (now : ℕ) (v : Verified) : Type 0 where
    pub row : LookupRow
    pub anchor : ResolverAnchor
    pub obj : ResolverObject
    pub object_row : ObjectRow
    pub anchored_at : IsAnchored key row anchor
    pub authentic_in : IsAuthentic row anchor obj object_row
    pub in_order : IsInOrder row anchor obj (object_hash s object_row.object_json) endpoint now
    pub unchanged_at : IsUnchanged key row anchor obj (object_hash s object_row.object_json)
    pub resolver : v.resolver_id ≡ obj.resolver_id
    pub hash : v.object_hash ≡ object_hash s object_row.object_json
    pub version : v.object_version ≡ obj.object_version
    pub root : v.state_root ≡ anchor.state_root

  -- An approved verification: the indexer's row for the endpoint names a resolver key to which the
  -- registry binds the endpoint and for which it has an ACTIVE anchor; the resolver's stored object
  -- hashes to the indexer's and to the anchored hash, has the anchored version, is named as the key
  -- says, and its signature verifies; its leaf has a proof to the anchored root, which is ACTIVE; it
  -- is in its validity, in order for the policy, and one of its endpoints matches; the registry,
  -- read again at the end, still says the same; and what goes to the cache is of that object.
  pub judge-Approved :
      (endpoint : Endpoint) (key : Text) (now : ℕ) (v : Verified)
      → judge net s clock signer settings indexer registry endpoint key now ≡ ok v
      → Approved endpoint key now v
  unfolding judge
  judge-Approved endpoint key now v h =
      chained (anchored net s clock signer settings indexer registry key) _ h (λ first e1 h1.
        chained (authentic net s clock signer settings indexer registry first.0 first.1) _ h1
          (λ second e2 h2.
            let local_hash = object_hash s second.1.object_json in
            chained
              (proven net s clock signer settings indexer registry first.0 first.1 second.0
                local_hash endpoint now)
              _ h2
              (λ status e3 h3.
                lifted (parse_rfc3339 clock second.0.valid_until) _ h3 (λ valid_until e4 h4.
                  chained
                    (reread net s clock signer settings indexer registry key first.0 first.1
                      second.0 local_hash)
                    _ h4
                    (λ u e5 h5. record {
                      row = first.0;
                      anchor = first.1;
                      obj = second.0;
                      object_row = second.1;
                      anchored_at = anchored-IsAnchored key first.0 first.1 e1;
                      authentic_in = authentic-IsAuthentic first.0 first.1 second.0 second.1 e2;
                      in_order =
                          proven-IsInOrder first.0 first.1 second.0 local_hash endpoint now status
                            e3;
                      unchanged_at = reread-IsUnchanged key first.0 first.1 second.0 local_hash e5;
                      resolver = ground arith;
                      hash = ground arith;
                      version = ground arith;
                      root = ground arith;
                    })))))
