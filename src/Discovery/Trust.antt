-- ===== src/Discovery/Trust.antt =====
-- What a chain that `_validate_chain_node` of wrapper/resolver_chain.py lets through is.
use fanxiangdiguijiexi.Prelude.{
  ◌≡◌, ◌∙◌, true, Option, none, some, List, [], ◌∷◌, inl, inr, leb, length, any, Text, codes,
  text_eq, truthy, ok, Bool-cases, subst, sym, ap, not, ◌&&◌,
}
use fanxiangdiguijiexi.Prelude.Dict
use fanxiangdiguijiexi.Prelude.Dict.{Dict, get-put, get-put_same}
use fanxiangdiguijiexi.Json.{Value, text, is_true}
use fanxiangdiguijiexi.Crypto.Sha.{Sha256}
use fanxiangdiguijiexi.Models.Endpoint.{Endpoint, Net, matches}
use fanxiangdiguijiexi.Models.Verification.{VerificationResult}
use fanxiangdiguijiexi.Verifier.Keys.{Signer}
use fanxiangdiguijiexi.Agent.Chain.{Node, Chain, Chains, chain, no_chains, and_chain, node_of}
use fanxiangdiguijiexi.Agent.Sound.{returned}
use fanxiangdiguijiexi.Agent.Signed.{not-false}
use fanxiangdiguijiexi.Agent.Keys.{endpoint_cache_key}
use fanxiangdiguijiexi.Discovery.Signatures.{
  Setting, Bound, signer_of, key_of, known_first, validate_chain_signatures, chain_signed,
  check_signed_hops, validate_chain_node, validate_downstream,
}
use fanxiangdiguijiexi.Discovery.Introduced.{
  unfailed, nothing_at, some_eq, put_here, signer_of-some, key_of-text, ChainSigned,
  chain_signed-ChainSigned, Introduces, AllIntroduced, check_signed_hops-AllIntroduced,
}

module _ (net : Net) (s : Sha256) (signer : Signer) (setting : Setting) where
  mutual
    -- A chain is signed under the key bound to its signer, and a hop signed under that key introduces
    -- the signer of each chain below, which is trusted in turn.
    pub data Trusted : Chain → Bound → Type 0 where
      trusted :
          {node : Node} {downstream : Chains} {b : Bound} {public_key : Text}
          → b.public_key ≡ text public_key
          → ChainSigned net s signer setting public_key (chain node downstream)
          → EachTrusted node public_key downstream
          → Trusted (chain node downstream) b

    pub data EachTrusted : Node → Text → Chains → Type 0 where
      none_below : {node : Node} {public_key : Text} → EachTrusted node public_key no_chains
      introduced :
          {node : Node} {public_key : Text} {c : Chain} {rest : Chains} {b : Bound}
          → Introduces net s signer setting node public_key (node_of c).resolver_id b
          → Trusted c b
          → EachTrusted node public_key rest
          → EachTrusted node public_key (and_chain c rest)

  abbrev IsTrusted : Dict Bound → Chain → Type 0
  IsTrusted known c = (b : Bound) × (Dict.get (node_of c).resolver_id known ≡ some b) × Trusted c b

  mutual
    unfolding validate_chain_node validate_downstream

    node-IsTrusted :
        (challenge : Option Text) (c : Chain) (known result : Dict Bound) (visiting : List Text)
        → validate_chain_node net s signer setting challenge c known visiting ≡ ok result
        → IsTrusted known c
    node-IsTrusted challenge (chain node downstream) known result visiting h =
        returned (endpoint_cache_key net node.endpoint) _ h (λ key e1 h1.
          unfailed (any (text_eq key) visiting) _ h1 (λ e2 h2.
            unfailed (leb setting.max_depth (length visiting)) _ h2 (λ e3 h3.
              returned (signer_of (Dict.get node.resolver_id known)) _ h3 (λ b e4 h4.
                returned (key_of b.public_key) _ h4 (λ public_key e5 h5.
                  returned
                    (chain_signed net s signer setting (chain node downstream) public_key b.endpoint
                      challenge)
                    _ h5
                    (λ verified e6 h6.
                      returned
                        (check_signed_hops net s signer setting node public_key (key ∷ visiting)
                          node.hops [])
                        _ h6
                        (λ by_resolver e7 h7.
                          let introduced : AllIntroduced net s signer setting node public_key
                              by_resolver =
                            check_signed_hops-AllIntroduced net s signer setting node public_key
                              (key ∷ visiting) node.hops [] by_resolver (λ hop at. at)
                              (λ id b e. absurd (nothing_at id e)) e7 in
                          (
                            b,
                            signer_of-some _ e4,
                            trusted (key_of-text b.public_key e5)
                                (chain_signed-ChainSigned net s signer setting
                                  (chain node downstream) public_key b.endpoint challenge verified
                                  e6)
                                (below-EachTrusted challenge downstream node public_key by_resolver
                                  known result (key ∷ visiting) introduced h7),
                          ))))))))

    below-EachTrusted :
        (challenge : Option Text) (cs : Chains) (node : Node) (public_key : Text)
        (by_resolver known result : Dict Bound) (visiting : List Text)
        → AllIntroduced net s signer setting node public_key by_resolver
        → validate_downstream net s signer setting challenge cs by_resolver known visiting
          ≡ ok result
        → EachTrusted node public_key cs
    below-EachTrusted challenge no_chains node public_key by_resolver known result visiting all h =
        none_below
    below-EachTrusted challenge (and_chain c rest) node public_key by_resolver known result visiting
          all h =
        returned (signer_of (Dict.get (node_of c).resolver_id by_resolver)) _ h (λ b e1 h1.
          returned
            (validate_chain_node net s signer setting challenge c
              (Dict.put (node_of c).resolver_id b known) visiting)
            _ h1
            (λ known' e2 h2.
              let (bound, found, trust) = node-IsTrusted challenge c _ known' visiting e2 in
              let same : b ≡ bound =
                some_eq (sym (get-put_same (node_of c).resolver_id b known) ∙ found) in
              introduced (all (node_of c).resolver_id b (signer_of-some _ e1))
                (subst (Trusted c) (sym same) trust)
                (below-EachTrusted challenge rest node public_key by_resolver known' result visiting
                  all h2)))

  known_first-eq-some :
      (id : Text) (found : Option Text) (key : Option Value) (endpoint : Endpoint) (b : Bound)
      → Dict.get id (known_first found key endpoint) ≡ some b
      → (found ≡ some id) × (key ≡ some b.public_key) × (b.endpoint ≡ endpoint)
  unfolding known_first
  known_first-eq-some id none key endpoint b h = absurd (nothing_at id h)
  known_first-eq-some id (some name) none endpoint b h = absurd (nothing_at id h)
  known_first-eq-some id (some name) (some key) endpoint b h =
      elim (Bool-cases (truthy name && is_true key)) [
        | inr off ↦ absurd (nothing_at id (rw off at h))
        | inl on ↦ elim (put_here id name _ [] (rw on at h)) [
          | inl before ↦ absurd (nothing_at id before)
          | inr (same, this) ↦
              (ap some same, ap (λ x. some (Bound.public_key x)) this, sym (ap Bound.endpoint this))
        ]
      ]

  -- A chain at an endpoint that is trusted from the key that the first hop's verified evidence binds.
  pub record StartsTrust (c : Chain) (endpoint : Endpoint) (first : VerificationResult)
      : Type 0 where
    pub bound : Bound
    pub resolver : first.resolver_id ≡ some (node_of c).resolver_id
    pub key : Dict.get (codes "agent_public_key") first.evidence ≡ some bound.public_key
    pub same_endpoint : bound.endpoint ≡ endpoint
    pub at_endpoint : matches net (node_of c).endpoint endpoint ≡ ok true
    pub trust : Trusted c bound

  -- A chain that `_validate_chain_signatures` lets through is at the observed endpoint and is signed,
  -- as it stands, under the Agent key that the first hop's verified evidence binds to its resolver;
  -- each chain below it, at any depth, is signed under the key in the evidence of an accepted hop of
  -- the chain above, to the resolver that the hop names, and that hop is itself signed under the key
  -- of the chain above.
  pub validate_chain_signatures-StartsTrust :
      (c : Chain) (endpoint : Endpoint) (first : VerificationResult) (challenge : Option Text)
      (known : Dict Bound)
      → validate_chain_signatures net s signer setting c endpoint first challenge ≡ ok known
      → StartsTrust c endpoint first
  unfolding validate_chain_signatures
  validate_chain_signatures-StartsTrust c endpoint first challenge known h =
      returned (matches net (node_of c).endpoint endpoint) _ h (λ matched e1 h1.
        unfailed (not matched) _ h1 (λ e2 h2.
          let (b, found, trust) = node-IsTrusted challenge c _ known [] h2 in
          let (resolver, key, same) = known_first-eq-some _ first.resolver_id _ endpoint b found in
          record {
            bound = b;
            resolver = resolver;
            key = key;
            same_endpoint = same;
            at_endpoint = e1 ∙ ap ok (not-false matched e2);
            trust = trust;
          }))
