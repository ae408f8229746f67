-- ===== src/Discovery/Depth.antt =====
-- How deep a chain is that `_validate_chain_node` of wrapper/resolver_chain.py lets through.
use fanxiangdiguijiexi.Prelude.{
  ℕ, ◌+◌, ◌≤◌, ◌≡◌, Option, List, [], ◌∷◌, max, arith, leb, length, any, Text, text_eq, ok,
}
use fanxiangdiguijiexi.Prelude.Dict
use fanxiangdiguijiexi.Prelude.Dict.{Dict}
use fanxiangdiguijiexi.Crypto.Sha.{Sha256}
use fanxiangdiguijiexi.Models.Endpoint.{Net}
use fanxiangdiguijiexi.Verifier.Keys.{Signer}
use fanxiangdiguijiexi.Agent.Chain.{Chain, Chains, chain, no_chains, and_chain, node_of}
use fanxiangdiguijiexi.Agent.Sound.{returned}
use fanxiangdiguijiexi.Agent.Keys.{endpoint_cache_key}
use fanxiangdiguijiexi.Discovery.Signatures.{
  Setting, Bound, signer_of, key_of, chain_signed, check_signed_hops, validate_chain_node,
  validate_downstream,
}
use fanxiangdiguijiexi.Discovery.Introduced.{unfailed}

-- The length of the longest way down.
mutual
  pub height : Chain → ℕ
  height (chain node downstream) = 1 + heights downstream

  pub heights : Chains → ℕ
  heights no_chains = 0
  heights (and_chain c rest) = max (height c) (heights rest)

module _ (net : Net) (s : Sha256) (signer : Signer) (setting : Setting) where
  mutual
    unfolding validate_chain_node validate_downstream height heights

    height-bounded :
        (challenge : Option Text) (c : Chain) (known result : Dict Bound) (visiting : List Text)
        → validate_chain_node net s signer setting challenge c known visiting ≡ ok result
        → height c + length visiting ≤ setting.max_depth
    height-bounded challenge (chain node downstream) known result visiting h =
        returned (endpoint_cache_key net node.endpoint) _ h (λ key e1 h1.
          unfailed (any (text_eq key) visiting) _ h1 (λ e2 h2.
            unfailed (leb setting.max_depth (length visiting)) _ h2 (λ e3 h3.
              returned (signer_of (Dict.get node.resolver_id known)) _ h3 (λ b e4 h4.
                returned (key_of b.public_key) _ h4 (λ public_key e5 h5.
                  returned
                    (chain_signed net s signer setting (chain node downstream) public_key b.endpoint
                      challenge)
                    _ h5
                    (λ verified e6 h6.
                      returned
                        (check_signed_hops net s signer setting node public_key (key ∷ visiting)
                          node.hops [])
                        _ h6
                        (λ by_resolver e7 h7.
                          let below =
                            heights-bounded challenge downstream by_resolver known result
                              (key ∷ visiting) (ground (arith, e3)) h7 in
                          omega (arith, below))))))))

    heights-bounded :
        (challenge : Option Text) (cs : Chains) (by_resolver known result : Dict Bound)
        (visiting : List Text)
        → length visiting ≤ setting.max_depth
        → validate_downstream net s signer setting challenge cs by_resolver known visiting
          ≡ ok result
        → heights cs + length visiting ≤ setting.max_depth
    heights-bounded challenge no_chains by_resolver known result visiting few h = omega (arith, few)
    heights-bounded challenge (and_chain c rest) by_resolver known result visiting few h =
        returned (signer_of (Dict.get (node_of c).resolver_id by_resolver)) _ h (λ b e1 h1.
          returned
            (validate_chain_node net s signer setting challenge c
              (Dict.put (node_of c).resolver_id b known) visiting)
            _ h1
            (λ known' e2 h2.
              let this = height-bounded challenge c _ known' visiting e2 in
              let others =
                heights-bounded challenge rest by_resolver known' result visiting few h2 in
              omega (arith, this, others)))

  -- A chain that `_validate_chain_node` lets through, with some keys already on the way down to it, has
  -- at most `max_depth` levels less those.
  pub validate_chain_node-height :
      (challenge : Option Text) (c : Chain) (known result : Dict Bound) (visiting : List Text)
      → validate_chain_node net s signer setting challenge c known visiting ≡ ok result
      → height c + length visiting ≤ setting.max_depth
  validate_chain_node-height challenge c known result visiting h =
      height-bounded challenge c known result visiting h
