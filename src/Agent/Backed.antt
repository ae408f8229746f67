-- ===== src/Agent/Backed.antt =====
-- What a signed chain of agent/distributed_verifier.py says of its Agent's upstreams.
use fanxiangdiguijiexi.Prelude.{
  ◌≡◌, refl, sym, ◌∙◌, Bool, true, false, Option, List, [], ◌∷◌, leb, All, Text, codes, ok, same_ok,
  clash, Bool-cases, inl, inr, subst, ap,
}
use fanxiangdiguijiexi.Crypto.Sha.{Sha256}
use fanxiangdiguijiexi.Models.Endpoint.{Endpoint, Net, normalized}
use fanxiangdiguijiexi.Cache.Manager.{Cache}
use fanxiangdiguijiexi.Cache.Run.{ran}
use fanxiangdiguijiexi.Verifier.Keys.{Signer}
use fanxiangdiguijiexi.Json.{end}
use fanxiangdiguijiexi.Agent.Chain.{Node, Chain, Chains, chain, node_of}
use fanxiangdiguijiexi.Agent.Keys.{endpoint_cache_key}
use fanxiangdiguijiexi.Agent.Print.{sign_chain, node_to_dict, chains_to_items}
use fanxiangdiguijiexi.Agent.Sound.{Vouched, vouched, AllVouched, none_below, returned}
use fanxiangdiguijiexi.Agent.Build.{
  Agent, Surroundings, Building, chains_of, in_order, build_upstream, build_upstreams, chain_built,
  nothing_built, build_chain, build_chain_payload,
}
use fanxiangdiguijiexi.Agent.Built.{Backing, in_order-InOrder, build_upstream-Rounded}

-- A signature is no part of what a chain vouches for.
resigned :
    (node : Node) (t : Option Text) (downstream : Chains)
    → Vouched (chain node downstream)
    → Vouched (chain (record node { signature = t }) downstream)
resigned node t downstream (vouched clear below) =
    vouched
      (record {
        no_errors = clear.no_errors;
        hops_accepted = clear.hops_accepted;
        final = clear.final;
      })
      below

module _ (net : Net) (s : Sha256) (signer : Signer) (agent : Agent) (world : Surroundings) where
  record AllRounded (endpoints : List Endpoint) (b b' : Building) : Type 0 where
    before : in_order b ≡ true
    backing : All (Backing net s signer agent world) endpoints
    chains :
        AllVouched (chains_of b.downstream_chains) → AllVouched (chains_of b'.downstream_chains)

  build_upstreams-AllRounded :
      (own_key : Text) (challenge : Option Text) (endpoints : List Endpoint) (b b' : Building)
      (c : Cache)
      → (build_upstreams net s signer agent world own_key challenge endpoints b c).0 ≡ ok b'
      → in_order b' ≡ true
      → AllRounded endpoints b b'
  unfolding build_upstreams
  build_upstreams-AllRounded own_key challenge [] b b' c h good =
      let same : b ≡ b' = same_ok h in
      record {
        before = ap in_order same ∙ good;
        backing = tt;
        chains = subst (λ x. AllVouched (chains_of x.downstream_chains)) same;
      }
  build_upstreams-AllRounded own_key challenge (e ∷ rest) b b' c h good =
      ran (build_upstream net s signer agent world own_key challenge e b c) _ h (λ b1 e1 h1.
        let others = build_upstreams-AllRounded own_key challenge rest b1 b' _ h1 good in
        let first =
          build_upstream-Rounded net s signer agent world own_key challenge e b b1 c e1
            others.before in
        record {
          before = first.before;
          backing = (first.backing, others.backing);
          chains = λ ws. others.chains (first.chains ws);
        })

  -- What the chain of an Agent says when it claims a true result.
  pub record IsBacked (c : Chain) : Type 0 where
    pub own : (node_of c).resolver_id ≡ agent.resolver_id
    pub vouching : Vouched c
    pub upstreams : All (Backing net s signer agent world) agent.upstreams

  chain_built-IsBacked :
      (challenge : Option Text) (b : Building) (final_result : Bool) (c : Chain)
      → chain_built net s signer agent world challenge b final_result ≡ ok c
      → (node_of c).final_result ≡ final_result
        × (final_result ≡ true
            → in_order b ≡ true
            → AllVouched (chains_of b.downstream_chains)
            → All (Backing net s signer agent world) agent.upstreams
            → IsBacked c)
  unfolding chain_built
  chain_built-IsBacked challenge b final_result c h =
      returned (normalized net agent.endpoint) _ h (λ endpoint e h1.
        let same = same_ok h1 in
        (
          ap (λ x. (node_of x).final_result) (sym same),
          λ on good below backing.
              let p = in_order-InOrder b good in
              subst IsBacked same (record {
                own = refl;
                vouching =
                    vouched (record { no_errors = p.errors; hops_accepted = p.hops; final = on })
                      below;
                upstreams = backing;
              }),
        ))

  build_chain-IsBacked :
      (challenge : Option Text) (cache : Cache) (c : Chain)
      → (build_chain net s signer agent world challenge cache).0 ≡ ok c
      → (node_of c).final_result ≡ true
      → IsBacked c
  unfolding build_chain
  build_chain-IsBacked challenge cache c h final =
      ran (endpoint_cache_key net agent.endpoint, cache) _ h
        (λ own_key e h1. elim (Bool-cases (leb agent.max_depth 0)) [
          | inl deep ↦
              let (claim, rest) =
                chain_built-IsBacked challenge
                  (nothing_built (codes "agent verification chain exceeded max_depth" ∷ [])) false c
                  (rw deep at h1) in
              absurd (clash claim final)
          | inr shallow ↦
              ran
                (build_upstreams net s signer agent world own_key challenge agent.upstreams
                  (nothing_built []) cache)
                _ (rw shallow at h1)
                (λ b e2 h2.
                  let (claim, rest) = chain_built-IsBacked challenge b (in_order b) c h2 in
                  let good : in_order b ≡ true = sym claim ∙ final in
                  let all =
                    build_upstreams-AllRounded own_key challenge agent.upstreams (nothing_built [])
                      b cache e2 good in
                  rest good good (all.chains none_below) all.backing)
        ])

  sign_chain-IsBacked :
      (c d : Chain)
      → sign_chain net world.sign c ≡ ok d
      → ((node_of c).final_result ≡ (node_of d).final_result) × (IsBacked c → IsBacked d)
  unfolding sign_chain
  sign_chain-IsBacked (chain node downstream) d h =
      returned (node_to_dict net node (chains_to_items net downstream) end) _ h (λ unsigned e h1.
        let same = same_ok h1 in
        (
          ap (λ x. (node_of x).final_result) same,
          λ p. subst IsBacked same (record {
            own = p.own;
            vouching = resigned node _ downstream p.vouching;
            upstreams = p.upstreams;
          }),
        ))

  -- When `build_chain_payload` signs a chain that claims a true result, every node of it has no errors
  -- and accepts each of its hops; and each upstream of the Agent is at a configured boundary, or was
  -- verified as it stands and accepted, with an Ed25519 key that signs the chain of the Agent there,
  -- which is in its signed window and claims a true result too.
  pub build_chain_payload-IsBacked :
      (challenge : Option Text) (cache : Cache) (c : Chain)
      → (build_chain_payload net s signer agent world challenge cache).0 ≡ ok c
      → (node_of c).final_result ≡ true
      → IsBacked c
  unfolding build_chain_payload
  build_chain_payload-IsBacked challenge cache c h final =
      ran (build_chain net s signer agent world challenge cache) _ h (λ built e h1.
        let (claim, keep) = sign_chain-IsBacked built c h1 in
        keep (build_chain-IsBacked challenge cache built e (claim ∙ final)))
