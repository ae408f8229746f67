-- ===== src/Agent/Built.antt =====
-- What a chain that `build_chain_payload` of agent/distributed_verifier.py signs rests on.
use fanxiangdiguijiexi.Prelude.{
  ◌≡◌, refl, sym, ◌∙◌, true, false, Option, none, some, List, [], ◌∷◌, ◌++◌, arith, all, all-append,
  is_empty, Text, codes, text_eq, truthy, Outcome, PyError, ok, raised, same_ok, >>=-eq-ok,
  Bool-cases, inl, inr, &&-left, subst, ap,
}
use fanxiangdiguijiexi.Json.{Fields}
use fanxiangdiguijiexi.Crypto.Sha.{Sha256}
use fanxiangdiguijiexi.Models.Endpoint.{Endpoint, Net, normalized}
use fanxiangdiguijiexi.Models.Verification.{VerificationResult}
use fanxiangdiguijiexi.Cache.Manager.{Cache}
use fanxiangdiguijiexi.Cache.Run.{ran}
use fanxiangdiguijiexi.Verifier.Keys.{Signer}
use fanxiangdiguijiexi.Agent.Chain.{Hop, Chain, node_of}
use fanxiangdiguijiexi.Agent.Keys.{endpoint_cache_key, agent_url_for, any_matching}
use fanxiangdiguijiexi.Agent.Print.{sign_hop}
use fanxiangdiguijiexi.Agent.Sound.{Vouched, AllVouched, none_below, more_below}
use fanxiangdiguijiexi.Agent.Signed.{IsSigned, verify_verification_chain_payload-IsSigned}
use fanxiangdiguijiexi.Agent.Build.{
  Agent, Surroundings, Building, with_error, agent_key, chains_of, claims, in_order,
  from_verification_result, fetch_verified, with_chain, with_key, claimed, follow, build_upstream,
}

is_empty-append {ℓ} : {A : Type ℓ} (xs : List A) (x : A) → is_empty (xs ++ x ∷ []) ≡ false
is_empty-append [] x = refl
is_empty-append (y ∷ xs) x = refl

in_order-with_error : (e : Text) (b : Building) → in_order (with_error e b) ≡ false
unfolding in_order
in_order-with_error e b = ground (arith, is_empty-append b.chain_errors e)

-- The parts of a building that is in order.
pub record InOrder (b : Building) : Type 0 where
  pub hops : all Hop.accepted b.hops ≡ true
  pub chains : all claims b.downstream_chains ≡ true
  pub errors : is_empty b.chain_errors ≡ true

pub in_order-InOrder : (b : Building) → in_order b ≡ true → InOrder b
unfolding in_order
in_order-InOrder b h = record { hops = ground arith; chains = ground arith; errors = ground arith }

in_order-of : (b : Building) → InOrder b → in_order b ≡ true
unfolding in_order
in_order-of b p = rw (p.hops, p.chains, p.errors) refl

AllVouched-append :
    (ds : List Chain) (d : Chain)
    → AllVouched (chains_of ds)
    → Vouched d
    → AllVouched (chains_of (ds ++ d ∷ []))
AllVouched-append [] d none_below v = more_below v none_below
AllVouched-append (x ∷ ds) d (more_below w ws) v = more_below w (AllVouched-append ds d ws v)

in_order-add_hop :
    (hop : Hop) (b : Building)
    → in_order (record b { hops = b.hops ++ hop ∷ [] }) ≡ true
    → in_order b ≡ true
in_order-add_hop hop b h =
    let p = in_order-InOrder _ h in
    in_order-of b (record {
      hops =
          &&-left (all Hop.accepted b.hops) (all Hop.accepted (hop ∷ []))
            (cc (p.hops, all-append Hop.accepted b.hops (hop ∷ [])));
      chains = p.chains;
      errors = p.errors;
    })

in_order-add_chain :
    (d : Chain) (b : Building)
    → in_order (record b { downstream_chains = b.downstream_chains ++ d ∷ [] }) ≡ true
    → in_order b ≡ true
in_order-add_chain d b h =
    let p = in_order-InOrder _ h in
    in_order-of b (record {
      hops = p.hops;
      chains =
          &&-left (all claims b.downstream_chains) (all claims (d ∷ []))
            (cc (p.chains, all-append claims b.downstream_chains (d ∷ [])));
      errors = p.errors;
    })

in_order-kept :
    (b : Building) (u : Endpoint)
    → in_order (record b { terminal_upstreams = b.terminal_upstreams ++ u ∷ [] }) ≡ true
    → in_order b ≡ true
unfolding in_order
in_order-kept b u h = h

module _ (net : Net) (s : Sha256) (signer : Signer) (agent : Agent) (world : Surroundings) where
  -- The chain of the Agent at an upstream, which the upstream's verified key signs.
  pub record Adjacent (result : VerificationResult) (d : Chain) : Type 0 where
    pub accepted : result.accepted ≡ true
    pub key : Text
    pub bound : agent_key result.evidence ≡ some key
    pub payload : Fields
    pub signed : IsSigned net signer payload key world.now agent.max_clock_skew_seconds d
    pub final : (node_of d).final_result ≡ true

  -- What a good chain rests on at one upstream.
  pub data Backing (endpoint : Endpoint) : Type 0 where
    boundary :
        (u : Endpoint)
        → normalized net endpoint ≡ ok u
        → any_matching net agent.terminal_upstreams u ≡ ok true
        → Backing endpoint
    adjacent :
        (u : Endpoint)
        → normalized net endpoint ≡ ok u
        → (c : Cache) (result : VerificationResult) → (world.verify_endpoint u c).0 ≡ ok result
        → (d : Chain) → Adjacent result d
        → Backing endpoint

  -- What a round that follows one hop leaves.
  record Followed (result : VerificationResult) (b b' : Building) : Type 0 where
    before : in_order b ≡ true
    chain_below : Chain
    next : Adjacent result chain_below
    chains : b'.downstream_chains ≡ b.downstream_chains ++ chain_below ∷ []

  with_chain-Followed :
      (result : VerificationResult) (key public_key url : Text) (u : Endpoint)
      (challenge : Option Text) (b : Building) (m : Outcome PyError Chain)
      → result.accepted ≡ true
      → agent_key result.evidence ≡ some public_key
      → fetch_verified net s signer agent world url public_key result.resolver_id u challenge ≡ m
      → in_order (with_chain net s signer agent world key m b) ≡ true
      → Followed result b (with_chain net s signer agent world key m b)
  unfolding fetch_verified
  with_chain-Followed result key public_key url u challenge b (raised e) a k q h =
      absurd (cc (h, in_order-with_error _ b))
  with_chain-Followed result key public_key url u challenge b (ok d) a k q h =
      let (payload, e1, e2) = >>=-eq-ok (world.fetch_verification_chain url challenge) _ q in
      let before = in_order-add_chain d (claimed (node_of d).final_result key b) h in
      elim (Bool-cases (node_of d).final_result) [
        | inr off ↦ absurd (
            cc (
              ap (λ t. in_order (claimed t key b)) off,
              before,
              in_order-with_error (codes "downstream chain rejected for " ++ key) b,
            ))
        | inl on ↦ record {
          before = cc (ap (λ t. in_order (claimed t key b)) on, before);
          chain_below = d;
          next = record {
            accepted = a;
            key = public_key;
            bound = k;
            payload = payload;
            signed =
                verify_verification_chain_payload-IsSigned net s signer payload public_key
                  result.resolver_id (some u) world.now agent.max_clock_skew_seconds challenge d e2;
            final = on;
          };
          chains = ap (λ t. (claimed t key b).downstream_chains ++ d ∷ []) on;
        }
      ]

  with_key-Followed :
      (result : VerificationResult) (key url : Text) (u : Endpoint) (challenge : Option Text)
      (b : Building) (k : Option Text)
      → result.accepted ≡ true
      → agent_key result.evidence ≡ k
      → in_order (with_key net s signer agent world k key url result.resolver_id u challenge b)
        ≡ true
      → Followed result b
          (with_key net s signer agent world k key url result.resolver_id u challenge b)
  with_key-Followed result key url u challenge b none a k h =
      absurd (cc (h, in_order-with_error _ b))
  with_key-Followed result key url u challenge b (some public_key) a k h =
      with_chain-Followed result key public_key url u challenge b _ a k refl h

  follow-Followed :
      (result : VerificationResult) (key url own_key : Text) (u : Endpoint)
      (challenge : Option Text) (b : Building)
      → in_order (follow net s signer agent world result key url u own_key challenge b) ≡ true
      → Followed result b (follow net s signer agent world result key url u own_key challenge b)
  unfolding follow
  follow-Followed result key url own_key u challenge b h = elim (Bool-cases result.accepted) [
    | inr off ↦
        absurd (
          cc
            (rw off at h, in_order-with_error (codes "upstream verification failed for " ++ key) b))
    | inl on ↦ elim (Bool-cases (truthy url)) [
      | inr off ↦ absurd (
          cc (
            rw (on, off) at h,
            in_order-with_error
                (codes "verified recursive upstream has no configured adjacent Agent: " ++ key) b,
          ))
      | inl given_url ↦ elim (Bool-cases (text_eq key own_key)) [
        | inl loop ↦ absurd (
            cc (
              rw (on, given_url, loop) at h,
              in_order-with_error (codes "agent verification chain loop detected at " ++ key) b,
            ))
        | inr fresh ↦
            let k = agent_key result.evidence in
            let same : follow net s signer agent world result key url u own_key challenge b
                ≡ with_key net s signer agent world k key url result.resolver_id u challenge b =
              rw (on, given_url, fresh) refl in
            subst (Followed result b) (sym same)
              (with_key-Followed result key url u challenge b k on refl (cc (h, ap in_order same)))
      ]
    ]
  ]

  -- What a round leaves, if the building is in order after it.
  pub record Rounded (endpoint : Endpoint) (b b' : Building) : Type 0 where
    pub before : in_order b ≡ true
    pub backing : Backing endpoint
    pub chains :
        AllVouched (chains_of b.downstream_chains) → AllVouched (chains_of b'.downstream_chains)

  Followed-Rounded :
      (endpoint u : Endpoint) (c : Cache) (result : VerificationResult) (hop : Hop)
      (b b' : Building)
      → normalized net endpoint ≡ ok u
      → (world.verify_endpoint u c).0 ≡ ok result
      → Followed result (record b { hops = b.hops ++ hop ∷ [] }) b'
      → Rounded endpoint b b'
  Followed-Rounded endpoint u c result hop b b' e v f = record {
    before = in_order-add_hop hop b f.before;
    backing = adjacent u e c result v f.chain_below f.next;
    chains = λ ws.
        subst (λ ds. AllVouched (chains_of ds)) (sym f.chains)
          (AllVouched-append b.downstream_chains f.chain_below ws
            (f.next.signed.means f.next.final));
  }

  pub build_upstream-Rounded :
      (own_key : Text) (challenge : Option Text) (endpoint : Endpoint) (b b' : Building) (c : Cache)
      → (build_upstream net s signer agent world own_key challenge endpoint b c).0 ≡ ok b'
      → in_order b' ≡ true
      → Rounded endpoint b b'
  unfolding build_upstream
  build_upstream-Rounded own_key challenge endpoint b b' c h good =
      ran (normalized net endpoint, c) _ h
        (λ u e1 h1.
          ran (any_matching net agent.terminal_upstreams u, c) _ h1
            (λ terminal e2 h2. elim (Bool-cases terminal) [
              | inl on ↦
                  let same : record b { terminal_upstreams = b.terminal_upstreams ++ u ∷ [] } ≡ b' =
                    same_ok (rw on at h2) in
                  subst (Rounded endpoint b) same (record {
                    before = in_order-kept b u (ap in_order same ∙ good);
                    backing = boundary u e1 (e2 ∙ ap ok on);
                    chains = λ ws. ws;
                  })
              | inr off ↦ ran (world.verify_endpoint u c) _ (rw off at h2) (λ result e3 h3.
                  ran
                    (
                      from_verification_result net s signer agent world u result,
                      (world.verify_endpoint u c).1,
                    )
                    _ h3
                    (λ unsigned e4 h4.
                      ran (sign_hop net world.sign unsigned, (world.verify_endpoint u c).1) _ h4
                        (λ hop e5 h5.
                          ran (endpoint_cache_key net u, (world.verify_endpoint u c).1) _ h5
                            (λ key e6 h6.
                              ran
                                (
                                  agent_url_for net agent.agent_base_urls u,
                                  (world.verify_endpoint u c).1,
                                )
                                _ h6
                                (λ url e7 h7. subst (Rounded endpoint b) (same_ok h7) (
                                  Followed-Rounded endpoint u c result hop b _ e1 e3 (
                                    follow-Followed result key url own_key u challenge
                                      (record b { hops = b.hops ++ hop ∷ [] })
                                      (ap in_order (same_ok h7) ∙ good))))))))
            ]))
