-- ===== src/Discovery/Released.antt =====
-- wrapper/query_coordinator.py with the provider of wrapper/resolver_chain.py: what stands behind an
-- answer that is released under distributed verification.
use fanxiangdiguijiexi.Prelude.{
  ℕ, ◌≡◌, ◌∙◌, sym, ap, subst, true, &&-right, Option, some, List, ◌∷◌, all, Text, ok,
}
use fanxiangdiguijiexi.Crypto.Sha.{Sha256}
use fanxiangdiguijiexi.Models.Endpoint.{Endpoint, Net}
use fanxiangdiguijiexi.Models.Verification.{VerificationResult}
use fanxiangdiguijiexi.Cache.Manager.{Cache}
use fanxiangdiguijiexi.Verifier.Keys.{Signer}
use fanxiangdiguijiexi.Agent.Chain.{Chain}
use fanxiangdiguijiexi.Agent.Sound.{Vouched}
use fanxiangdiguijiexi.Wrapper.Coordinator.{
  World, UpstreamResolver, DnsProcessResult, all_accepted, coordinate,
}
use fanxiangdiguijiexi.Wrapper.Release.{
  IsTried, Renewed, as_before, first_again, coordinate-ReleasedBy,
}
use fanxiangdiguijiexi.Discovery.Signatures.{Setting}
use fanxiangdiguijiexi.Discovery.Trust.{StartsTrust}
use fanxiangdiguijiexi.Discovery.Context.{Provider}
use fanxiangdiguijiexi.Discovery.Observe.{Outside, Observed, observe_distributed_chain}
use fanxiangdiguijiexi.Discovery.Distributed.{
  IsFetched, IsObserved, observe_distributed_chain-IsObserved,
}

-- Results whose first is accepted are all accepted if they are after the renewal.
Renewed-accepted :
    (first : VerificationResult) (rest final : List VerificationResult)
    → first.accepted ≡ true
    → Renewed (first ∷ rest) final
    → all_accepted final ≡ true
    → all VerificationResult.accepted (first ∷ rest) ≡ true
unfolding all_accepted
Renewed-accepted first rest _ a as_before h = h
Renewed-accepted first rest _ a (first_again r) h = rw a (&&-right r.accepted _ h)

module _ (net : Net) (s : Sha256) (signer : Signer) (setting : Setting) (outside : Outside) where
  -- The coordinator's provider is the one that observes distributed chains.
  pub record Provides (world : World) (challenge : Option Text) : Type 0 where
    pub distributed : world.distributed_verification ≡ true
    pub observes :
        (u : UpstreamResolver) (es : List Endpoint) (pre : Option (List VerificationResult))
        → world.observe u ≡ ok (es, pre)
        → (first : Endpoint) × (p : Provider) × (c : Cache) × (o : Observed) × (world.endpoint u
            ≡ ok first)
          × ((observe_distributed_chain net s signer setting outside first challenge p c).0 ≡ ok o)
          × (es ≡ o.observed)
          × (pre ≡ some o.results)

  -- An answer that rests on a chain.
  pub record ReleasedOnChain (world : World) (challenge : Option Text) (us : List UpstreamResolver)
      (r : DnsProcessResult) : Type 0 where
    pub u : UpstreamResolver
    pub tried : IsTried net s world u us
    pub answer : world.forward u ≡ ok r.response
    pub first : Endpoint
    pub at_first : world.endpoint u ≡ ok first
    pub result : VerificationResult
    pub before : Cache
    pub verified : (outside.verify_endpoint first before).0 ≡ ok result
    pub c : Chain
    pub is_fetched : IsFetched net s signer setting outside first result challenge c
    pub trust : StartsTrust net s signer setting c first result
    pub vouched : Vouched c

  observed-accepted :
      (first : Endpoint) (challenge : Option Text) (o : Observed) (final : List VerificationResult)
      → (i : IsObserved net s signer setting outside first challenge o) → Renewed o.results final
      → all_accepted final ≡ true
      → Vouched i.c
  observed-accepted first challenge o final i renewed h =
      let (rest, e) = i.at_head in
      i.means (
        subst (λ rs. all VerificationResult.accepted rs ≡ true) (sym e)
          (Renewed-accepted i.result rest final i.is_fetched.accepted
            (subst (λ rs. Renewed rs final) e renewed) h))

  -- With the provider that observes distributed chains, an answer that `coordinate` releases is the
  -- forwarder's for one of the upstreams, whose verification was accepted with an Ed25519 Agent key; a
  -- chain that the Agent there sent is signed under that key, and every chain below it under a key that
  -- an accepted and signed hop above it binds; and every node of the chain has no errors, accepts each
  -- of its hops and claims a true result.
  pub coordinate-ReleasedOnChain :
      (world : World) (challenge : Option Text) (query : List ℕ) (us : List UpstreamResolver)
      (c : Cache) (r : DnsProcessResult)
      → Provides world challenge
      → (coordinate net s world query us c).0 ≡ ok r
      → r.accepted ≡ true
      → ReleasedOnChain world challenge us r
  coordinate-ReleasedOnChain world challenge query us c r provides h on =
      let by = (coordinate-ReleasedBy net s world query us c r h).0 on in
      let backed = by.backed in
      let (first, p, before, o, at_first, run, _, pre) =
        provides.observes by.u by.q.observed backed.preverified backed.seen in
      let i =
        observe_distributed_chain-IsObserved net s signer setting outside first challenge p before o
          run in
      record {
        u = by.u;
        tried = by.tried;
        answer = backed.answer ∙ ap ok (sym by.response);
        first = first;
        at_first = at_first;
        result = i.result;
        before = i.before;
        verified = i.verified;
        c = i.c;
        is_fetched = i.is_fetched;
        trust = i.trust;
        vouched =
            observed-accepted first challenge o by.q.results i
              (backed.renewed o.results pre provides.distributed) backed.gated.accepted;
      }
