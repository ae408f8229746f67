-- ===== src/Discovery/Discover.antt =====
-- wrapper/resolver_chain.py: `_discover`, the older way to find a chain, and the calls of the provider.
-- The fuel bounds the depth; a call that raises leaves the provider as it was.
use fanxiangdiguijiexi.Prelude.{
  ℕ, suc, zero, ◌+◌, Bool, false, not, ◌&&◌, Option, none, some, List, [], ◌∷◌, ◌++◌, leb, ◌==◌,
  if◌then◌else◌, any, Text, text_eq, truthy, Outcome, PyError, runtime_error, diverged, ok, raised,
  ◌>>=◌, ◌>>◌,
}
use fanxiangdiguijiexi.Json.{Fields}
use fanxiangdiguijiexi.Crypto.Sha.{Sha256}
use fanxiangdiguijiexi.Models.Endpoint.{Endpoint, Net, normalized}
use fanxiangdiguijiexi.Models.Verification.{VerificationResult, Evidence}
use fanxiangdiguijiexi.Cache.Manager.{Cache}
use fanxiangdiguijiexi.Cache.Run.{Run, after}
use fanxiangdiguijiexi.Verifier.Keys.{Signer}
use fanxiangdiguijiexi.Agent.Keys.{endpoint_cache_key, agent_url_for, unique_endpoints}
use fanxiangdiguijiexi.Agent.Identity.{
  AgentIdentity, verify_agent_identity_payload, verify_agent_identity_payload_with_public_key,
}
use fanxiangdiguijiexi.Discovery.Signatures.{Setting, fail_if, key_of}
use fanxiangdiguijiexi.Discovery.Context.{Provider, record_context}
use fanxiangdiguijiexi.Discovery.Observe.{Outside, Observed, bound_key, observe_distributed_chain}

-- The lists that `_discover` appends to.
pub record Found : Type 0 where
  pub observed : List Endpoint
  pub results : List VerificationResult
  pub identities : List AgentIdentity

abbrev same_resolver : Text → Option Text → Bool
same_resolver id none = false
same_resolver id (some other) = text_eq id other

abbrev record_identities :
    Text → Endpoint → List AgentIdentity → List Endpoint → Provider → Outcome PyError Provider
record_identities key first [] observed p = ok p
record_identities key first (i ∷ rest) observed p = record_context key first i rest observed p

abbrev pub seen : Endpoint → VerificationResult → Found → Found
seen e result acc = record acc {
  observed = acc.observed ++ e ∷ [];
  results = acc.results ++ result ∷ [];
}

abbrev pub identified : AgentIdentity → Found → Found
identified identity acc = record acc { identities = acc.identities ++ identity ∷ [] }

unfoldable pub each :
    {A : Type 0} → (A → Found → Cache → Run Found) → List A → Found → Cache → Run Found
each step [] acc c = (ok acc, c)
each step (a ∷ rest) acc c = after (step a acc c) (λ acc' c'. each step rest acc' c')

module _ (net : Net) (s : Sha256) (signer : Signer) (setting : Setting) (outside : Outside) where
  -- `_verify_agent_payload`
  unfoldable pub verify_agent_payload : Fields → Evidence → Endpoint → Outcome PyError AgentIdentity
  unfolding verify_agent_identity_payload verify_agent_identity_payload_with_public_key key_of
      bound_key
  verify_agent_payload payload evidence endpoint = elim (bound_key evidence) [
    | some key ↦ key_of key >>= λ public_key.
        verify_agent_identity_payload_with_public_key net signer payload public_key (some endpoint)
          setting.now setting.max_clock_skew_seconds
    | none ↦
        if outside.allow_hmac_fallback && truthy outside.signature_secret
        then verify_agent_identity_payload net signer payload outside.signature_secret
            (some endpoint) setting.now setting.max_clock_skew_seconds
        else raised runtime_error
  ]

  unfoldable pub identity_at : Text → VerificationResult → Endpoint → Outcome PyError AgentIdentity
  unfolding verify_agent_payload fail_if
  identity_at url result endpoint = do
    payload ← outside.fetch_identity url
    identity ← verify_agent_payload payload result.evidence endpoint
    fail_if (not (same_resolver identity.resolver_id result.resolver_id))
    ok identity

  -- The first hop must have an Agent, if the provider is strict.
  unfoldable pub without_url : ℕ → Found → Cache → Run Found
  unfolding fail_if
  without_url depth acc c =
      after (fail_if ((depth == 0) && outside.strict), c) (λ u c'. (ok acc, c'))

  -- `_discover`. The fuel bounds the depth of the calls.
  unfoldable pub discover : ℕ → ℕ → List Text → Endpoint → Found → Cache → Run Found
  unfolding endpoint_cache_key fail_if agent_url_for identity_at each without_url
  discover zero depth visiting endpoint acc c = (raised diverged, c)
  discover (suc fuel) depth visiting endpoint acc c =
      after (normalized net endpoint, c)
        (λ e c1.
          after (endpoint_cache_key net e, c1)
            (λ key c2.
              after (fail_if (any (text_eq key) visiting), c2)
                (λ u3 c3.
                  after (fail_if (leb setting.max_depth depth), c3)
                    (λ u4 c4. after (outside.verify_endpoint e c4) (λ result c5.
                      after (fail_if (not result.accepted), c5)
                        (λ u6 c6.
                          after (agent_url_for net outside.agent_base_urls e, c6)
                            (λ url c7.
                              let further =
                                after (identity_at url result e, c7)
                                  (λ identity c8.
                                    each (discover fuel (depth + 1) (key ∷ visiting))
                                      identity.upstreams (identified identity (seen e result acc))
                                      c8) in
                              if truthy url
                              then further
                              else without_url depth (seen e result acc) c7)))))))

  -- `observed_resolvers_with_verifier`. The calls go at most `max_depth` below the first.
  unfoldable pub observed_resolvers_with_verifier :
      Endpoint → Option Text → Provider → Cache → Run Observed
  unfolding observe_distributed_chain discover unique_endpoints endpoint_cache_key record_context
  observed_resolvers_with_verifier first challenge p c =
      if outside.distributed_verification
      then observe_distributed_chain net s signer setting outside first challenge p c
      else after
          (discover (setting.max_depth + 1) 0 [] first
            (record { observed = []; results = []; identities = [] }) c)
          (λ found c1.
            after (unique_endpoints net found.observed, c1)
              (λ observed c2.
                after (endpoint_cache_key net first, c2)
                  (λ key c3.
                    after (record_identities key first found.identities observed p, c3)
                      (λ provider c4. (
                        ok (record {
                          observed = observed;
                          results = found.results;
                          provider = provider;
                        }),
                        c4,
                      )))))

  abbrev without_agent : Endpoint → Provider → List Endpoint × Provider
  without_agent first p = (if outside.strict then [] else first ∷ [], p)

  unfoldable pub own_identity : Text → Endpoint → Outcome PyError AgentIdentity
  unfolding verify_agent_identity_payload
  own_identity url first = do
    payload ← outside.fetch_identity url
    verify_agent_identity_payload net signer payload outside.signature_secret (some first)
        setting.now setting.max_clock_skew_seconds

  unfoldable pub with_identity :
      Text
      → Endpoint
      → Provider
      → Outcome PyError AgentIdentity
      → Outcome PyError (List Endpoint × Provider)
  unfolding unique_endpoints record_context
  with_identity key first p (raised e) = ok (without_agent first p)
  with_identity key first p (ok identity) = do
    observed ← unique_endpoints net (first ∷ identity.upstreams)
    provider ← record_context key first identity [] observed p
    ok (observed, provider)

  -- `AgentResolverChainProvider.observed_resolvers`
  unfoldable pub observed_resolvers :
      Endpoint → Provider → Outcome PyError (List Endpoint × Provider)
  unfolding endpoint_cache_key agent_url_for own_identity with_identity
  observed_resolvers first p = endpoint_cache_key net first >>= λ key.
      agent_url_for net outside.agent_base_urls first >>= λ url.
      if truthy url
      then with_identity key first p (own_identity url first)
      else ok (without_agent first p)
