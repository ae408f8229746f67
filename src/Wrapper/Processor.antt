-- ===== src/Wrapper/Processor.antt =====
-- `DNSQueryProcessor` of wrapper/query_processor.py and `VerificationGate` of
-- wrapper/verification_gate.py. The forwarder and the verifier are parameters, and the journal is
-- left out; the endpoints of a path, which are verified at once, are verified in order.
use fanxiangdiguijiexi.Prelude.{
  ℕ, true, false, none, some, List, [], ◌∷◌, if◌then◌else◌, Outcome, PyError, ok, raised, ◌>>=◌,
}
use fanxiangdiguijiexi.Models.Endpoint.{Endpoint, Net, normalized}
use fanxiangdiguijiexi.Models.Verification.{VerificationResult}
use fanxiangdiguijiexi.Cache.Manager.{Cache}
use fanxiangdiguijiexi.Cache.Run.{Run, after}
use fanxiangdiguijiexi.Wrapper.Message.{make_servfail}
use fanxiangdiguijiexi.Wrapper.Coordinator.{UpstreamResolver, DnsProcessResult, all_accepted}

-- An upstream with its `observed_resolvers`.
pub record ResolverPath : Type 0 where
  pub upstream : UpstreamResolver
  pub observed_resolvers : List Endpoint

module _ (net : Net) where
  -- `UpstreamResolver.endpoint`
  abbrev pub upstream_endpoint : UpstreamResolver → Outcome PyError Endpoint
  upstream_endpoint u = normalized net (record {
    endpoint_id = none;
    ip = some u.ip;
    port = some u.port;
    transport = u.transport;
    uri = none;
    server_name = none;
    alpn = [];
  })

  unfoldable pub normalized_all : List Endpoint → Outcome PyError (List Endpoint)
  normalized_all [] = ok []
  normalized_all (e ∷ rest) = do n ← normalized net e; ns ← normalized_all rest; ok (n ∷ ns)

  -- `UpstreamResolver.observed_endpoints`: the upstream itself is the first of them.
  unfoldable pub observed_endpoints : ResolverPath → Outcome PyError (List Endpoint)
  unfolding normalized_all
  observed_endpoints path = do
    first ← upstream_endpoint path.upstream
    others ← normalized_all path.observed_resolvers
    ok (first ∷ others)

  module _ (verify : Endpoint → Cache → Run VerificationResult) where
    -- `_verify_observed`
    unfoldable pub verify_observed : List Endpoint → Cache → Run (List VerificationResult)
    verify_observed [] c = (ok [], c)
    verify_observed (e ∷ es) c =
        after (verify e c) (λ r c1. after (verify_observed es c1) (λ rs c2. (ok (r ∷ rs), c2)))

    -- An answer of the forwarder, or its exception, for one upstream; `rest` are the next ones.
    unfoldable pub process_path :
        Outcome PyError (List ℕ)
        → ResolverPath
        → (Cache → Run DnsProcessResult)
        → Cache
        → Run DnsProcessResult
    unfolding observed_endpoints verify_observed
    process_path (raised e) path rest c =
        after (upstream_endpoint path.upstream, c) (λ endpoint c1. rest c1)
    process_path (ok response) path rest c =
        after (observed_endpoints path, c)
          (λ observed c1. after (verify_observed observed c1) (λ results c2.
            if all_accepted results
            then (
              ok (record { response = response; accepted = true; upstream = some path.upstream }),
              c2,
            )
            else rest c2))

    -- `process`
    unfoldable pub process :
        (UpstreamResolver → Outcome PyError (List ℕ))
        → List ℕ
        → List ResolverPath
        → Cache
        → Run DnsProcessResult
    unfolding process_path
    process forwarder query [] c =
        (ok (record { response = make_servfail query; accepted = false; upstream = none }), c)
    process forwarder query (path ∷ paths) c =
        let rest = process forwarder query paths in
        process_path (forwarder path.upstream) path rest c

    -- `VerificationGate.release_or_servfail`
    unfoldable pub release_or_servfail : List ℕ → List ℕ → List Endpoint → Cache → Run (List ℕ)
    release_or_servfail query response [] c = (ok response, c)
    release_or_servfail query response (e ∷ es) c =
        let rest = release_or_servfail query response es in
        after (verify e c) (λ r c1. if r.accepted then rest c1 else (ok (make_servfail query), c1))
