-- ===== src/Wrapper/Coordinator.antt =====
-- wrapper/query_coordinator.py: `coordinate`. What the chain provider, the forwarder and the verifier
-- do is a parameter; calls that run at once are run in order here, and other threads may change the
-- cache before the release. The journal, the audit log, the metrics and the refresh in the background
-- are left out.
use fanxiangdiguijiexi.Prelude.{
  ℕ, Bool, true, false, not, ◌&&◌, Option, none, some, List, [], ◌∷◌, if◌then◌else◌, all, is_empty,
  Text, option_eq, Outcome, PyError, ok, raised, ◌>>=◌, ◌⊎◌, inl, inr,
}
use fanxiangdiguijiexi.Crypto.Sha.{Sha256}
use fanxiangdiguijiexi.Models.Endpoint.{Endpoint, Net}
use fanxiangdiguijiexi.Models.Verification.{VerificationResult, Reason}
use fanxiangdiguijiexi.Cache.Rows
use fanxiangdiguijiexi.Cache.Manager.{Cache}
use fanxiangdiguijiexi.Cache.Run.{Run, after}
use fanxiangdiguijiexi.Cache.Store.{result_is_current}
use fanxiangdiguijiexi.Cache.Invalidate.{invalidate_endpoint}
use fanxiangdiguijiexi.Wrapper.Message.{make_servfail}

pub record UpstreamResolver : Type 0 where
  pub ip : Text
  pub port : ℕ
  pub transport : Text

-- Why no answer was released.
pub data FinalReason : Type 0 where
  no_upstreams chain_discovery_failed no_observable_resolvers dns_forward_error : FinalReason
  agent_resolver_id_mismatch verification_invalidated_before_release : FinalReason
  identity_verification_failed all_paths_failed : FinalReason
  failed_with : Reason → FinalReason

-- `first_failure(verifications) or "identity_verification_failed"`
abbrev pub first_reason : List Reason → FinalReason
first_reason [] = identity_verification_failed
first_reason (r ∷ rest) = failed_with r

unfoldable pub first_failure : List VerificationResult → FinalReason
first_failure [] = identity_verification_failed
first_failure (r ∷ rest) =
    let later = first_failure rest in if r.accepted then later else first_reason r.reasons

unfoldable pub all_accepted : List VerificationResult → Bool
all_accepted results = all (λ r. r.accepted) results

-- `all(result_is_current(result) for result in verifications)`
unfoldable pub all_current : List VerificationResult → Cache → Outcome PyError Bool
unfolding result_is_current
all_current [] c = ok true
all_current (r ∷ rest) c =
    let later = all_current rest c in
    result_is_current r c >>= λ current. if current then later else ok false

-- `_agent_identity_mismatch`, with the resolver id of the provider's context.
abbrev pub mismatch : Option Text → List VerificationResult → Bool
mismatch none results = false
mismatch (some id) [] = false
mismatch (some id) (r ∷ rest) = r.accepted && not (option_eq r.resolver_id (some id))

-- What surrounds the coordinator.
pub record World : Type 0 where
  pub strict_observation : Bool
  pub distributed_verification : Bool
  pub endpoint : UpstreamResolver → Outcome PyError Endpoint
  pub observe :
      UpstreamResolver → Outcome PyError (List Endpoint × Option (List VerificationResult))
  pub invalidated : UpstreamResolver → List Endpoint
  pub forward : UpstreamResolver → Outcome PyError (List ℕ)
  pub verify_endpoint : Endpoint → Cache → Outcome PyError VerificationResult × Cache
  pub context_resolver_id : UpstreamResolver → Option Text
  pub meanwhile : Cache → Cache

-- How one upstream ends: with an answer and what it rests on, or with a reason to try the next.
pub record Released : Type 0 where
  pub response : List ℕ
  pub observed : List Endpoint
  pub results : List VerificationResult

pub data Attempt : Type 0 where
  release : Released → Attempt
  next : FinalReason → Attempt

pub record DnsProcessResult : Type 0 where
  pub response : List ℕ
  pub accepted : Bool
  pub upstream : Option UpstreamResolver

abbrev pub tail_of : List VerificationResult → List VerificationResult
tail_of [] = []
tail_of (r ∷ rest) = rest

-- The gate itself.
abbrev pub gate_current : Outcome PyError Bool → Released → Cache → Run Attempt
gate_current (raised x) r c = (raised x, c)
gate_current (ok true) r c = (ok (release r), c)
gate_current (ok false) r c = (ok (next verification_invalidated_before_release), c)

abbrev pub decided : List ℕ → FinalReason ⊎ DnsProcessResult → DnsProcessResult
decided query (inl reason) = record {
  response = make_servfail query;
  accepted = false;
  upstream = none;
}
decided query (inr result) = result

module _ (net : Net) (s : Sha256) (world : World) where
  unfoldable pub verify_all : List Endpoint → Cache → Run (List VerificationResult)
  verify_all [] c = (ok [], c)
  verify_all (e ∷ es) c =
      after (world.verify_endpoint e c)
        (λ r c'. after (verify_all es c') (λ rs c''. (ok (r ∷ rs), c'')))

  -- `for invalidated in ...: cache.invalidate_endpoint(invalidated, "EXPIRED")`
  unfoldable pub invalidate_all : List Endpoint → Cache → Run Unit
  invalidate_all [] c = (ok tt, c)
  invalidate_all (e ∷ es) c =
      after (invalidate_endpoint net s e Rows.expired c) (λ u c'. invalidate_all es c')

  abbrev pub reverified :
      UpstreamResolver
      → List Endpoint
      → List VerificationResult
      → Cache
      → Run (Option (List VerificationResult))
  reverified u observed results c =
      if world.distributed_verification
      then elim (world.endpoint u) [
        | raised x ↦ (raised x, c)
        | ok e ↦ after (world.verify_endpoint e c) (λ r c'. (ok (some (r ∷ tail_of results)), c'))
      ]
      else after (verify_all observed c) (λ rs c'. (ok (some rs), c'))

  -- What was verified before counts no more once something was invalidated.
  abbrev pub again :
      Option (List VerificationResult)
      → Bool
      → UpstreamResolver
      → List Endpoint
      → Cache
      → Run (Option (List VerificationResult))
  again none nothing u observed c = (ok none, c)
  again (some results) true u observed c = (ok (some results), c)
  again (some results) false u observed c = reverified u observed results c

  abbrev pub verified_now :
      Option (List VerificationResult) → List Endpoint → Cache → Run (List VerificationResult)
  verified_now none observed c = verify_all observed c
  verified_now (some results) observed c = (ok results, c)

  unfoldable pub gate : UpstreamResolver → Released → Cache → Run Attempt
  unfolding all_current all_accepted first_failure
  gate u r c =
      if mismatch (world.context_resolver_id u) r.results
      then (ok (next agent_resolver_id_mismatch), c)
      else if all_accepted r.results
      then gate_current (all_current r.results c) r c
      else (ok (next (first_failure r.results)), c)

  abbrev pub forwarded :
      Outcome PyError (List ℕ)
      → UpstreamResolver
      → List Endpoint
      → Option (List VerificationResult)
      → Cache
      → Run Attempt
  forwarded (raised x) u observed preverified c = (ok (next dns_forward_error), c)
  forwarded (ok response) u observed preverified c =
      after (verified_now preverified observed c) (λ results c'.
        gate u (record { response = response; observed = observed; results = results })
          (world.meanwhile c'))

  abbrev pub observed_path :
      Outcome PyError (List Endpoint × Option (List VerificationResult))
      → UpstreamResolver
      → Cache
      → Run Attempt
  observed_path (raised x) u c = (ok (next chain_discovery_failed), c)
  observed_path (ok (observed, preverified)) u c =
      let gone = world.invalidated u in
      after (invalidate_all gone c) (λ done c'.
        after (again preverified (is_empty gone) u observed c') (λ results c''.
          if is_empty observed && world.strict_observation
          then (ok (next no_observable_resolvers), c'')
          else forwarded (world.forward u) u observed results c''))

  unfoldable pub try_upstream : UpstreamResolver → Cache → Run Attempt
  unfolding verify_all invalidate_all gate
  try_upstream u c = observed_path (world.observe u) u c

  unfoldable pub try_all :
      FinalReason → List UpstreamResolver → Cache → Run (FinalReason ⊎ DnsProcessResult)
  unfolding try_upstream
  try_all reason [] c = (ok (inl reason), c)
  try_all reason (u ∷ us) c = after (try_upstream u c) (λ attempt c'. elim attempt [
    | next why ↦ try_all why us c'
    | release r ↦
        (ok (inr (record { response = r.response; accepted = true; upstream = some u })), c')
  ])

  -- The answer to a query: the first that passes the gate, or SERVFAIL.
  unfoldable pub coordinate : List ℕ → List UpstreamResolver → Cache → Run DnsProcessResult
  unfolding try_all
  coordinate query upstreams c =
      after (try_all (if is_empty upstreams then no_upstreams else all_paths_failed) upstreams c)
        (λ d c'. (ok (decided query d), c'))
