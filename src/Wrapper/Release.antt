-- ===== src/Wrapper/Release.antt =====
-- When wrapper/query_coordinator.py releases an answer.
use fanxiangdiguijiexi.Prelude.{
  ℕ, ◌≡◌, ◌⊎◌, refl, Bool, true, false, ◌&&◌, Option, some, List, [], ◌∷◌, arith, if◌then◌else◌,
  is_empty, Outcome, PyError, ok, raised, Outcome-cases, Bool-cases, inl, inr, subst, sym, ap,
  same_ok, ◌∙◌,
}
use fanxiangdiguijiexi.Crypto.Sha.{Sha256}
use fanxiangdiguijiexi.Models.Endpoint.{Endpoint, Net}
use fanxiangdiguijiexi.Models.Verification.{VerificationResult}
use fanxiangdiguijiexi.Cache.Manager.{Cache}
use fanxiangdiguijiexi.Cache.Run.{split_after}
use fanxiangdiguijiexi.Wrapper.Coordinator.{
  UpstreamResolver, FinalReason, Released, Attempt, release, next, World, DnsProcessResult,
  all_accepted, all_current, mismatch, invalidate_all, again, verified_now, gate_current, gate,
  forwarded, observed_path, try_upstream, try_all, decided, coordinate, no_upstreams,
  all_paths_failed, tail_of,
}
use fanxiangdiguijiexi.Wrapper.Message.{make_servfail}
use fanxiangdiguijiexi.Wrapper.Rests.{Rests, released-Rests}

-- What was released: every result accepted and current in the cache at the release.
pub record Gated (r : Released) (c : Cache) : Type 0 where
  pub accepted : all_accepted r.results ≡ true
  pub current : all_current r.results c ≡ ok true

-- What became of results from before an invalidation: they are as they were, or the first of them was
-- made again.
pub data Renewed (old : List VerificationResult) : List VerificationResult → Type 0 where
  as_before : Renewed old old
  first_again : (r : VerificationResult) → Renewed old (r ∷ tail_of old)

gate_current-release :
    (o : Outcome PyError Bool) (r q : Released) (c : Cache)
    → (gate_current o r c).0 ≡ ok (release q)
    → (o ≡ ok true) × (r ≡ q)
gate_current-release (raised x) r q c h = absurd (cc h)
gate_current-release (ok true) r q c h = (refl, ground arith)
gate_current-release (ok false) r q c h = absurd (ground arith)

module _ (net : Net) (s : Sha256) (world : World) where
  gate-Gated :
      (u : UpstreamResolver) (r q : Released) (c : Cache)
      → (gate net s world u r c).0 ≡ ok (release q)
      → (r ≡ q) × Gated q (gate net s world u r c).1
  unfolding gate
  gate-Gated u r q c h = elim (Bool-cases (mismatch (world.context_resolver_id u) r.results)) [
    | inl off ↦ absurd (ground arith)
    | inr same ↦ elim (Bool-cases (all_accepted r.results)) [
      | inr refused ↦ absurd (ground arith)
      | inl good ↦ elim (Outcome-cases (all_current r.results c)) [
        | inr (x, e) ↦ absurd (ground arith)
        | inl (b, e) ↦ elim (Bool-cases b) [
          | inr stale ↦ absurd (cc (rw (same, good, e, stale) at h))
          | inl fresh ↦
              let it : r ≡ q = ground arith in
              (
                it,
                rw (same, good, e, fresh)
                    (subst (λ t. Gated t c) it
                      (record { accepted = good; current = cc (e, fresh) })),
              )
        ]
      ]
    ]
  ]

  -- What an answer that an upstream's path released rests on.
  pub record Backed (u : UpstreamResolver) (q : Released) (c : Cache) : Type 0 where
    pub preverified : Option (List VerificationResult)
    pub seen : world.observe u ≡ ok (q.observed, preverified)
    pub not_blind : (is_empty q.observed && world.strict_observation) ≡ false
    pub answer : world.forward u ≡ ok q.response
    pub gated : Gated q c
    pub rests : Rests net s world u preverified q.observed q.results
    pub renewed :
        (old : List VerificationResult)
        → preverified ≡ some old
        → world.distributed_verification ≡ true
        → Renewed old q.results

  again-Renewed :
      (old : List VerificationResult) (nothing : Bool) (u : UpstreamResolver)
      (observed : List Endpoint) (c : Cache) (results : Option (List VerificationResult))
      → world.distributed_verification ≡ true
      → (again net s world (some old) nothing u observed c).0 ≡ ok results
      → (final : List VerificationResult) × (results ≡ some final) × Renewed old final
  again-Renewed old true u observed c results on h = (old, sym (same_ok h), as_before)
  again-Renewed old false u observed c results on h = elim (Outcome-cases (world.endpoint u)) [
    | inr (x, e) ↦ absurd (cc (rw (on, e) at h))
    | inl (endpoint, e) ↦
        let (r, e1, h1, same) =
          split_after (world.verify_endpoint endpoint c) _ (rw (on, e) at h) in
        (r ∷ tail_of old, sym (same_ok h1), first_again r)
  ]

  forwarded-release :
      (o : Outcome PyError (List ℕ)) (u : UpstreamResolver) (observed : List Endpoint)
      (results : Option (List VerificationResult)) (c : Cache) (q : Released)
      → (forwarded net s world o u observed results c).0 ≡ ok (release q)
      → (o ≡ ok q.response)
        × (q.observed ≡ observed)
        × ((final : List VerificationResult) → results ≡ some final → final ≡ q.results)
        × ((verified_now net s world results observed c).0 ≡ ok q.results)
        × Gated q (forwarded net s world o u observed results c).1
  forwarded-release (raised x) u observed results c q h = absurd (ground arith)
  forwarded-release (ok response) u observed results c q h =
      let (rs, e, h', same) = split_after (verified_now net s world results observed c) _ h in
      let (it, gated) = gate-Gated u _ q _ h' in
      (
        ap (λ r. ok (Released.response r)) it,
        ap Released.observed (sym it),
        λ final f. same_ok (rw f at e) ∙ ap Released.results it,
        e ∙ ap (λ r. ok (Released.results r)) it,
        rw same gated,
      )

  observed_path-Backed :
      (o : Outcome PyError (List Endpoint × Option (List VerificationResult)))
      (u : UpstreamResolver) (c : Cache) (q : Released)
      → world.observe u ≡ o
      → (observed_path net s world o u c).0 ≡ ok (release q)
      → Backed u q (observed_path net s world o u c).1
  observed_path-Backed (raised x) u c q e h = absurd (ground arith)
  observed_path-Backed (ok (observed, preverified)) u c q e h =
      let (d, e1, h1, same1) =
        split_after (invalidate_all net s world (world.invalidated u) c) _ h in
      let (results, e2, h2, same2) =
        split_after (again net s world preverified (is_empty (world.invalidated u)) u observed _) _
          h1 in
      elim (Bool-cases (is_empty observed && world.strict_observation)) [
        | inl blind ↦ absurd (ground arith)
        | inr sighted ↦
            let (answer, there, used, made, gated) =
              forwarded-release (world.forward u) u observed results _ q (rw sighted at h2) in
            record {
              preverified = preverified;
              seen = rw there e;
              not_blind = rw there sighted;
              answer = answer;
              gated = rw (same1, same2, sighted) gated;
              rests =
                  rw there (
                    released-Rests net s world preverified u observed _ _ results q.results e2
                      made);
              renewed = λ old f on.
                  let (final, g, renewed) =
                    again-Renewed old (is_empty (world.invalidated u)) u observed _ results on
                      (rw f at e2) in
                  subst (Renewed old) (used final g) renewed;
            }
      ]

  pub data IsTried (u : UpstreamResolver) : List UpstreamResolver → Type 0 where
    tried_first : {us : List UpstreamResolver} → IsTried u (u ∷ us)
    tried_later :
        {t : UpstreamResolver} {us : List UpstreamResolver} → IsTried u us → IsTried u (t ∷ us)

  -- An answer that was released, the upstream that it is of, and what it rests on.
  pub record ReleasedBy (us : List UpstreamResolver) (r : DnsProcessResult) (c : Cache)
      : Type 0 where
    pub u : UpstreamResolver
    pub tried : IsTried u us
    pub accepted : r.accepted ≡ true
    pub upstream : r.upstream ≡ some u
    pub q : Released
    pub response : r.response ≡ q.response
    pub backed : Backed u q c

  later-ReleasedBy :
      (t : UpstreamResolver) (us : List UpstreamResolver) (r : DnsProcessResult) (c : Cache)
      → ReleasedBy us r c
      → ReleasedBy (t ∷ us) r c
  later-ReleasedBy t us r c w = record {
    u = w.u;
    tried = tried_later w.tried;
    accepted = w.accepted;
    upstream = w.upstream;
    q = w.q;
    response = w.response;
    backed = w.backed;
  }

  Attempt-cases :
      (a : Attempt) → ((why : FinalReason) × (a ≡ next why)) ⊎ ((q : Released) × (a ≡ release q))
  Attempt-cases (next why) = inl (why, refl)
  Attempt-cases (release q) = inr (q, refl)

  decided-cases :
      (query : List ℕ) (us : List UpstreamResolver) (d : FinalReason ⊎ DnsProcessResult)
      (r : DnsProcessResult) (c : Cache)
      → ((q : DnsProcessResult) → d ≡ inr q → ReleasedBy us q c)
      → decided query d ≡ r
      → (r.accepted ≡ true → ReleasedBy us r c)
        × (r.accepted ≡ false → r.response ≡ make_servfail query)
  decided-cases query us (inl reason) r c back h = (λ t. absurd (ground arith), λ f. ground arith)
  decided-cases query us (inr q) r c back h =
      let back_q = back q refl in
      (
        λ t. subst (λ p. ReleasedBy us p c) h back_q,
        λ f. let on = back_q.accepted in absurd (cc (ap DnsProcessResult.accepted h, on, f)),
      )

  try_all-ReleasedBy :
      (reason : FinalReason) (us : List UpstreamResolver) (c : Cache) (r : DnsProcessResult)
      → (try_all net s world reason us c).0 ≡ ok (inr r)
      → ReleasedBy us r (try_all net s world reason us c).1
  unfolding try_all try_upstream
  try_all-ReleasedBy reason [] c r h = absurd (ground arith)
  try_all-ReleasedBy reason (u ∷ us) c r h =
      let (attempt, e, h', same) = split_after (try_upstream net s world u c) _ h in
      let c' = (try_upstream net s world u c).1 in
      elim (Attempt-cases attempt) [
        | inl (why, q) ↦
            rw (same, q) (later-ReleasedBy u us r _ (try_all-ReleasedBy why us c' r (rw q at h')))
        | inr (q, e') ↦
            let backed = observed_path-Backed (world.observe u) u c q refl (cc (e, e')) in
            let it : r ≡ record { response = q.response; accepted = true; upstream = some u } =
              ground (arith, rw e' at h') in
            rw (same, e')
              record {
                u = u;
                tried = tried_first;
                accepted = ap DnsProcessResult.accepted it;
                upstream = ap DnsProcessResult.upstream it;
                q = q;
                response = ap DnsProcessResult.response it;
                backed = backed;
              }
      ]

  pub coordinate-ReleasedBy :
      (query : List ℕ) (us : List UpstreamResolver) (c : Cache) (r : DnsProcessResult)
      → (coordinate net s world query us c).0 ≡ ok r
      → (r.accepted ≡ true → ReleasedBy us r (coordinate net s world query us c).1)
        × (r.accepted ≡ false → r.response ≡ make_servfail query)
  unfolding coordinate
  coordinate-ReleasedBy query us c r h =
      let start = if is_empty us then no_upstreams else all_paths_failed in
      let (d, e, h', same) = split_after (try_all net s world start us c) _ h in
      rw same (
        decided-cases query us d r _ (λ q f. try_all-ReleasedBy start us c q (cc (e, f)))
          (ground arith))
