-- ===== src/Wrapper/Rests.antt =====
-- Where the results come from that wrapper/query_coordinator.py takes to its gate.
use fanxiangdiguijiexi.Prelude.{
  ◌≡◌, refl, Bool, true, false, Option, none, some, List, [], ◌∷◌, is_empty, ok, Outcome-cases,
  Bool-cases, inl, inr, subst, sym, same_ok,
}
use fanxiangdiguijiexi.Crypto.Sha.{Sha256}
use fanxiangdiguijiexi.Models.Endpoint.{Endpoint, Net}
use fanxiangdiguijiexi.Models.Verification.{VerificationResult}
use fanxiangdiguijiexi.Cache.Manager.{Cache}
use fanxiangdiguijiexi.Cache.Run.{split_after}
use fanxiangdiguijiexi.Wrapper.Coordinator.{
  UpstreamResolver, World, reverified, verify_all, again, verified_now, tail_of,
}

module _ (net : Net) (s : Sha256) (world : World) where
  -- Each endpoint has its result, which the verifier returned for it.
  pub data VerifiedEach : List Endpoint → List VerificationResult → Type 0 where
    verified_none : VerifiedEach [] []
    verified_one :
        {e : Endpoint} {r : VerificationResult} {es : List Endpoint} {rs : List VerificationResult}
        (c : Cache)
        → (world.verify_endpoint e c).0 ≡ ok r
        → VerifiedEach es rs
        → VerifiedEach (e ∷ es) (r ∷ rs)

  -- Where the results of a release come from: the verifier, for each observed endpoint, where the
  -- provider gave none; the provider, where nothing was invalidated; and after an invalidation the
  -- verifier again, for the upstream's own endpoint before the provider's other results under
  -- distributed verification, else for each observed endpoint.
  pub data Rests (u : UpstreamResolver) (preverified : Option (List VerificationResult))
      (observed : List Endpoint) (final : List VerificationResult) : Type 0 where
    now_verified :
        preverified ≡ none → VerifiedEach observed final → Rests u preverified observed final
    as_given :
        preverified ≡ some final
        → is_empty (world.invalidated u) ≡ true
        → Rests u preverified observed final
    first_anew :
        (old : List VerificationResult) (e : Endpoint) (r : VerificationResult) (c : Cache)
        → preverified ≡ some old
        → world.distributed_verification ≡ true
        → world.endpoint u ≡ ok e
        → (world.verify_endpoint e c).0 ≡ ok r
        → final ≡ r ∷ tail_of old
        → Rests u preverified observed final
    all_anew :
        (old : List VerificationResult)
        → preverified ≡ some old
        → world.distributed_verification ≡ false
        → VerifiedEach observed final
        → Rests u preverified observed final

  verify_all-VerifiedEach :
      (es : List Endpoint) (c : Cache) (rs : List VerificationResult)
      → (verify_all net s world es c).0 ≡ ok rs
      → VerifiedEach es rs
  unfolding verify_all
  verify_all-VerifiedEach [] c rs h = subst (VerifiedEach []) (same_ok h) verified_none
  verify_all-VerifiedEach (e ∷ es) c rs h =
      let (r, e1, h1, _) = split_after (world.verify_endpoint e c) _ h in
      let c' = (world.verify_endpoint e c).1 in
      let (rest, e2, h2, _) = split_after (verify_all net s world es c') _ h1 in
      subst (VerifiedEach (e ∷ es)) (same_ok h2)
        (verified_one c e1 (verify_all-VerifiedEach es c' rest e2))

  reverified-Rests :
      (old : List VerificationResult) (u : UpstreamResolver) (observed : List Endpoint) (c : Cache)
      (results : Option (List VerificationResult))
      → (reverified net s world u observed old c).0 ≡ ok results
      → (final : List VerificationResult) × (results ≡ some final)
        × Rests u (some old) observed final
  unfolding verify_all
  reverified-Rests old u observed c results h = elim (Bool-cases world.distributed_verification) [
    | inl on ↦ elim (Outcome-cases (world.endpoint u)) [
      | inr (x, e) ↦ absurd (cc (rw (on, e) at h))
      | inl (endpoint, e) ↦
          let (r, e1, h1, _) = split_after (world.verify_endpoint endpoint c) _ (rw (on, e) at h) in
          (r ∷ tail_of old, sym (same_ok h1), first_anew old endpoint r c refl on e e1 refl)
    ]
    | inr off ↦
        let (rs, e1, h1, _) = split_after (verify_all net s world observed c) _ (rw off at h) in
        (rs, sym (same_ok h1), all_anew old refl off (verify_all-VerifiedEach observed c rs e1))
  ]

  again-Rests :
      (old : List VerificationResult) (nothing : Bool) (u : UpstreamResolver)
      (observed : List Endpoint) (c : Cache) (results : Option (List VerificationResult))
      → is_empty (world.invalidated u) ≡ nothing
      → (again net s world (some old) nothing u observed c).0 ≡ ok results
      → (final : List VerificationResult) × (results ≡ some final)
        × Rests u (some old) observed final
  again-Rests old true u observed c results e h = (old, sym (same_ok h), as_given refl e)
  again-Rests old false u observed c results e h = reverified-Rests old u observed c results h

  -- The results at the gate, when `again` and then `verified_now` have run.
  pub released-Rests :
      (preverified : Option (List VerificationResult)) (u : UpstreamResolver)
      (observed : List Endpoint) (c d : Cache) (results : Option (List VerificationResult))
      (final : List VerificationResult)
      → (again net s world preverified (is_empty (world.invalidated u)) u observed c).0 ≡ ok results
      → (verified_now net s world results observed d).0 ≡ ok final
      → Rests u preverified observed final
  released-Rests none u observed c d results final h k =
      let q : none ≡ results = same_ok h in
      now_verified refl (verify_all-VerifiedEach observed d final (rw (← q) at k))
  released-Rests (some old) u observed c d results final h k =
      let (rs, q, rests) =
        again-Rests old (is_empty (world.invalidated u)) u observed c results refl h in
      subst (Rests u (some old) observed) (same_ok (rw q at k)) rests
