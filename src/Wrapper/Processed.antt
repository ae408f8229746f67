-- ===== src/Wrapper/Processed.antt =====
-- What wrapper/query_processor.py and wrapper/verification_gate.py release.
use fanxiangdiguijiexi.Prelude.{
  ℕ, ◌≡◌, ◌⊎◌, true, some, List, [], ◌∷◌, arith, Outcome, PyError, ok, Bool-cases, inl, inr,
}
use fanxiangdiguijiexi.Models.Endpoint.{Endpoint, Net}
use fanxiangdiguijiexi.Models.Verification.{VerificationResult}
use fanxiangdiguijiexi.Cache.Manager.{Cache}
use fanxiangdiguijiexi.Cache.Run.{Run, split_after}
use fanxiangdiguijiexi.Wrapper.Message.{make_servfail}
use fanxiangdiguijiexi.Wrapper.Coordinator.{UpstreamResolver, DnsProcessResult}
use fanxiangdiguijiexi.Wrapper.Processor.{ResolverPath, observed_endpoints, release_or_servfail}

module _ (verify : Endpoint → Cache → Run VerificationResult) where
  -- The endpoints are verified one after the other, from a cache on, and each is accepted.
  pub data AllVerified : List Endpoint → Cache → Type 0 where
    no_more : {c : Cache} → AllVerified [] c
    and_then :
        {e : Endpoint} {es : List Endpoint} {c : Cache} (r : VerificationResult)
        → (verify e c).0 ≡ ok r
        → r.accepted ≡ true
        → AllVerified es (verify e c).1
        → AllVerified (e ∷ es) c

-- A path of the list, the forwarder's answer for it, and the verification of all its endpoints.
pub record FromPath (net : Net) (verify : Endpoint → Cache → Run VerificationResult)
    (forwarder : UpstreamResolver → Outcome PyError (List ℕ)) (path : ResolverPath)
    (result : DnsProcessResult) : Type 0 where
  pub upstream : result.upstream ≡ some path.upstream
  pub answer : forwarder path.upstream ≡ ok result.response
  pub observed :
      (es : List Endpoint) × (c : Cache) × (observed_endpoints net path ≡ ok es)
      × AllVerified verify es c

-- The result is of one of the paths.
pub data OfPaths (net : Net) (verify : Endpoint → Cache → Run VerificationResult)
    (forwarder : UpstreamResolver → Outcome PyError (List ℕ)) (result : DnsProcessResult)
    : List ResolverPath → Type 0 where
  here :
      {path : ResolverPath} {paths : List ResolverPath}
      → FromPath net verify forwarder path result
      → OfPaths net verify forwarder result (path ∷ paths)
  later :
      {path : ResolverPath} {paths : List ResolverPath}
      → OfPaths net verify forwarder result paths
      → OfPaths net verify forwarder result (path ∷ paths)

module _ (net : Net) (verify : Endpoint → Cache → Run VerificationResult) where
  -- When the gate returns, it returns the SERVFAIL for the query, or the response, every observed
  -- endpoint of which it has verified and accepted.
  pub release_or_servfail-AllVerified :
      (query response : List ℕ) (es : List Endpoint) (c : Cache) (out : List ℕ)
      → (release_or_servfail net verify query response es c).0 ≡ ok out
      → (out ≡ make_servfail query) ⊎ ((out ≡ response) × AllVerified verify es c)
  unfolding release_or_servfail
  release_or_servfail-AllVerified query response [] c out h = inr (ground arith, no_more)
  release_or_servfail-AllVerified query response (e ∷ es) c out h =
      let (r, e1, h1, _) = split_after (verify e c) _ h in
      elim (Bool-cases r.accepted) [
        | inr off ↦ inl (ground (arith, off, h1))
        | inl on ↦
            elim (release_or_servfail-AllVerified query response es (verify e c).1 out
              (rw on at h1)) [
                | inl refused ↦ inl refused
                | inr (same, rest) ↦ inr (same, and_then r e1 on rest)
              ]
      ]
