-- ===== src/Discovery/Termination.antt =====
-- The fuel of `_discover` of wrapper/resolver_chain.py.
use fanxiangdiguijiexi.Prelude.{
  ℕ, zero, suc, ◌+◌, ◌≤◌, ◌<◌, ◌≡◌, ◌∙◌, refl, ap, arith, not, List, [], ◌∷◌, leb, if◌then◌else◌,
  any, Text, text_eq, truthy, ok, raised,
}
use fanxiangdiguijiexi.Crypto.Sha.{Sha256}
use fanxiangdiguijiexi.Models.Endpoint.{Endpoint, Net, normalized}
use fanxiangdiguijiexi.Cache.Manager.{Cache}
use fanxiangdiguijiexi.Cache.Run.{Run, after}
use fanxiangdiguijiexi.Verifier.Keys.{Signer}
use fanxiangdiguijiexi.Agent.Keys.{endpoint_cache_key, agent_url_for}
use fanxiangdiguijiexi.Discovery.Signatures.{Setting, fail_if}
use fanxiangdiguijiexi.Discovery.Introduced.{fail_if-eq-ok}
use fanxiangdiguijiexi.Discovery.Observe.{Outside}
use fanxiangdiguijiexi.Discovery.Discover.{Found, each, seen, without_url, identity_at, discover}

-- Two chains of calls with the same first call, and the same after whatever it returned.
after-same :
    {A B : Type 0} (m : Run A) (f g : A → Cache → Run B)
    → ((a : A) (c : Cache) → m.0 ≡ ok a → f a c ≡ g a c)
    → after m f ≡ after m g
after-same (raised e, c) f g h = refl
after-same (ok a, c) f g h = h a c refl

each-same :
    {A : Type 0} (f g : A → Found → Cache → Run Found)
    → ((a : A) (acc : Found) (c : Cache) → f a acc c ≡ g a acc c)
    → (xs : List A) (acc : Found) (c : Cache) → each f xs acc c ≡ each g xs acc c
unfolding each
each-same f g h [] acc c = refl
each-same f g h (a ∷ rest) acc c =
    ap (λ m. after m (λ acc' c'. each f rest acc' c')) (h a acc c)
    ∙ after-same (g a acc c) _ _ (λ acc' c' e. each-same f g h rest acc' c')

module _ (net : Net) (s : Sha256) (signer : Signer) (setting : Setting) (outside : Outside) where
  -- Any two amounts of fuel that exceed the depth that is left give the same run of `_discover`, from
  -- any depth up to `max_depth`.
  pub discover-enough :
      (fuel more depth : ℕ) (visiting : List Text) (endpoint : Endpoint) (acc : Found) (c : Cache)
      → depth ≤ setting.max_depth
      → setting.max_depth < depth + fuel
      → setting.max_depth < depth + more
      → discover net s signer setting outside fuel depth visiting endpoint acc c
        ≡ discover net s signer setting outside more depth visiting endpoint acc c
  unfolding discover
  discover-enough zero more depth visiting endpoint acc c h f m = absurd (omega (arith, h, f))
  discover-enough (suc fuel) zero depth visiting endpoint acc c h f m = absurd (omega (arith, h, m))
  discover-enough (suc fuel) (suc more) depth visiting endpoint acc c h f m =
      after-same (normalized net endpoint, c) _ _
        (λ e c1 e1.
          after-same (endpoint_cache_key net e, c1) _ _
            (λ key c2 e2.
              after-same (fail_if (any (text_eq key) visiting), c2) _ _
                (λ u3 c3 e3.
                  after-same (fail_if (leb setting.max_depth depth), c3) _ _
                    (λ u4 c4 e4. after-same (outside.verify_endpoint e c4) _ _ (λ result c5 e5.
                      after-same (fail_if (not result.accepted), c5) _ _
                        (λ u6 c6 e6.
                          after-same (agent_url_for net outside.agent_base_urls e, c6) _ _
                            (λ url c7 e7.
                              let room = fail_if-eq-ok (leb setting.max_depth depth) e4 in
                              ap
                                (λ m.
                                  if truthy url
                                  then m
                                  else without_url net s signer setting outside depth
                                      (seen e result acc) c7)
                                (after-same
                                  (identity_at net s signer setting outside url result e, c7) _ _
                                  (λ identity c8 e8.
                                    each-same _ _
                                      (λ a acc' c'.
                                        discover-enough fuel more (depth + 1) (key ∷ visiting) a
                                          acc' c' (ground (arith, room)) (omega (arith, f))
                                          (omega (arith, m)))
                                      identity.upstreams _ c8)))))))))
