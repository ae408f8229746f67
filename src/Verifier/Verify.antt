-- ===== src/Verifier/Verify.antt =====
-- `verify_endpoint`, `refresh_endpoint` and the commit of `_verify_cold` of
-- verifier/resolver_verifier.py. `others` and `meanwhile` are what other processes and threads do to
-- the repository while `get_valid` runs, and to the cache between the judgement and the commit.
use fanxiangdiguijiexi.Prelude.{
  ℕ, Bool, true, false, none, some, [], ◌∷◌, Text, codes, Outcome, PyError, ok, raised, ◌>>=◌,
}
use fanxiangdiguijiexi.Prelude.Dict
use fanxiangdiguijiexi.Json.{num, text}
use fanxiangdiguijiexi.Crypto.Sha.{Sha256}
use fanxiangdiguijiexi.Models.Endpoint.{Endpoint, Net, normalized, endpoint_lookup_key}
use fanxiangdiguijiexi.Models.Verification
use fanxiangdiguijiexi.Models.Verification.{
  VerificationResult, Evidence, accept, reject, out_of_band_unavailable,
  verification_invalidated_during_commit,
}
use fanxiangdiguijiexi.Chain.Backend.{Registry}
use fanxiangdiguijiexi.Cache.Manager.{Others, Cache, Answer, get_valid}
use fanxiangdiguijiexi.Cache.Store.{Verified, store_verified}
use fanxiangdiguijiexi.Verifier.Object.{Clock}
use fanxiangdiguijiexi.Verifier.Keys.{Signer}
use fanxiangdiguijiexi.Verifier.Judge.{Settings, Indexer, Stop, refused, failed, judge}

-- The evidence of a result that was not in the cache.
unfoldable pub miss_evidence : Evidence → ℕ → Text → Evidence
miss_evidence evidence generation owner =
    (codes "cache", text (codes "miss"))
    ∷ Dict.put (codes "cache_generation_owner") (text owner)
        (Dict.put (codes "cache_generation") (num generation) evidence)

abbrev pub finish :
    Outcome PyError Bool × Cache → Verified → ℕ → Outcome PyError VerificationResult × Cache
finish (raised e, c) v generation = (raised e, c)
finish (ok false, c) v generation =
    (ok (reject verification_invalidated_during_commit (some v.resolver_id) []), c)
finish (ok true, c) v generation = (
  ok (
      accept v.resolver_id Verification.verified
        (miss_evidence v.evidence generation c.generation_owner)),
  c,
)

-- The handler of `except Exception`.
abbrev pub fail_closed :
    Text → Outcome PyError VerificationResult × Cache → Outcome PyError VerificationResult × Cache
fail_closed key (raised e, c) =
    (ok (reject out_of_band_unavailable none ((codes "endpoint_key", text key) ∷ [])), c)
fail_closed key (ok r, c) = (ok r, c)

module _ (net : Net) (s : Sha256) where
  abbrev pub commit :
      Outcome Stop Verified → ℕ → ℕ → Cache → Outcome PyError VerificationResult × Cache
  commit (raised (refused reason resolver_id evidence)) generation now c =
      (ok (reject reason resolver_id evidence), c)
  commit (raised (failed e)) generation now c = (raised e, c)
  commit (ok v) generation now c =
      finish (store_verified net s v (some generation) now c) v generation

  -- The normal form of an endpoint, and its key.
  unfoldable pub keyed_endpoint : Endpoint → Outcome PyError (Endpoint × Text)
  keyed_endpoint endpoint = do
    e ← normalized net endpoint
    key ← endpoint_lookup_key net s e
    ok (e, key)

  module _ (clock : Clock) (signer : Signer) (settings : Settings) (indexer : Indexer)
      (registry : ℕ → Registry) where
    -- `now` is the time of the call, and `later` that of the commit.
    unfoldable pub verify_cold :
        Endpoint
        → Text
        → ℕ
        → ℕ
        → (Cache → Cache)
        → ℕ
        → Cache
        → Outcome PyError VerificationResult × Cache
    unfolding judge
    verify_cold endpoint key now later meanwhile generation c =
        commit (judge net s clock signer settings indexer registry endpoint key now) generation
          later (meanwhile c)

    abbrev pub answered :
        Answer × Cache
        → Endpoint
        → Text
        → ℕ
        → ℕ
        → (Cache → Cache)
        → Outcome PyError VerificationResult × Cache
    answered (raised e, c) endpoint key now later meanwhile = (raised e, c)
    answered (ok (some r), c) endpoint key now later meanwhile = (ok r, c)
    answered (ok none, c) endpoint key now later meanwhile =
        fail_closed key (verify_cold endpoint key now later meanwhile c.repository.generation c)

    abbrev pub verify_keyed :
        Outcome PyError (Endpoint × Text)
        → Others
        → (Cache → Cache)
        → ℕ
        → ℕ
        → Cache
        → Outcome PyError VerificationResult × Cache
    verify_keyed (raised e) others meanwhile now later c = (raised e, c)
    verify_keyed (ok (endpoint, key)) others meanwhile now later c =
        answered (get_valid net s others key endpoint now c) endpoint key now later meanwhile

    unfoldable pub verify_endpoint :
        Endpoint
        → Others
        → (Cache → Cache)
        → ℕ
        → ℕ
        → Cache
        → Outcome PyError VerificationResult × Cache
    unfolding verify_cold keyed_endpoint
    verify_endpoint endpoint others meanwhile now later c =
        verify_keyed (keyed_endpoint endpoint) others meanwhile now later c

    abbrev pub refresh_keyed :
        Outcome PyError (Endpoint × Text)
        → (Cache → Cache)
        → ℕ
        → ℕ
        → Cache
        → Outcome PyError VerificationResult × Cache
    refresh_keyed (raised e) meanwhile now later c = (raised e, c)
    refresh_keyed (ok (endpoint, key)) meanwhile now later c =
        fail_closed key (verify_cold endpoint key now later meanwhile c.repository.generation c)

    unfoldable pub refresh_endpoint :
        Endpoint → (Cache → Cache) → ℕ → ℕ → Cache → Outcome PyError VerificationResult × Cache
    unfolding verify_cold keyed_endpoint
    refresh_endpoint endpoint meanwhile now later c =
        refresh_keyed (keyed_endpoint endpoint) meanwhile now later c
