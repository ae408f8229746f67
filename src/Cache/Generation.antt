-- ===== src/Cache/Generation.antt =====
-- The cache generation of verifier/cache_manager.py, which fences the work in flight.
use fanxiangdiguijiexi.Prelude.{
  ℕ, ◌<◌, ◌≤◌, ◌≡◌, refl, Bool, true, false, some, List, arith, Text, text_eq_refl, Outcome,
  PyError, ok, raised,
}
use fanxiangdiguijiexi.Crypto.Sha.{Sha256}
use fanxiangdiguijiexi.Models.Endpoint.{Endpoint, Net}
use fanxiangdiguijiexi.Models.Verification.{VerificationResult}
use fanxiangdiguijiexi.Cache.Rows.{CacheRow, Repository, put_if_generation}
use fanxiangdiguijiexi.Cache.Manager.{Others, Cache, get_valid}
use fanxiangdiguijiexi.Cache.Store.{
  Verified, commit_row, verified_row, store_normalized, store_verified, result_is_current,
}
use fanxiangdiguijiexi.Cache.Valid.{at_check, get_valid-Accepted}
use fanxiangdiguijiexi.Cache.Moves.{Invalidation, perform_all, one_moves, perform_all-Advances}

commit_row-late :
    (key : Text) (row : CacheRow) (g : ℕ) (c : Cache)
    → g < c.repository.generation
    → commit_row key row g c ≡ (false, c)
unfolding commit_row put_if_generation
commit_row-late key row g c h = ground arith

store_normalized-late :
    (o : Outcome PyError (Endpoint × Text)) (v : Verified) (g now : ℕ) (c : Cache) (stored : Bool)
    → g < c.repository.generation
    → (store_normalized o v g now c).0 ≡ ok stored
    → (stored ≡ false) × ((store_normalized o v g now c).1 ≡ c)
store_normalized-late (raised e) v g now c stored later h = absurd (cc h)
store_normalized-late (ok (endpoint, cache_key)) v g now c stored later h =
    let row = verified_row v endpoint cache_key g now c.generation_owner in
    let same = commit_row-late v.endpoint_key row g c later in (cc (rw same at h), rw same refl)

module _ (net : Net) (s : Sha256) where
  -- A verification that began before some invalidations, of which at least one moved the
  -- generation, does not reach the cache: when its `store_verified` returns, it returns false, and
  -- it leaves the rows and the memory as they are. Every invalidation moves the generation, but the
  -- one by an endpoint key only if there is a row for the key, and the one of every row only if the
  -- table has a row.
  pub store_verified-fenced :
      (v : Verified) (now : ℕ) (is : List Invalidation) (c : Cache) (stored : Bool)
      → one_moves is c ≡ true
      → (store_verified net s v (some c.repository.generation) now (perform_all is c)).0 ≡ ok stored
      → (stored ≡ false)
        × ((store_verified net s v (some c.repository.generation) now (perform_all is c)).1
            ≡ perform_all is c)
  unfolding store_verified
  store_verified-fenced v now is c stored m h =
      store_normalized-late _ v c.repository.generation now (perform_all is c) stored
        (perform_all-Advances is c m).later h

  -- An accepted answer that the cache gave, while no one else lowered the generation, is no longer
  -- current after some invalidations of which at least one moved the generation, which every
  -- invalidation does, but the one by an endpoint key only if there is a row for the key, and the
  -- one of every row only if the table has a row.
  pub get_valid-fenced :
      (others : Others) (key : Text) (observed : Endpoint) (now : ℕ) (c : Cache)
      (r : VerificationResult) (is : List Invalidation)
      → ((repo : Repository) → repo.generation ≤ (others.before_update repo).generation)
      → (get_valid net s others key observed now c).0 ≡ ok (some r)
      → r.accepted ≡ true
      → one_moves is (get_valid net s others key observed now c).1 ≡ true
      → result_is_current r (perform_all is (get_valid net s others key observed now c).1)
        ≡ ok false
  unfolding result_is_current
  get_valid-fenced others key observed now c r is up h a m =
      let (row, found, still, left, taken) =
        get_valid-Accepted net s others key observed now c r h a in
      let d = (get_valid net s others key observed now c).1 in
      let moved = perform_all-Advances is d m in
      let owner = taken.owner in
      let stamp = taken.stamp in
      let after : c.repository.generation < (perform_all is d).repository.generation =
        omega (arith, up (at_check others c), still, left, moved.later) in
      rw (owner, stamp, moved.owner, text_eq_refl d.generation_owner) (ground (arith, after))
