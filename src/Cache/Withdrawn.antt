-- ===== src/Cache/Withdrawn.antt =====
-- What `get_valid` of verifier/cache_manager.py answers after a resolver was invalidated.
use fanxiangdiguijiexi.Prelude.{
  ℕ, ◌≡◌, ◌≢◌, Bool, true, false, Option, some, arith, Text, text_eq, text_eq_refl, Outcome,
  PyError, ok, raised,
}
use fanxiangdiguijiexi.Crypto.Sha.{Sha256}
use fanxiangdiguijiexi.Models.Endpoint.{Endpoint, Net}
use fanxiangdiguijiexi.Models.Verification.{VerificationResult}
use fanxiangdiguijiexi.Cache.Rows.{RowStatus, CacheRow, bump_generation, mark_status_by_resolver}
use fanxiangdiguijiexi.Cache.Manager.{Others, Cache, is_live, mark_memory, get_valid}
use fanxiangdiguijiexi.Cache.Store.{Verified, verified_row, store_normalized, store_verified}
use fanxiangdiguijiexi.Cache.Invalidate.{invalidate_resolver}
use fanxiangdiguijiexi.Cache.Valid.{at_row, get_valid-Accepted}
use fanxiangdiguijiexi.Cache.Moves.{Invalidation, perform}
use fanxiangdiguijiexi.Cache.Dead.{IsWithdrawn, AllDead, mark_rows-all, map_values-all, found-Dead}
use fanxiangdiguijiexi.Cache.Revoked.{withdraws, perform-IsWithdrawn, commit_row-IsWithdrawn}

abbrev pub of_resolver : Text → CacheRow → Bool
of_resolver resolver_id row = text_eq row.resolver_id resolver_id

pub invalidate_resolver-IsWithdrawn :
    (resolver_id : Text) (status : RowStatus) (c : Cache)
    → is_live status ≡ false
    → IsWithdrawn (of_resolver resolver_id) (invalidate_resolver resolver_id status c)
unfolding invalidate_resolver mark_status_by_resolver bump_generation mark_memory
invalidate_resolver-IsWithdrawn resolver_id status c h = record {
  rows = mark_rows-all (of_resolver resolver_id) status c.repository.rows h;
  memory = map_values-all (of_resolver resolver_id) status c.memory h;
}

store_normalized-IsWithdrawn :
    (resolver_id : Text) (o : Outcome PyError (Endpoint × Text)) (v : Verified) (g now : ℕ)
    (c : Cache)
    → text_eq v.resolver_id resolver_id ≡ false
    → IsWithdrawn (of_resolver resolver_id) c
    → IsWithdrawn (of_resolver resolver_id) (store_normalized o v g now c).1
unfolding verified_row
store_normalized-IsWithdrawn resolver_id (raised e) v g now c h w = w
store_normalized-IsWithdrawn resolver_id (ok (endpoint, key)) v g now c h w =
    commit_row-IsWithdrawn (of_resolver resolver_id) v.endpoint_key
      (verified_row v endpoint key g now c.generation_owner) g c h w

module _ (net : Net) (s : Sha256) where
  -- What may follow: invalidations to a status out of service, and verified rows of other resolvers.
  pub data Step (resolver_id : Text) (c : Cache) : Cache → Type 0 where
    invalidated : (i : Invalidation) → withdraws i ≡ true → Step resolver_id c (perform i c)
    stored :
        (v : Verified) (expected : Option ℕ) (now : ℕ)
        → text_eq v.resolver_id resolver_id ≡ false
        → Step resolver_id c (store_verified net s v expected now c).1

  pub data Steps (resolver_id : Text) (c : Cache) : Cache → Type 0 where
    no_step : Steps resolver_id c c
    and_step : {d e : Cache} → Steps resolver_id c d → Step resolver_id d e → Steps resolver_id c e

  Step-IsWithdrawn :
      (resolver_id : Text) (c d : Cache)
      → Step resolver_id c d
      → IsWithdrawn (of_resolver resolver_id) c
      → IsWithdrawn (of_resolver resolver_id) d
  unfolding store_verified
  Step-IsWithdrawn resolver_id c _ (invalidated i h) w =
      perform-IsWithdrawn (of_resolver resolver_id) i c h w
  Step-IsWithdrawn resolver_id c _ (stored v expected now h) w =
      store_normalized-IsWithdrawn resolver_id _ v _ now c h w

  Steps-IsWithdrawn :
      (resolver_id : Text) (c d : Cache)
      → Steps resolver_id c d
      → IsWithdrawn (of_resolver resolver_id) c
      → IsWithdrawn (of_resolver resolver_id) d
  Steps-IsWithdrawn resolver_id c _ no_step w = w
  Steps-IsWithdrawn resolver_id c e (and_step {d} steps step) w =
      Step-IsWithdrawn resolver_id d e step (Steps-IsWithdrawn resolver_id c d steps w)

  -- After `invalidate_resolver` to a status out of service, and after any later invalidations of
  -- that kind and any rows stored for other resolvers, `get_valid` accepts no answer of the
  -- resolver, for any endpoint and at any time, provided that other processes put no row of the
  -- resolver in service between the call's first read of the generation and its read of the row.
  -- What they do after that, before the call's end, does not matter.
  pub invalidate_resolver-lasts :
      (resolver_id : Text) (status : RowStatus) (c d : Cache) (others : Others) (key : Text)
      (observed : Endpoint) (now : ℕ) (r : VerificationResult)
      → is_live status ≡ false
      → Steps resolver_id (invalidate_resolver resolver_id status c) d
      → (AllDead (of_resolver resolver_id) d.repository.rows
          → AllDead (of_resolver resolver_id) (at_row others d).rows)
      → (get_valid net s others key observed now d).0 ≡ ok (some r)
      → r.accepted ≡ true
      → r.resolver_id ≢ some resolver_id
  invalidate_resolver-lasts resolver_id status c d others key observed now r h steps calm g a same =
      let (row, found, still, left, taken) =
        get_valid-Accepted net s others key observed now d r g a in
      let w =
        Steps-IsWithdrawn resolver_id _ d steps
          (invalidate_resolver-IsWithdrawn resolver_id status c h) in
      let at : IsWithdrawn (of_resolver resolver_id) (record d { repository = at_row others d }) =
        record { rows = calm w.rows; memory = w.memory } in
      let dead = found-Dead (of_resolver resolver_id) key _ row at found in
      let named : row.resolver_id ≡ resolver_id = ground (arith, taken.resolver, same) in
      let hit : text_eq row.resolver_id resolver_id ≡ true = rw named (text_eq_refl resolver_id) in
      absurd (cc (dead hit, taken.live))
