-- ===== src/Verifier/Accept.antt =====
-- Where an accepted answer of `verify_endpoint` of verifier/resolver_verifier.py comes from.
use fanxiangdiguijiexi.Prelude.{
  ℕ, ◌≡◌, ◌⊎◌, refl, Bool, true, false, none, some, arith, Text, Outcome, PyError, ok, raised,
  Outcome-cases, inl, inr, Bool-cases, List, [], ◌∷◌, ◌++◌, ◌==◌, subst, sym,
}
use fanxiangdiguijiexi.Crypto.Sha.{Sha256}
use fanxiangdiguijiexi.Models.Endpoint.{Endpoint, Net}
use fanxiangdiguijiexi.Models.Verification.{VerificationResult, accept, reject}
use fanxiangdiguijiexi.Chain.Backend.{Registry}
use fanxiangdiguijiexi.Cache.Rows.{CacheRow, verified, put, put_if_generation}
use fanxiangdiguijiexi.Cache.Manager.{Others, Cache, Answer, get_valid}
use fanxiangdiguijiexi.Cache.Refreshed.{IsIn, at_head, in_tail}
use fanxiangdiguijiexi.Prelude.Dict
use fanxiangdiguijiexi.Cache.Store.{
  Verified, verified_row, commit_row, store_normalized, store_verified,
}
use fanxiangdiguijiexi.Verifier.Object.{Clock}
use fanxiangdiguijiexi.Verifier.Keys.{Signer}
use fanxiangdiguijiexi.Verifier.Judge.{Settings, Indexer, Stop, refused, failed, judge}
use fanxiangdiguijiexi.Verifier.Verify.{
  finish, fail_closed, commit, verify_cold, answered, keyed_endpoint, verify_endpoint,
}

-- What a verification says is what a row holds, as VERIFIED.
pub record Holds (v : Verified) (row : CacheRow) : Type 0 where
  pub endpoint_key : row.endpoint_lookup_key ≡ v.endpoint_key
  pub resolver_id : row.resolver_id ≡ v.resolver_id
  pub object_hash : row.object_hash ≡ v.object_hash
  pub object_version : row.object_version ≡ v.object_version
  pub state_root : row.state_root ≡ v.state_root
  pub status : row.status ≡ verified
  pub soft_expire_at : row.soft_expire_at ≡ v.soft_expire_at
  pub hard_expire_at : row.hard_expire_at ≡ v.hard_expire_at

-- The verification is in the cache: a row that holds it is in the table, and is what the memory has
-- for the endpoint key.
pub record IsStored (v : Verified) (c : Cache) : Type 0 where
  pub row : CacheRow
  pub holds : Holds v row
  pub in_table : IsIn row c.repository.rows
  pub in_memory : Dict.get v.endpoint_key c.memory ≡ some row

IsIn-last : (row : CacheRow) (rows : List CacheRow) → IsIn row (rows ++ row ∷ [])
IsIn-last row [] = at_head
IsIn-last row (r ∷ rest) = in_tail (IsIn-last row rest)

commit_row-true :
    (key : Text) (row : CacheRow) (g : ℕ) (c : Cache)
    → (commit_row key row g c).0 ≡ true
    → (c.repository.generation ≡ g)
      × IsIn row (commit_row key row g c).1.repository.rows
      × (Dict.get key (commit_row key row g c).1.memory ≡ some row)
unfolding commit_row put_if_generation put
commit_row-true key row g c h = elim (Bool-cases (c.repository.generation == g)) [
  | inl e ↦ (ground arith, rw e (IsIn-last row _), rw e (Dict.get-put_same key row c.memory))
  | inr e ↦ absurd (cc (rw e at h))
]

store_normalized-true :
    (o : Outcome PyError (Endpoint × Text)) (v : Verified) (g now : ℕ) (c : Cache)
    → (store_normalized o v g now c).0 ≡ ok true
    → (c.repository.generation ≡ g) × IsStored v (store_normalized o v g now c).1
unfolding verified_row
store_normalized-true (raised e) v g now c h = absurd (cc h)
store_normalized-true (ok (endpoint, key)) v g now c h =
    let row = verified_row v endpoint key g now c.generation_owner in
    let (still, here, kept) = commit_row-true v.endpoint_key row g c (cc h) in
    (
      still,
      record {
        row = row;
        holds = record {
          endpoint_key = refl;
          resolver_id = refl;
          object_hash = refl;
          object_version = refl;
          state_root = refl;
          status = refl;
          soft_expire_at = refl;
          hard_expire_at = refl;
        };
        in_table = here;
        in_memory = kept;
      },
    )

finish-accepted :
    (o : Outcome PyError Bool × Cache) (v : Verified) (g : ℕ) (r : VerificationResult)
    → (finish o v g).0 ≡ ok r
    → r.accepted ≡ true
    → (o.0 ≡ ok true) × (r.resolver_id ≡ some v.resolver_id) × ((finish o v g).1 ≡ o.1)
unfolding accept reject
finish-accepted (raised e, c) v g r h a = absurd (cc h)
finish-accepted (ok false, c) v g r h a = absurd (ground arith)
finish-accepted (ok true, c) v g r h a = (refl, ground arith, refl)

fail_closed-accepted :
    (key : Text) (o : Outcome PyError VerificationResult × Cache) (r : VerificationResult)
    → (fail_closed key o).0 ≡ ok r
    → r.accepted ≡ true
    → (o.0 ≡ ok r) × ((fail_closed key o).1 ≡ o.1)
unfolding reject
fail_closed-accepted key (raised e, c) r h a = absurd (ground arith)
fail_closed-accepted key (ok r', c) r h a = (h, refl)

module _ (net : Net) (s : Sha256) (clock : Clock) (signer : Signer) (settings : Settings)
    (indexer : Indexer) (registry : ℕ → Registry) where
  -- The result of a judgement that was approved, and stored in the cache `d` to give `final`.
  pub record Committed (endpoint : Endpoint) (key : Text) (now : ℕ) (c d final : Cache)
      (r : VerificationResult) : Type 0 where
    pub v : Verified
    pub approved : judge net s clock signer settings indexer registry endpoint key now ≡ ok v
    pub resolver : r.resolver_id ≡ some v.resolver_id
    pub still : d.repository.generation ≡ c.repository.generation
    pub stored : IsStored v final

  commit-accepted :
      (o : Outcome Stop Verified) (g later : ℕ) (d : Cache) (r : VerificationResult)
      → (commit net s o g later d).0 ≡ ok r
      → r.accepted ≡ true
      → (v : Verified) × (o ≡ ok v)
        × (r.resolver_id ≡ some v.resolver_id)
        × (d.repository.generation ≡ g)
        × IsStored v (commit net s o g later d).1
  unfolding store_verified reject
  commit-accepted (raised (refused q i e)) g later d r h a = absurd (ground arith)
  commit-accepted (raised (failed e)) g later d r h a = absurd (cc h)
  commit-accepted (ok v) g later d r h a =
      let (stored, named, same) =
        finish-accepted (store_verified net s v (some g) later d) v g r h a in
      let (still, kept) = store_normalized-true _ v g later d stored in
      (v, refl, named, still, subst (IsStored v) (sym same) kept)

  verify_cold-accepted :
      (endpoint : Endpoint) (key : Text) (now later : ℕ) (meanwhile : Cache → Cache) (c : Cache)
      (r : VerificationResult)
      → (verify_cold net s clock signer settings indexer registry endpoint key now later meanwhile
          c.repository.generation c).0
        ≡ ok r
      → r.accepted ≡ true
      → Committed endpoint key now c
          (meanwhile c)
          (verify_cold net s clock signer settings indexer registry endpoint key now later meanwhile
            c.repository.generation c).1
          r
  unfolding verify_cold
  verify_cold-accepted endpoint key now later meanwhile c r h a =
      let (v, e, named, still, kept) =
        commit-accepted (judge net s clock signer settings indexer registry endpoint key now)
          c.repository.generation later (meanwhile c) r h a in
      record { v = v; approved = e; resolver = named; still = still; stored = kept }

  -- Where an accepted answer of `verify_endpoint` comes from: the endpoint's key, and the cache or a
  -- committed judgement.
  pub data Source (others : Others) (meanwhile : Cache → Cache) (now : ℕ) (c final : Cache)
      (endpoint : Endpoint) (key : Text) (r : VerificationResult) : Type 0 where
    from_cache :
        (get_valid net s others key endpoint now c).0 ≡ ok (some r)
        → final ≡ (get_valid net s others key endpoint now c).1
        → Source others meanwhile now c final endpoint key r
    from_judgement :
        (get_valid net s others key endpoint now c).0 ≡ ok none
        → Committed endpoint key now
            (get_valid net s others key endpoint now c).1
            (meanwhile (get_valid net s others key endpoint now c).1)
            final
            r
        → Source others meanwhile now c final endpoint key r

  answered-Source :
      (a : Answer × Cache) (endpoint : Endpoint) (key : Text) (now later : ℕ)
      (meanwhile : Cache → Cache) (r : VerificationResult)
      → (answered net s clock signer settings indexer registry a endpoint key now later meanwhile).0
        ≡ ok r
      → r.accepted ≡ true
      → ((a.0 ≡ ok (some r))
          × ((answered net s clock signer settings indexer registry a endpoint key now later
                meanwhile).1
              ≡ a.1))
        ⊎ ((a.0 ≡ ok none)
            × Committed endpoint key now a.1
                (meanwhile a.1)
                (answered net s clock signer settings indexer registry a endpoint key now later
                  meanwhile).1
                r)
  answered-Source (raised e, c) endpoint key now later meanwhile r h t = absurd (cc h)
  answered-Source (ok (some q), c) endpoint key now later meanwhile r h t = inl (ground arith, refl)
  answered-Source (ok none, c) endpoint key now later meanwhile r h t =
      let (e, same) = fail_closed-accepted key _ r h t in
      let it = verify_cold-accepted endpoint key now later meanwhile c r e t in
      inr (refl, subst (λ f. Committed endpoint key now c (meanwhile c) f r) (sym same) it)

  -- An accepted answer of `verify_endpoint`, whatever others do to the repository and the cache in
  -- between, is an answer of `get_valid` for the endpoint's normal form and key, or, where the cache
  -- had none, the result of an approved judgement that names that resolver, was made while the
  -- generation of the cache did not move, and is stored: the cache that the call leaves has a
  -- VERIFIED row with the judgement's key, resolver, hash, version, root and deadlines, in the table
  -- and under the endpoint key in the memory.
  pub verify_endpoint-Source :
      (endpoint : Endpoint) (others : Others) (meanwhile : Cache → Cache) (now later : ℕ)
      (c : Cache) (r : VerificationResult)
      → (verify_endpoint net s clock signer settings indexer registry endpoint others meanwhile now
          later c).0
        ≡ ok r
      → r.accepted ≡ true
      → (e : Endpoint) × (key : Text) × (keyed_endpoint net s endpoint ≡ ok (e, key))
        × Source others meanwhile now c
            (verify_endpoint net s clock signer settings indexer registry endpoint others meanwhile
              now later c).1
            e
            key
            r
  unfolding verify_endpoint
  verify_endpoint-Source endpoint others meanwhile now later c r h a =
      elim (Outcome-cases (keyed_endpoint net s endpoint)) [
        | inr (x, q) ↦ absurd (cc (rw q at h))
        | inl (k, q) ↦ (
          k.0,
          k.1,
          q,
          elim (answered-Source (get_valid net s others k.1 k.0 now c) k.0 k.1 now later meanwhile r
              (rw q at h) a) [
                | inl hit ↦ rw q (from_cache hit.0 hit.1)
                | inr miss ↦ rw q (from_judgement miss.0 miss.1)
              ],
        )
      ]
