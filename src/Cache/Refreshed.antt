-- ===== src/Cache/Refreshed.antt =====
-- What `refresh_registry_state` of verifier/cache_manager.py leaves.
use fanxiangdiguijiexi.Prelude.{
  ◌≢◌, ◌||◌, not, if◌then◌else◌, ap, Option, truthy, true, arith, text_eq-false, ◌+◌, ◌≡◌, inl, inr,
  refl, Bool, false, none, some, List, [], ◌∷◌, leb, Text, text_eq, ok, Bool-cases, Outcome-cases,
}
use fanxiangdiguijiexi.Chain.Backend.{Registry, ResolverAnchor, ChainStatus, is_revoked}
use fanxiangdiguijiexi.Cache.Rows.{
  RowStatus, verified, refreshing, revoked, expired, CacheRow, insert_newest, sort_newest,
  list_rows, update_status, bump_generation,
}
use fanxiangdiguijiexi.Cache.Manager.{Cache, invalidate_cache_key, is_live, mark_memory}
use fanxiangdiguijiexi.Cache.Refresh
use fanxiangdiguijiexi.Cache.Refresh.{
  Counts, Verdict, row_verdict, registry_verdict, bound_to, same_anchor, row_endpoint_key,
  row_resolver_key, apply_verdict, refresh_rows, refresh_registry_state,
}
use fanxiangdiguijiexi.Cache.Dead.{IsWithdrawn, mark_rows-all, map_values-all}
use fanxiangdiguijiexi.Cache.Revoked.{invalidate_cache_key-IsWithdrawn}

pub data IsIn (row : CacheRow) : List CacheRow → Type 0 where
  at_head : {rest : List CacheRow} → IsIn row (row ∷ rest)
  in_tail : {first : CacheRow} {rest : List CacheRow} → IsIn row rest → IsIn row (first ∷ rest)

insert_newest-new : (row : CacheRow) (rows : List CacheRow) → IsIn row (insert_newest row rows)
unfolding insert_newest
insert_newest-new row [] = at_head
insert_newest-new row (r ∷ rest) = elim (Bool-cases (leb r.verified_at row.verified_at)) [
  | inl e ↦ rw e at_head
  | inr e ↦ rw e (in_tail (insert_newest-new row rest))
]

insert_newest-old :
    (row new : CacheRow) (rows : List CacheRow) → IsIn row rows → IsIn row (insert_newest new rows)
unfolding insert_newest
insert_newest-old row new [] h = elim h [ ]
insert_newest-old row new (_ ∷ rest) at_head =
    elim (Bool-cases (leb row.verified_at new.verified_at)) [
      | inl e ↦ rw e (in_tail at_head)
      | inr e ↦ rw e at_head
    ]
insert_newest-old row new (r ∷ rest) (in_tail h) =
    elim (Bool-cases (leb r.verified_at new.verified_at)) [
      | inl e ↦ rw e (in_tail (in_tail h))
      | inr e ↦ rw e (in_tail (insert_newest-old row new rest h))
    ]

sort_newest-IsIn :
    (row : CacheRow) (rows : List CacheRow) → IsIn row rows → IsIn row (sort_newest rows)
unfolding sort_newest
sort_newest-IsIn row [] h = elim h [ ]
sort_newest-IsIn row (_ ∷ rest) at_head = insert_newest-new row (sort_newest rest)
sort_newest-IsIn row (first ∷ rest) (in_tail h) =
    insert_newest-old row first (sort_newest rest) (sort_newest-IsIn row rest h)

abbrev pub of_cache_key : Text → CacheRow → Bool
of_cache_key key row = text_eq row.cache_key key

invalidate_cache_key-all :
    (key : Text) (status : RowStatus) (c : Cache)
    → is_live status ≡ false
    → IsWithdrawn (of_cache_key key) (invalidate_cache_key key status c)
unfolding invalidate_cache_key update_status bump_generation mark_memory
invalidate_cache_key-all key status c h = record {
  rows = mark_rows-all (of_cache_key key) status c.repository.rows h;
  memory = map_values-all (of_cache_key key) status c.memory h;
}

apply_verdict-IsWithdrawn :
    (test : CacheRow → Bool) (v : Verdict) (row : CacheRow) (n : Counts) (c : Cache)
    → IsWithdrawn test c
    → IsWithdrawn test (apply_verdict v row n c).1
apply_verdict-IsWithdrawn test none row n c w = w
apply_verdict-IsWithdrawn test (some revoked) row n c w =
    invalidate_cache_key-IsWithdrawn test row.cache_key revoked c refl w
apply_verdict-IsWithdrawn test (some expired) row n c w =
    invalidate_cache_key-IsWithdrawn test row.cache_key expired c refl w
apply_verdict-IsWithdrawn test (some verified) row n c w =
    invalidate_cache_key-IsWithdrawn test row.cache_key expired c refl w
apply_verdict-IsWithdrawn test (some refreshing) row n c w =
    invalidate_cache_key-IsWithdrawn test row.cache_key expired c refl w

apply_verdict-some :
    (v : RowStatus) (row : CacheRow) (n : Counts) (c : Cache)
    → IsWithdrawn (of_cache_key row.cache_key) (apply_verdict (some v) row n c).1
apply_verdict-some revoked row n c = invalidate_cache_key-all row.cache_key revoked c refl
apply_verdict-some expired row n c = invalidate_cache_key-all row.cache_key expired c refl
apply_verdict-some verified row n c = invalidate_cache_key-all row.cache_key expired c refl
apply_verdict-some refreshing row n c = invalidate_cache_key-all row.cache_key expired c refl

refresh_rows-IsWithdrawn :
    (test : CacheRow → Bool) (registry : Registry) (rows : List CacheRow) (n : Counts) (c : Cache)
    → IsWithdrawn test c
    → IsWithdrawn test (refresh_rows registry rows n c).1
unfolding refresh_rows
refresh_rows-IsWithdrawn test registry [] n c w = w
refresh_rows-IsWithdrawn test registry (row ∷ rest) n c w =
    elim (Outcome-cases (row_verdict registry row)) [
      | inl (v, e) ↦
          let m = record n { checked = n.checked + 1 } in
          rw (e, refresh_rows)
            (refresh_rows-IsWithdrawn test registry rest (apply_verdict v row m c).0
              (apply_verdict v row m c).1 (apply_verdict-IsWithdrawn test v row m c w))
      | inr (x, e) ↦ rw (e, refresh_rows) w
    ]

refresh_rows-withdraws :
    (registry : Registry) (rows : List CacheRow) (row : CacheRow) (v : RowStatus) (n m : Counts)
    (c : Cache)
    → IsIn row rows
    → row_verdict registry row ≡ ok (some v)
    → (refresh_rows registry rows n c).0 ≡ ok m
    → IsWithdrawn (of_cache_key row.cache_key) (refresh_rows registry rows n c).1
unfolding refresh_rows
refresh_rows-withdraws registry [] row v n m c i e h = elim i [ ]
refresh_rows-withdraws registry (_ ∷ rest) row v n m c at_head e h =
    let k = record n { checked = n.checked + 1 } in
    rw (e, refresh_rows)
      (refresh_rows-IsWithdrawn (of_cache_key row.cache_key) registry rest
        (apply_verdict (some v) row k c).0 (apply_verdict (some v) row k c).1
        (apply_verdict-some v row k c))
refresh_rows-withdraws registry (first ∷ rest) row v n m c (in_tail i) e h =
    elim (Outcome-cases (row_verdict registry first)) [
      | inl (w, e') ↦
          let k = record n { checked = n.checked + 1 } in
          rw (e', refresh_rows)
            (refresh_rows-withdraws registry rest row v (apply_verdict w first k c).0 m
              (apply_verdict w first k c).1 i e (rw (e', refresh_rows) at h))
      | inr (x, e') ↦ absurd (cc (rw (e', refresh_rows) at h))
    ]

-- What the registry may have that is not what the row says, for the row's resolver key.
pub data Disagrees (bound : Option Text) (anchor : Option ResolverAnchor)
    (root_status : Option ChainStatus) (key : Text) (row : CacheRow) : Type 0 where
  root_revoked :
      (status : ChainStatus)
      → root_status ≡ some status
      → is_revoked status ≡ true
      → Disagrees bound anchor root_status key row
  anchor_revoked :
      (a : ResolverAnchor)
      → anchor ≡ some a
      → is_revoked a.status ≡ true
      → Disagrees bound anchor root_status key row
  unbound : bound ≡ none → Disagrees bound anchor root_status key row
  bound_elsewhere :
      (other : Text) → bound ≡ some other → other ≢ key → Disagrees bound anchor root_status key row
  no_anchor : anchor ≡ none → Disagrees bound anchor root_status key row
  other_version :
      (a : ResolverAnchor)
      → anchor ≡ some a
      → a.object_version ≢ row.object_version
      → Disagrees bound anchor root_status key row
  other_hash :
      (a : ResolverAnchor)
      → anchor ≡ some a
      → a.object_hash ≢ row.object_hash
      → Disagrees bound anchor root_status key row
  other_root :
      (a : ResolverAnchor)
      → anchor ≡ some a
      → a.state_root ≢ row.state_root
      → Disagrees bound anchor root_status key row

-- The row has its two keys, and what the registry answers for them and for the row's root
-- disagrees with the row.
pub record Contradicts (registry : Registry) (row : CacheRow) : Type 0 where
  pub endpoint_key : truthy (row_endpoint_key row) ≡ true
  pub resolver_key : truthy (row_resolver_key row) ≡ true
  pub bound : Option Text
  pub anchor : Option ResolverAnchor
  pub root_status : Option ChainStatus
  pub bound_read : registry.get_endpoint_binding (row_endpoint_key row) ≡ ok bound
  pub anchor_read : registry.get_anchor (row_resolver_key row) ≡ ok anchor
  pub root_read : registry.get_root_status row.state_root ≡ ok root_status
  pub why : Disagrees bound anchor root_status (row_resolver_key row) row

-- If one of the two tests of the verdict holds, there is one.
some_verdict :
    (x y : Bool)
    → (x || y) ≡ true
    → (v : RowStatus) × ((if x then some revoked else if y then some expired else none) ≡ some v)
some_verdict true y h = (revoked, refl)
some_verdict false true h = (expired, refl)
some_verdict false false h = absurd (cc h)

-- The verdict's two tests, of which a disagreement makes one hold.
Disagrees-tests :
    (bound : Option Text) (anchor : Option ResolverAnchor) (root_status : Option ChainStatus)
    (key : Text) (row : CacheRow)
    → Disagrees bound anchor root_status key row
    → ((Refresh.root_revoked root_status || Refresh.anchor_revoked anchor)
        || (not (bound_to bound key) || not (same_anchor anchor row)))
      ≡ true
Disagrees-tests bound anchor root_status key row (root_revoked st e h) = rw (e, h) refl
Disagrees-tests bound anchor root_status key row (anchor_revoked a e h) = rw (e, h) (ground arith)
Disagrees-tests bound anchor root_status key row (unbound e) = rw e (ground arith)
Disagrees-tests bound anchor root_status key row (bound_elsewhere k e n) =
    rw (e, text_eq-false k key n) (ground arith)
Disagrees-tests bound anchor root_status key row (no_anchor e) = rw e (ground arith)
Disagrees-tests bound anchor root_status key row (other_version a e n) = rw e (ground (arith, n))
Disagrees-tests bound anchor root_status key row (other_hash a e n) =
    rw e (ground (arith, text_eq-false a.object_hash row.object_hash n))
Disagrees-tests bound anchor root_status key row (other_root a e n) =
    rw e (ground (arith, text_eq-false a.state_root row.state_root n))

Contradicts-verdict :
    (registry : Registry) (row : CacheRow)
    → Contradicts registry row
    → (v : RowStatus) × (row_verdict registry row ≡ ok (some v))
unfolding row_verdict registry_verdict
Contradicts-verdict registry row k =
    let (v, e) =
      some_verdict (Refresh.root_revoked k.root_status || Refresh.anchor_revoked k.anchor)
        (not (bound_to k.bound (row_resolver_key row)) || not (same_anchor k.anchor row))
        (Disagrees-tests k.bound k.anchor k.root_status (row_resolver_key row) row k.why) in
    (v, rw (k.endpoint_key, k.resolver_key, k.bound_read, k.anchor_read, k.root_read) (ap ok e))

-- When `refresh_registry_state` returns, every row of the table that has its endpoint key and its
-- resolver key and that the registry's answers contradict is out of service under its cache key, in
-- the table and in the memory: its root or its anchor is revoked, the endpoint is unbound or bound to
-- another key, or there is no anchor or one with another version, hash or root. A row without one of
-- its keys is passed over.
pub refresh_registry_state-withdraws :
    (registry : Registry) (c : Cache) (row : CacheRow) (counts : Counts)
    → IsIn row c.repository.rows
    → Contradicts registry row
    → (refresh_registry_state registry c).0 ≡ ok counts
    → IsWithdrawn (of_cache_key row.cache_key) (refresh_registry_state registry c).1
unfolding refresh_registry_state list_rows
refresh_registry_state-withdraws registry c row counts i k h =
    let (v, e) = Contradicts-verdict registry row k in
    refresh_rows-withdraws registry _ row v _ counts c (sort_newest-IsIn row c.repository.rows i) e
      h
