-- ===== src/Cache/Moves.antt =====
-- The invalidations of verifier/cache_manager.py, and when they move the generation.
use fanxiangdiguijiexi.Prelude.{
  ℕ, ◌<◌, ◌≤◌, ◌≡◌, refl, Bool, true, false, some, List, [], ◌∷◌, arith, if◌then◌else◌, Text, ◌||◌,
  Option, none, Bool-cases, Option-cases, inl, inr,
}
use fanxiangdiguijiexi.Prelude.Dict
use fanxiangdiguijiexi.Cache.Rows.{
  RowStatus, expired, CacheRow, bump_generation, update_status, mark_status_by_resolver,
  mark_status_by_root, mark_stale_versions, list_rows, insert_newest, sort_newest,
  get_by_endpoint_lookup_key,
}
use fanxiangdiguijiexi.Cache.Manager.{Cache, or_row, invalidate_cache_key}
use fanxiangdiguijiexi.Cache.Invalidate.{
  invalidate_endpoint_key, expire_all, invalidate_resolver, invalidate_rows, invalidate_where,
  invalidate_resolver_key, invalidate_object_version_by_resolver_key, invalidate_root,
  invalidate_object_version,
}

-- The invalidations of the manager. `invalidate_endpoint` is the one by the endpoint's key, or an
-- exception that changes nothing.
pub data Invalidation : Type 0 where
  by_cache_key : Text → RowStatus → Invalidation
  by_resolver : Text → RowStatus → Invalidation
  by_resolver_key : Text → RowStatus → Invalidation
  by_version_of_key : Text → ℕ → Invalidation
  by_root : Text → RowStatus → Invalidation
  by_version : Text → ℕ → Invalidation
  by_endpoint_key : Text → RowStatus → Invalidation
  everything : RowStatus → Invalidation

unfoldable pub perform : Invalidation → Cache → Cache
perform (by_cache_key key status) c = invalidate_cache_key key status c
perform (by_resolver resolver_id status) c = invalidate_resolver resolver_id status c
perform (by_resolver_key key status) c = invalidate_resolver_key key status c
perform (by_version_of_key key version) c = invalidate_object_version_by_resolver_key key version c
perform (by_root state_root status) c = invalidate_root state_root status c
perform (by_version resolver_id version) c = invalidate_object_version resolver_id version c
perform (by_endpoint_key key status) c = invalidate_endpoint_key key status c
perform (everything status) c = (expire_all status c).1

unfoldable pub perform_all : List Invalidation → Cache → Cache
unfolding perform
perform_all [] c = c
perform_all (i ∷ rest) c = perform_all rest (perform i c)

abbrev pub has_row : Option CacheRow → Bool
has_row none = false
has_row (some row) = true

abbrev pub has_rows : List CacheRow → Bool
has_rows [] = false
has_rows (row ∷ rest) = true

-- The invalidation moves the generation: the one by an endpoint key finds a row, the one of every
-- row finds a row in the table. The others move it always.
abbrev pub moves : Invalidation → Cache → Bool
moves (by_cache_key key status) c = true
moves (by_resolver resolver_id status) c = true
moves (by_resolver_key key status) c = true
moves (by_version_of_key key version) c = true
moves (by_root state_root status) c = true
moves (by_version resolver_id version) c = true
moves (by_endpoint_key key status) c =
    has_row (or_row (Dict.get key c.memory) (get_by_endpoint_lookup_key key c.repository))
moves (everything status) c = has_rows c.repository.rows

-- One of the invalidations, made in this order, moves the generation.
unfoldable pub one_moves : List Invalidation → Cache → Bool
unfolding perform
one_moves [] c = false
one_moves (i ∷ rest) c = moves i c || one_moves rest (perform i c)

-- What an invalidation that moves the generation does to the fence.
pub record Advances (c d : Cache) : Type 0 where
  pub later : c.repository.generation < d.repository.generation
  pub owner : d.generation_owner ≡ c.generation_owner

invalidate_cache_key-Advances :
    (key : Text) (status : RowStatus) (c : Cache) → Advances c (invalidate_cache_key key status c)
unfolding invalidate_cache_key update_status bump_generation
invalidate_cache_key-Advances key status c = record { later = omega arith; owner = refl }

record Follows (c d : Cache) : Type 0 where
  not_before : c.repository.generation ≤ d.repository.generation
  owner : d.generation_owner ≡ c.generation_owner

invalidate_rows-Follows :
    (test : CacheRow → Bool) (status : RowStatus) (rows : List CacheRow) (c : Cache)
    → Follows c (invalidate_rows test status rows c)
unfolding invalidate_rows
invalidate_rows-Follows test status [] c = record { not_before = omega arith; owner = refl }
invalidate_rows-Follows test status (row ∷ rest) c =
    let d = if test row then invalidate_cache_key row.cache_key status c else c in
    let first = invalidate_cache_key-Advances row.cache_key status c in
    let others = invalidate_rows-Follows test status rest d in
    let step : Follows c d = record {
      not_before = ground (arith, first.later);
      owner = ground (arith, first.owner);
    } in
    record {
      not_before = omega (arith, step.not_before, others.not_before);
      owner = cc (step.owner, others.owner);
    }

invalidate_where-Advances :
    (test : CacheRow → Bool) (status : RowStatus) (c : Cache)
    → Advances c (invalidate_where test status c)
unfolding invalidate_where bump_generation
invalidate_where-Advances test status c =
    let d = record c { repository = bump_generation c.repository; memory = _ } in
    let after = invalidate_rows-Follows test status (list_rows d.repository) d in
    record { later = omega (arith, after.not_before); owner = after.owner }

insert_newest-has_rows :
    (row : CacheRow) (rows : List CacheRow) → has_rows (insert_newest row rows) ≡ true
unfolding insert_newest
insert_newest-has_rows row [] = refl
insert_newest-has_rows row (r ∷ rest) = ground arith

sort_newest-has_rows :
    (rows : List CacheRow) → has_rows rows ≡ true → has_rows (sort_newest rows) ≡ true
unfolding sort_newest
sort_newest-has_rows [] h = h
sort_newest-has_rows (row ∷ rest) h = insert_newest-has_rows row (sort_newest rest)

invalidate_rows-Advances :
    (status : RowStatus) (rows : List CacheRow) (c : Cache)
    → has_rows rows ≡ true
    → Advances c (invalidate_rows (λ row. true) status rows c)
unfolding invalidate_rows
invalidate_rows-Advances status [] c h = absurd (cc h)
invalidate_rows-Advances status (row ∷ rest) c h =
    let first = invalidate_cache_key-Advances row.cache_key status c in
    let after =
      invalidate_rows-Follows (λ row. true) status rest
        (invalidate_cache_key row.cache_key status c) in
    record {
      later = omega (arith, first.later, after.not_before);
      owner = cc (first.owner, after.owner);
    }

invalidate_endpoint_key-Advances :
    (key : Text) (status : RowStatus) (c : Cache)
    → moves (by_endpoint_key key status) c ≡ true
    → Advances c (invalidate_endpoint_key key status c)
unfolding invalidate_endpoint_key
invalidate_endpoint_key-Advances key status c h =
    elim (Option-cases
      (or_row (Dict.get key c.memory) (get_by_endpoint_lookup_key key c.repository))) [
        | inl e ↦ absurd (cc (rw e at h))
        | inr (row, e) ↦
            let first = invalidate_cache_key-Advances row.cache_key status c in
            rw e record { later = first.later; owner = first.owner }
      ]

perform-Advances : (i : Invalidation) (c : Cache) → moves i c ≡ true → Advances c (perform i c)
unfolding perform invalidate_resolver invalidate_root invalidate_object_version
    mark_status_by_resolver mark_status_by_root mark_stale_versions bump_generation
    invalidate_resolver_key invalidate_object_version_by_resolver_key expire_all list_rows
perform-Advances (by_cache_key key status) c h = invalidate_cache_key-Advances key status c
perform-Advances (by_resolver resolver_id status) c h = record { later = omega arith; owner = refl }
perform-Advances (by_resolver_key key status) c h = invalidate_where-Advances _ status c
perform-Advances (by_version_of_key key version) c h = invalidate_where-Advances _ expired c
perform-Advances (by_root state_root status) c h = record { later = omega arith; owner = refl }
perform-Advances (by_version resolver_id version) c h = record { later = omega arith; owner = refl }
perform-Advances (by_endpoint_key key status) c h = invalidate_endpoint_key-Advances key status c h
perform-Advances (everything status) c h =
    let all =
      invalidate_rows-Advances status (sort_newest c.repository.rows) c
        (sort_newest-has_rows c.repository.rows h) in
    record { later = all.later; owner = all.owner }

invalidate_endpoint_key-Follows :
    (key : Text) (status : RowStatus) (c : Cache) → Follows c (invalidate_endpoint_key key status c)
unfolding invalidate_endpoint_key
invalidate_endpoint_key-Follows key status c =
    elim (Option-cases
      (or_row (Dict.get key c.memory) (get_by_endpoint_lookup_key key c.repository))) [
        | inl e ↦ rw e record { not_before = omega arith; owner = refl }
        | inr (row, e) ↦
            let first = invalidate_cache_key-Advances row.cache_key status c in
            rw e record { not_before = omega (arith, first.later); owner = first.owner }
      ]

Follows-of : (c d : Cache) → Advances c d → Follows c d
Follows-of c d a = record { not_before = omega (arith, a.later); owner = a.owner }

perform-Follows : (i : Invalidation) (c : Cache) → Follows c (perform i c)
unfolding perform expire_all
perform-Follows (by_cache_key key status) c =
    Follows-of c _ (perform-Advances (by_cache_key key status) c refl)
perform-Follows (by_resolver resolver_id status) c =
    Follows-of c _ (perform-Advances (by_resolver resolver_id status) c refl)
perform-Follows (by_resolver_key key status) c =
    Follows-of c _ (perform-Advances (by_resolver_key key status) c refl)
perform-Follows (by_version_of_key key version) c =
    Follows-of c _ (perform-Advances (by_version_of_key key version) c refl)
perform-Follows (by_root state_root status) c =
    Follows-of c _ (perform-Advances (by_root state_root status) c refl)
perform-Follows (by_version resolver_id version) c =
    Follows-of c _ (perform-Advances (by_version resolver_id version) c refl)
perform-Follows (by_endpoint_key key status) c = invalidate_endpoint_key-Follows key status c
perform-Follows (everything status) c =
    let all = invalidate_rows-Follows (λ row. true) status (list_rows c.repository) c in
    record { not_before = all.not_before; owner = all.owner }

perform_all-Follows : (is : List Invalidation) (c : Cache) → Follows c (perform_all is c)
unfolding perform_all
perform_all-Follows [] c = record { not_before = omega arith; owner = refl }
perform_all-Follows (i ∷ is) c =
    let first = perform-Follows i c in
    let others = perform_all-Follows is (perform i c) in
    record {
      not_before = omega (arith, first.not_before, others.not_before);
      owner = cc (first.owner, others.owner);
    }

pub perform_all-Advances :
    (is : List Invalidation) (c : Cache) → one_moves is c ≡ true → Advances c (perform_all is c)
unfolding perform_all one_moves
perform_all-Advances [] c h = absurd (cc h)
perform_all-Advances (i ∷ is) c h = elim (Bool-cases (moves i c)) [
  | inl e ↦
      let first = perform-Advances i c e in
      let others = perform_all-Follows is (perform i c) in
      record {
        later = omega (arith, first.later, others.not_before);
        owner = cc (first.owner, others.owner);
      }
  | inr e ↦
      let first = perform-Follows i c in
      let others = perform_all-Advances is (perform i c) (rw e at h) in
      record {
        later = omega (arith, first.not_before, others.later);
        owner = cc (first.owner, others.owner);
      }
]
