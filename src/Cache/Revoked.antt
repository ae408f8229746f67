-- ===== src/Cache/Revoked.antt =====
-- Rows that an invalidation took out of service stay out of every answer of `get_valid`.
use fanxiangdiguijiexi.Prelude.{
  ℕ, ◌≡◌, refl, Bool, true, false, not, List, [], ◌∷◌, arith, ◌==◌, Text, Bool-cases, Option-cases,
  inl, inr,
}
use fanxiangdiguijiexi.Prelude.Dict
use fanxiangdiguijiexi.Prelude.Dict.{Dict}
use fanxiangdiguijiexi.Cache.Rows.{
  RowStatus, expired, CacheRow, bump_generation, put, put_if_generation, update_status,
  get_by_endpoint_lookup_key, list_rows, mark_status_by_resolver, mark_status_by_root,
  mark_stale_versions,
}
use fanxiangdiguijiexi.Cache.Manager.{Cache, or_row, is_live, mark_memory, invalidate_cache_key}
use fanxiangdiguijiexi.Cache.Invalidate.{
  invalidate_endpoint_key, expire_all, invalidate_resolver, invalidate_rows, invalidate_where,
  invalidate_resolver_key, invalidate_object_version_by_resolver_key, invalidate_root,
  invalidate_object_version,
}
use fanxiangdiguijiexi.Cache.Store.{commit_row}
use fanxiangdiguijiexi.Cache.Moves.{
  Invalidation, by_endpoint_key, everything, by_cache_key, by_resolver, by_resolver_key,
  by_version_of_key, by_root, by_version, perform,
}
use fanxiangdiguijiexi.Cache.Dead.{
  Dead, IsWithdrawn, mark_rows-AllDead, map_values-MemoryDead, remove-MemoryDead, keep-AllDead,
  append-AllDead, put-MemoryDead,
}

pub invalidate_cache_key-IsWithdrawn :
    (test : CacheRow → Bool) (key : Text) (status : RowStatus) (c : Cache)
    → is_live status ≡ false
    → IsWithdrawn test c
    → IsWithdrawn test (invalidate_cache_key key status c)
unfolding invalidate_cache_key update_status bump_generation mark_memory
invalidate_cache_key-IsWithdrawn test key status c h w = record {
  rows = mark_rows-AllDead test _ status c.repository.rows h w.rows;
  memory = map_values-MemoryDead test _ status c.memory h w.memory;
}

invalidate_rows-IsWithdrawn :
    (test mark : CacheRow → Bool) (status : RowStatus) (rows : List CacheRow) (c : Cache)
    → is_live status ≡ false
    → IsWithdrawn test c
    → IsWithdrawn test (invalidate_rows mark status rows c)
unfolding invalidate_rows
invalidate_rows-IsWithdrawn test mark status [] c h w = w
invalidate_rows-IsWithdrawn test mark status (row ∷ rest) c h w =
    invalidate_rows-IsWithdrawn test mark status rest _ h (elim (Bool-cases (mark row)) [
      | inl e ↦ rw e (invalidate_cache_key-IsWithdrawn test row.cache_key status c h w)
      | inr e ↦ rw e w
    ])

invalidate_where-IsWithdrawn :
    (test mark : CacheRow → Bool) (status : RowStatus) (c : Cache)
    → is_live status ≡ false
    → IsWithdrawn test c
    → IsWithdrawn test (invalidate_where mark status c)
unfolding invalidate_where bump_generation mark_memory
invalidate_where-IsWithdrawn test mark status c h w =
    let d = record c {
      repository = bump_generation c.repository;
      memory = mark_memory mark status c.memory;
    } in
    invalidate_rows-IsWithdrawn test mark status (list_rows d.repository) d h
      record { rows = w.rows; memory = map_values-MemoryDead test mark status c.memory h w.memory }

invalidate_endpoint_key-IsWithdrawn :
    (test : CacheRow → Bool) (key : Text) (status : RowStatus) (c : Cache)
    → is_live status ≡ false
    → IsWithdrawn test c
    → IsWithdrawn test (invalidate_endpoint_key key status c)
unfolding invalidate_endpoint_key
invalidate_endpoint_key-IsWithdrawn test key status c h w =
    elim (Option-cases
      (or_row (Dict.get key c.memory) (get_by_endpoint_lookup_key key c.repository))) [
        | inl e ↦
            rw e record { rows = w.rows; memory = remove-MemoryDead test key c.memory w.memory }
        | inr (row, e) ↦
            let k = invalidate_cache_key-IsWithdrawn test row.cache_key status c h w in
            rw e record { rows = k.rows; memory = remove-MemoryDead test key _ k.memory }
      ]

-- The status that an invalidation leaves is not one in service.
abbrev pub withdraws : Invalidation → Bool
withdraws (by_cache_key key status) = not (is_live status)
withdraws (by_resolver resolver_id status) = not (is_live status)
withdraws (by_resolver_key key status) = not (is_live status)
withdraws (by_version_of_key key version) = true
withdraws (by_root state_root status) = not (is_live status)
withdraws (by_version resolver_id version) = true
withdraws (by_endpoint_key key status) = not (is_live status)
withdraws (everything status) = not (is_live status)

pub perform-IsWithdrawn :
    (test : CacheRow → Bool) (i : Invalidation) (c : Cache)
    → withdraws i ≡ true
    → IsWithdrawn test c
    → IsWithdrawn test (perform i c)
unfolding perform invalidate_resolver invalidate_root invalidate_object_version
    mark_status_by_resolver mark_status_by_root mark_stale_versions bump_generation
    invalidate_resolver_key invalidate_object_version_by_resolver_key mark_memory expire_all
perform-IsWithdrawn test (by_cache_key key status) c h w =
    invalidate_cache_key-IsWithdrawn test key status c (ground arith) w
perform-IsWithdrawn test (by_resolver resolver_id status) c h w = record {
  rows = mark_rows-AllDead test _ status c.repository.rows (ground arith) w.rows;
  memory = map_values-MemoryDead test _ status c.memory (ground arith) w.memory;
}
perform-IsWithdrawn test (by_resolver_key key status) c h w =
    invalidate_where-IsWithdrawn test _ status c (ground arith) w
perform-IsWithdrawn test (by_version_of_key key version) c h w =
    invalidate_where-IsWithdrawn test _ expired c refl w
perform-IsWithdrawn test (by_root state_root status) c h w = record {
  rows = mark_rows-AllDead test _ status c.repository.rows (ground arith) w.rows;
  memory = map_values-MemoryDead test _ status c.memory (ground arith) w.memory;
}
perform-IsWithdrawn test (by_version resolver_id version) c h w = record {
  rows = mark_rows-AllDead test _ expired c.repository.rows refl w.rows;
  memory = map_values-MemoryDead test _ expired c.memory refl w.memory;
}
perform-IsWithdrawn test (by_endpoint_key key status) c h w =
    invalidate_endpoint_key-IsWithdrawn test key status c (ground arith) w
perform-IsWithdrawn test (everything status) c h w =
    let k =
      invalidate_rows-IsWithdrawn test (λ row. true) status (list_rows c.repository) c
        (ground arith) w in
    record { rows = k.rows; memory = tt }

pub commit_row-IsWithdrawn :
    (test : CacheRow → Bool) (key : Text) (row : CacheRow) (g : ℕ) (c : Cache)
    → test row ≡ false
    → IsWithdrawn test c
    → IsWithdrawn test (commit_row key row g c).1
unfolding commit_row put_if_generation put
commit_row-IsWithdrawn test key row g c h w =
    let d : Dead test row = λ t. absurd (cc (h, t)) in
    elim (Bool-cases (c.repository.generation == g)) [
      | inl e ↦ rw e record {
        rows = append-AllDead test _ row (keep-AllDead test _ c.repository.rows w.rows) d;
        memory = put-MemoryDead test key row c.memory d w.memory;
      }
      | inr e ↦ rw e record { rows = w.rows; memory = w.memory }
    ]
