-- ===== src/Cache/Invalidate.antt =====
-- verifier/cache_manager.py: the invalidations.
use fanxiangdiguijiexi.Prelude.{
  ℕ, Bool, true, false, not, ◌&&◌, Option, none, some, List, [], ◌∷◌, ◌==◌, if◌then◌else◌, length,
  Text, codes, text_eq, Outcome, PyError, ok, raised,
}
use fanxiangdiguijiexi.Prelude.Dict
use fanxiangdiguijiexi.Json.{Value, text}
use fanxiangdiguijiexi.Crypto.Sha.{Sha256}
use fanxiangdiguijiexi.Models.Endpoint.{Endpoint, Net, endpoint_lookup_key}
use fanxiangdiguijiexi.Cache.Rows.{
  RowStatus, expired, CacheRow, bump_generation, get_by_endpoint_lookup_key,
  mark_status_by_resolver, mark_status_by_root, mark_stale_versions, list_rows,
}
use fanxiangdiguijiexi.Cache.Manager.{Cache, mark_memory, or_row, invalidate_cache_key}

abbrev invalidate_row : Option CacheRow → RowStatus → Cache → Cache
invalidate_row none status c = c
invalidate_row (some row) status c = invalidate_cache_key row.cache_key status c

unfoldable pub invalidate_endpoint_key : Text → RowStatus → Cache → Cache
invalidate_endpoint_key endpoint_key status c =
    let row =
      or_row (Dict.get endpoint_key c.memory)
        (get_by_endpoint_lookup_key endpoint_key c.repository) in
    let c' = invalidate_row row status c in
    record c' { memory = Dict.remove endpoint_key c'.memory }

abbrev keyed : Outcome PyError Text → RowStatus → Cache → Outcome PyError Unit × Cache
keyed (raised e) status c = (raised e, c)
keyed (ok key) status c = (ok tt, invalidate_endpoint_key key status c)

unfoldable pub invalidate_endpoint :
    Net → Sha256 → Endpoint → RowStatus → Cache → Outcome PyError Unit × Cache
unfolding invalidate_endpoint_key
invalidate_endpoint net s endpoint status c = keyed (endpoint_lookup_key net s endpoint) status c

unfoldable pub invalidate_resolver : Text → RowStatus → Cache → Cache
invalidate_resolver resolver_id status c = record c {
  repository = mark_status_by_resolver resolver_id status (bump_generation c.repository);
  memory = mark_memory (λ row. text_eq row.resolver_id resolver_id) status c.memory;
}

-- `(row.get("evidence") or {}).get("resolver_id_key") == resolver_id_key`
abbrev pub is_text : Option Value → Text → Bool
is_text (some (text t)) u = text_eq t u
is_text _ u = false

unfoldable pub has_resolver_id_key : Text → CacheRow → Bool
has_resolver_id_key resolver_id_key row =
    is_text (Dict.get (codes "resolver_id_key") row.evidence) resolver_id_key

-- `for row in rows: if test: self.invalidate_cache_key(row["cache_key"], status)`
unfoldable pub invalidate_rows : (CacheRow → Bool) → RowStatus → List CacheRow → Cache → Cache
invalidate_rows test status [] c = c
invalidate_rows test status (row ∷ rest) c =
    invalidate_rows test status rest
      (if test row then invalidate_cache_key row.cache_key status c else c)

-- Both of `invalidate_resolver_key` and `invalidate_object_version_by_resolver_key`.
unfoldable pub invalidate_where : (CacheRow → Bool) → RowStatus → Cache → Cache
unfolding invalidate_rows
invalidate_where test status c =
    let c' = record c {
      repository = bump_generation c.repository;
      memory = mark_memory test status c.memory;
    } in
    invalidate_rows test status (list_rows c'.repository) c'

unfoldable pub invalidate_resolver_key : Text → RowStatus → Cache → Cache
unfolding invalidate_where has_resolver_id_key
invalidate_resolver_key resolver_id_key status =
    invalidate_where (has_resolver_id_key resolver_id_key) status

unfoldable pub invalidate_object_version_by_resolver_key : Text → ℕ → Cache → Cache
unfolding invalidate_where has_resolver_id_key
invalidate_object_version_by_resolver_key resolver_id_key object_version =
    invalidate_where
      (λ row. has_resolver_id_key resolver_id_key row && not (row.object_version == object_version))
      expired

unfoldable pub invalidate_root : Text → RowStatus → Cache → Cache
invalidate_root state_root status c = record c {
  repository = mark_status_by_root state_root status (bump_generation c.repository);
  memory = mark_memory (λ row. text_eq row.state_root state_root) status c.memory;
}

unfoldable pub invalidate_object_version : Text → ℕ → Cache → Cache
invalidate_object_version resolver_id object_version c = record c {
  repository = mark_stale_versions resolver_id object_version (bump_generation c.repository);
  memory =
      mark_memory
        (λ row. text_eq row.resolver_id resolver_id && not (row.object_version == object_version))
        expired c.memory;
}

-- `expire_all`: the number of rows, and the cache without any memory.
unfoldable pub expire_all : RowStatus → Cache → ℕ × Cache
unfolding invalidate_rows
expire_all status c =
    let rows = list_rows c.repository in
    let c' = invalidate_rows (λ row. true) status rows c in (length rows, record c' { memory = [] })
