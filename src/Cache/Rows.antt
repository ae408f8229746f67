-- ===== src/Cache/Rows.antt =====
-- `TrustedCacheRepository` of db/repositories.py, and verifier/cache_keys.py. The table is a list
-- of rows, oldest first. A time is a number of microseconds; a stored one is in whole seconds.
use fanxiangdiguijiexi.Prelude.{
  ℕ, ◌+◌, Bool, true, false, not, ◌&&◌, Option, none, some, List, [], ◌∷◌, ◌++◌, ltb, leb, ◌==◌,
  if◌then◌else◌, keep, Text, codes, text_eq, decimal, or_blank, Outcome, PyError, ok, ◌>>=◌,
}
use fanxiangdiguijiexi.Crypto.Sha.{Sha256, sha256_hex}
use fanxiangdiguijiexi.Models.Endpoint.{Endpoint, Net, normalized}
use fanxiangdiguijiexi.Models.Verification.{Evidence}

-- The statuses that the manager writes.
pub data RowStatus : Type 0 where
  verified refreshing revoked expired : RowStatus

pub record CacheRow : Type 0 where
  pub cache_key : Text
  pub endpoint_lookup_key : Text
  pub resolver_id : Text
  pub endpoint : Endpoint
  pub object_hash : Text
  pub object_version : ℕ
  pub state_root : Text
  pub status : RowStatus
  pub verified_at : ℕ
  pub soft_expire_at : ℕ
  pub hard_expire_at : ℕ
  pub evidence : Evidence

-- The audit log's entries of the repository's methods.
pub data AuditEvent : Type 0 where
  status_updated : Text → RowStatus → AuditEvent
  status_marked : Text → RowStatus → AuditEvent
  root_status_marked : Text → RowStatus → AuditEvent
  stale_versions_expired : Text → ℕ → AuditEvent

pub record Repository : Type 0 where
  pub rows : List CacheRow
  pub generation : ℕ
  pub audit : List AuditEvent

abbrev pub with_status : RowStatus → CacheRow → CacheRow
with_status status row = record row { status = status }

-- `UPDATE trusted_cache SET status=? WHERE test`
unfoldable pub mark_rows : (CacheRow → Bool) → RowStatus → List CacheRow → List CacheRow
mark_rows test status [] = []
mark_rows test status (row ∷ rest) =
    (if test row then with_status status row else row) ∷ mark_rows test status rest

-- `INSERT OR REPLACE`, whose primary key is `cache_key`.
unfoldable pub put : CacheRow → Repository → Repository
put row repo = record repo {
  rows = keep (λ r. not (text_eq r.cache_key row.cache_key)) repo.rows ++ row ∷ [];
}

unfoldable pub bump_generation : Repository → Repository
bump_generation repo = record repo { generation = repo.generation + 1 }

-- The transaction of `put_if_generation`.
unfoldable pub put_if_generation : CacheRow → ℕ → Repository → Bool × Repository
unfolding put
put_if_generation row expected_generation repo =
    if repo.generation == expected_generation then (true, put row repo) else (false, repo)

-- The later of the best row so far and one more.
abbrev pub newer : Option CacheRow → CacheRow → Option CacheRow
newer none row = some row
newer (some best) row = if ltb best.verified_at row.verified_at then some row else some best

-- `WHERE endpoint_lookup_key=? ORDER BY verified_at DESC LIMIT 1`. Among rows of one second SQL
-- leaves the choice open; this takes the oldest row.
unfoldable pub latest : Text → Option CacheRow → List CacheRow → Option CacheRow
latest key best [] = best
latest key best (row ∷ rest) =
    latest key (if text_eq row.endpoint_lookup_key key then newer best row else best) rest

unfoldable pub get_by_endpoint_lookup_key : Text → Repository → Option CacheRow
unfolding latest
get_by_endpoint_lookup_key key repo = latest key none repo.rows

unfoldable pub update_status : Text → RowStatus → Repository → Repository
unfolding mark_rows
update_status cache_key status repo = record repo {
  rows = mark_rows (λ r. text_eq r.cache_key cache_key) status repo.rows;
  audit = repo.audit ++ status_updated cache_key status ∷ [];
}

unfoldable pub mark_status_by_resolver : Text → RowStatus → Repository → Repository
unfolding mark_rows
mark_status_by_resolver resolver_id status repo = record repo {
  rows = mark_rows (λ r. text_eq r.resolver_id resolver_id) status repo.rows;
  audit = repo.audit ++ status_marked resolver_id status ∷ [];
}

unfoldable pub mark_status_by_root : Text → RowStatus → Repository → Repository
unfolding mark_rows
mark_status_by_root state_root status repo = record repo {
  rows = mark_rows (λ r. text_eq r.state_root state_root) status repo.rows;
  audit = repo.audit ++ root_status_marked state_root status ∷ [];
}

unfoldable pub mark_stale_versions : Text → ℕ → Repository → Repository
unfolding mark_rows
mark_stale_versions resolver_id object_version repo = record repo {
  rows =
      mark_rows (λ r. text_eq r.resolver_id resolver_id && not (r.object_version == object_version))
        expired repo.rows;
  audit = repo.audit ++ stale_versions_expired resolver_id object_version ∷ [];
}

-- `ORDER BY verified_at DESC`, ties in the table's order.
unfoldable pub insert_newest : CacheRow → List CacheRow → List CacheRow
insert_newest row [] = row ∷ []
insert_newest row (r ∷ rest) =
    if leb r.verified_at row.verified_at then row ∷ r ∷ rest else r ∷ insert_newest row rest

unfoldable pub sort_newest : List CacheRow → List CacheRow
unfolding insert_newest
sort_newest [] = []
sort_newest (row ∷ rest) = insert_newest row (sort_newest rest)

unfoldable pub list_rows : Repository → List CacheRow
unfolding sort_newest
list_rows repo = sort_newest repo.rows

-- `str(endpoint.port or "")`
abbrev port_text : Option ℕ → Text
port_text none = []
port_text (some p) = if p == 0 then [] else decimal p

-- `trusted_cache_key`, whose parts are joined by "|".
unfoldable pub trusted_cache_key : Net → Sha256 → Endpoint → Text → ℕ → Outcome PyError Text
trusted_cache_key net s endpoint resolver_id object_version = do
  e ← normalized net endpoint
  ok (
      sha256_hex s (
        codes "trusted-cache-v1|"
        ++ (resolver_id
            ++ b'|'
              ∷ (or_blank e.ip
                  ++ b'|'
                    ∷ (port_text e.port
                        ++ b'|'
                          ∷ (e.transport
                              ++ b'|'
                                ∷ (or_blank e.server_name
                                    ++ b'|'
                                      ∷ (or_blank e.uri ++ b'|' ∷ decimal object_version))))))))
