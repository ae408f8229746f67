-- ===== src/Cache/Manager.antt =====
-- verifier/cache_manager.py: the manager's state, `get_valid`, `store_verified` and
-- `result_is_current`. Locks are left out: one call runs at a time, but for the repository, which
-- another process may change while `get_valid` runs.
use fanxiangdiguijiexi.Prelude.{
  ℕ, Bool, true, false, not, ◌||◌, Option, none, some, [], leb, ◌==◌, if◌then◌else◌, Text, codes,
  text_eq, Outcome, PyError, type_error, ok, raised, ◌>>=◌,
}
use fanxiangdiguijiexi.Prelude.Dict
use fanxiangdiguijiexi.Prelude.Dict.{Dict}
use fanxiangdiguijiexi.Json.{num, text}
use fanxiangdiguijiexi.Crypto.Sha.{Sha256}
use fanxiangdiguijiexi.Models.Endpoint.{Endpoint, Net, from_dict, matches}
use fanxiangdiguijiexi.Models.Verification
use fanxiangdiguijiexi.Models.Verification.{
  VerificationResult, Evidence, Reason, accept, reject, cache_revoked, cache_endpoint_mismatch,
  cache_binding_mismatch,
}
use fanxiangdiguijiexi.Cache.Rows.{
  RowStatus, verified, refreshing, revoked, expired, CacheRow, Repository, with_status,
  bump_generation, get_by_endpoint_lookup_key, update_status, trusted_cache_key,
}

-- `CacheManager`: its repository, the memory cache by endpoint key, and its uuid.
pub record Cache : Type 0 where
  pub repository : Repository
  pub memory : Dict CacheRow
  pub generation_owner : Text

-- `for row in self.memory.values(): if test: row["status"] = status`
abbrev pub mark_if : (CacheRow → Bool) → RowStatus → CacheRow → CacheRow
mark_if test status row = if test row then with_status status row else row

unfoldable pub mark_memory : (CacheRow → Bool) → RowStatus → Dict CacheRow → Dict CacheRow
mark_memory test status memory = Dict.map_values (mark_if test status) memory

unfoldable pub invalidate_cache_key : Text → RowStatus → Cache → Cache
unfolding mark_memory
invalidate_cache_key cache_key status c = record c {
  repository = update_status cache_key status (bump_generation c.repository);
  memory = mark_memory (λ row. text_eq row.cache_key cache_key) status c.memory;
}

abbrev pub or_row : Option CacheRow → Option CacheRow → Option CacheRow
or_row none other = other
or_row (some row) other = some row

abbrev pub is_revoked_status : RowStatus → Bool
is_revoked_status revoked = true
is_revoked_status _ = false

-- `status in {"VERIFIED", "REFRESHING"}`
abbrev pub is_live : RowStatus → Bool
is_live verified = true
is_live refreshing = true
is_live _ = false

abbrev pub same_status : RowStatus → RowStatus → Bool
same_status verified verified = true
same_status refreshing refreshing = true
same_status revoked revoked = true
same_status expired expired = true
same_status _ _ = false

abbrev pub result_status : RowStatus → Verification.Status
result_status refreshing = Verification.refreshing
result_status _ = Verification.verified

-- Keywords of `accept` that evidence must not hold, or the call is a TypeError.
unfoldable pub keyword_clash : Evidence → Bool
keyword_clash e =
    Dict.contains (codes "status") e
    || (Dict.contains (codes "resolver_id") e || Dict.contains (codes "cls") e)

-- `VerificationResult.accept(resolver_id, status=status, **evidence)`
unfoldable pub accept_with :
    Text → Verification.Status → Evidence → Outcome PyError VerificationResult
unfolding keyword_clash
accept_with resolver_id status e =
    if keyword_clash e then raised type_error else ok (accept resolver_id status e)

-- The evidence that a hit adds to the row's.
unfoldable pub hit_evidence : CacheRow → RowStatus → ℕ → Text → Evidence
hit_evidence row status generation owner = Dict.put (codes "cache_generation_owner") (text owner) (
    Dict.put (codes "cache_generation") (num generation) (
      Dict.put (codes "state_root") (text row.state_root) (
        Dict.put (codes "object_version") (num row.object_version) (
          Dict.put (codes "object_hash") (text row.object_hash) (
            Dict.put (codes "cache")
              (text
                (if same_status status verified then codes "hit" else codes "stale-hit-refreshing"))
              row.evidence)))))

abbrev pub Answer : Type 0
Answer = Outcome PyError (Option VerificationResult)

-- What other processes do to the repository during a `get_valid`: between its first read of the
-- generation and its read of the row, from there to its second read of the generation, and from
-- there to its own update of the table.
pub record Others : Type 0 where
  pub before_row : Repository → Repository
  pub before_check : Repository → Repository
  pub before_update : Repository → Repository

module _ (net : Net) (s : Sha256) where
  -- Why a live row is not for the observed endpoint.
  unfoldable pub binding_failure : CacheRow → Endpoint → Outcome PyError (Option Reason)
  binding_failure row observed = do
    cached ← from_dict net row.endpoint
    matched ← matches net cached observed
    if not matched then ok (some cache_endpoint_mismatch) else do
      expected ← trusted_cache_key net s cached row.resolver_id row.object_version
      ok (if text_eq row.cache_key expected then none else some cache_binding_mismatch)

  -- The end of `get_valid`: the soft deadline sets the status, here and in the table.
  unfoldable pub serve_row : Text → CacheRow → ℕ → ℕ → Cache → Answer × Cache
  serve_row endpoint_key row generation now c =
      let status = if leb row.soft_expire_at now then refreshing else verified in
      let row' = with_status status row in
      let repository =
        if same_status status row.status
        then c.repository
        else update_status row.cache_key status c.repository in
      (
        accept_with row.resolver_id (result_status status)
              (hit_evidence row' status generation c.generation_owner)
            >>= λ r. ok (some r),
        record c { repository = repository; memory = Dict.put endpoint_key row' c.memory },
      )

  abbrev pub check_binding :
      Outcome PyError (Option Reason) → Text → CacheRow → ℕ → ℕ → Cache → Answer × Cache
  check_binding (raised e) endpoint_key row generation now c = (raised e, c)
  check_binding (ok (some reason)) endpoint_key row generation now c =
      (ok (some (reject reason (some row.resolver_id) [])), c)
  check_binding (ok none) endpoint_key row generation now c =
      serve_row endpoint_key row generation now c

  -- What follows once a row was found.
  unfoldable pub get_valid_row : Text → Endpoint → CacheRow → ℕ → ℕ → Cache → Answer × Cache
  get_valid_row endpoint_key observed row generation now c =
      if is_revoked_status row.status
      then (ok (some (reject cache_revoked (some row.resolver_id) [])), c)
      else if not (is_live row.status)
      then (ok none, c)
      else if leb row.hard_expire_at now
      then (
        ok none,
        let c' = invalidate_cache_key row.cache_key expired c in
            record c' { memory = Dict.remove endpoint_key c'.memory },
      )
      else check_binding (binding_failure row observed) endpoint_key row generation now c

  abbrev pub get_valid_found : Option CacheRow → Text → Endpoint → ℕ → ℕ → Cache → Answer × Cache
  get_valid_found none endpoint_key observed generation now c = (ok none, c)
  get_valid_found (some row) endpoint_key observed generation now c =
      get_valid_row endpoint_key observed row generation now c

  -- `get_valid`, amid what others do.
  unfoldable pub get_valid : Others → Text → Endpoint → ℕ → Cache → Answer × Cache
  get_valid others endpoint_key observed now c =
      let generation = c.repository.generation in
      let c1 = record c { repository = others.before_row c.repository } in
      let row =
        or_row (get_by_endpoint_lookup_key endpoint_key c1.repository)
          (Dict.get endpoint_key c1.memory) in
      let c2 = record c1 { repository = others.before_check c1.repository } in
      let c3 = record c2 { repository = others.before_update c2.repository } in
      if not (generation == c2.repository.generation)
      then (ok none, c2)
      else get_valid_found row endpoint_key observed generation now c3
