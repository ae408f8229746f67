-- ===== src/Cache/Store.antt =====
-- verifier/cache_manager.py: `store_verified` and `result_is_current`.
use fanxiangdiguijiexi.Cache.Manager.{Cache}
use fanxiangdiguijiexi.Prelude.{
  parse_int, ℕ, ◌-◌, ◌%◌, Bool, true, false, not, Option, none, some, ◌==◌, if◌then◌else◌, Text,
  codes, text_eq, Outcome, PyError, type_error, ok, raised, ◌>>=◌,
}
use fanxiangdiguijiexi.Prelude.Dict
use fanxiangdiguijiexi.Prelude.Dict.{Dict}
use fanxiangdiguijiexi.Json.{Value, null, num, text, bool}
use fanxiangdiguijiexi.Crypto.Sha.{Sha256}
use fanxiangdiguijiexi.Models.Endpoint.{Endpoint, Net, normalized}
use fanxiangdiguijiexi.Prelude.Dict
use fanxiangdiguijiexi.Models.Verification.{VerificationResult, Evidence}
use fanxiangdiguijiexi.Cache.Rows.{verified, CacheRow, put_if_generation, trusted_cache_key}

-- `format_rfc3339(utc_now())`: whole seconds.
abbrev pub whole_seconds : ℕ → ℕ
whole_seconds t = t - t % 1000000

abbrev verified_evidence : Evidence → ℕ → Text → Evidence
verified_evidence e generation owner =
    Dict.put (codes "cache_generation_owner") (text owner)
      (Dict.put (codes "cache_generation") (num generation) e)

abbrev pub generation_or : Option ℕ → ℕ → ℕ
generation_or none current = current
generation_or (some g) current = g

-- The arguments of `store_verified` beside the generation.
pub record Verified : Type 0 where
  pub endpoint_key : Text
  pub resolver_id : Text
  pub endpoint : Endpoint
  pub object_hash : Text
  pub object_version : ℕ
  pub state_root : Text
  pub soft_expire_at : ℕ
  pub hard_expire_at : ℕ
  pub evidence : Evidence

unfoldable pub verified_row : Verified → Endpoint → Text → ℕ → ℕ → Text → CacheRow
verified_row v endpoint cache_key generation now owner = record {
  cache_key = cache_key;
  endpoint_lookup_key = v.endpoint_key;
  resolver_id = v.resolver_id;
  endpoint = endpoint;
  object_hash = v.object_hash;
  object_version = v.object_version;
  state_root = v.state_root;
  status = verified;
  verified_at = whole_seconds now;
  soft_expire_at = v.soft_expire_at;
  hard_expire_at = v.hard_expire_at;
  evidence = verified_evidence v.evidence generation owner;
}

-- The row goes to the table, and to the memory if the table took it.
unfoldable pub commit_row : Text → CacheRow → ℕ → Cache → Bool × Cache
commit_row endpoint_key row generation c =
    let (stored, repository) = put_if_generation row generation c.repository in
    (
      stored,
      record c {
        repository = repository;
        memory = if stored then Dict.put endpoint_key row c.memory else c.memory;
      },
    )

abbrev pub committed : Bool × Cache → Outcome PyError Bool × Cache
committed (stored, c) = (ok stored, c)

abbrev pub store_normalized :
    Outcome PyError (Endpoint × Text) → Verified → ℕ → ℕ → Cache → Outcome PyError Bool × Cache
store_normalized (raised e) v generation now c = (raised e, c)
store_normalized (ok (endpoint, cache_key)) v generation now c = committed (
    commit_row v.endpoint_key (verified_row v endpoint cache_key generation now c.generation_owner)
      generation c)

module _ (net : Net) (s : Sha256) where
  -- `store_verified`.
  unfoldable pub store_verified : Verified → Option ℕ → ℕ → Cache → Outcome PyError Bool × Cache
  unfolding commit_row verified_row
  store_verified v expected_generation now c =
      store_normalized
        (do
          endpoint ← normalized net v.endpoint
          cache_key ← trusted_cache_key net s endpoint v.resolver_id v.object_version
          ok (endpoint, cache_key))
        v (generation_or expected_generation c.repository.generation) now c

-- `int(value)` of a JSON value.
unfoldable pub int_value : Value → Outcome PyError ℕ
unfolding parse_int
int_value (num n) = ok n
int_value (bool true) = ok 1
int_value (bool false) = ok 0
int_value (text t) = parse_int t
int_value _ = raised type_error

-- `result_is_current`.
abbrev current_generation_is : Option Value → Cache → Outcome PyError Bool
current_generation_is none c = ok true
current_generation_is (some null) c = ok true
current_generation_is (some v) c = do g ← int_value v; ok (g == c.repository.generation)

abbrev pub is_owner : Option Value → Text → Bool
is_owner (some (text t)) owner = text_eq t owner
is_owner _ owner = false

unfoldable pub result_is_current : VerificationResult → Cache → Outcome PyError Bool
unfolding int_value
result_is_current result c =
    if not (is_owner (Dict.get (codes "cache_generation_owner") result.evidence) c.generation_owner)
    then ok true
    else current_generation_is (Dict.get (codes "cache_generation") result.evidence) c
