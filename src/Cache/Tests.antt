-- ===== src/Cache/Tests.antt =====
-- Runs of the cache: one row stored, read, revoked, and read again.
use fanxiangdiguijiexi.Cache.Toy.{empty_cache, undisturbed}
use fanxiangdiguijiexi.Prelude.{
  ◌≡◌, ◌≢◌, refl, Bool, true, false, none, some, [], ◌∷◌, map, Text, codes, strip, lower, decimal,
  Outcome, PyError, ok, arith,
}
use fanxiangdiguijiexi.Prelude.Dict
use fanxiangdiguijiexi.Json.{num, text}
use fanxiangdiguijiexi.Crypto.Toy.{toy_sha}
use fanxiangdiguijiexi.Crypto.Sha.{sha256_hex}
use fanxiangdiguijiexi.Crypto.Hex.{bytes_to_hex, hex}
use fanxiangdiguijiexi.Chain.Backend.{Registry}
use fanxiangdiguijiexi.Models.Endpoint.{
  normalized, canonical_ip, default_port, matches, same_endpoint, both_differ, both_given,
  from_dict,
}
use fanxiangdiguijiexi.Models.Endpoint.Toy.{toy_net, udp_endpoint, address_53}
use fanxiangdiguijiexi.Models.Verification
use fanxiangdiguijiexi.Models.Verification.{
  VerificationResult, Evidence, accept, reject, cache_revoked,
}
use fanxiangdiguijiexi.Cache.Rows.{
  verified, revoked, expired, CacheRow, put_if_generation, put, trusted_cache_key,
  get_by_endpoint_lookup_key, latest, update_status, mark_rows, bump_generation,
  mark_status_by_resolver, mark_status_by_root, list_rows, sort_newest, insert_newest,
}
use fanxiangdiguijiexi.Cache.Manager.{
  Cache, Answer, get_valid, get_valid_row, serve_row, binding_failure, accept_with, keyword_clash,
  hit_evidence, invalidate_cache_key, mark_memory, or_row,
}
use fanxiangdiguijiexi.Cache.Store.{
  Verified, store_verified, commit_row, verified_row, result_is_current,
}
use fanxiangdiguijiexi.Cache.Invalidate.{invalidate_resolver, invalidate_root}
use fanxiangdiguijiexi.Cache.Refresh.{
  row_verdict, registry_verdict, row_endpoint_key, row_resolver_key, evidence_text, refresh_rows,
  refresh_registry_state,
}
use fanxiangdiguijiexi.Cache.Valid.{Accepted, get_valid-Accepted}
use fanxiangdiguijiexi.Cache.Moves.{one_moves, by_root, by_resolver, perform, perform_all}
use fanxiangdiguijiexi.Cache.Generation.{get_valid-fenced, store_verified-fenced}
use fanxiangdiguijiexi.Cache.Dead.{IsWithdrawn}
use fanxiangdiguijiexi.Cache.Withdrawn.{no_step, and_step, invalidated, invalidate_resolver-lasts}
use fanxiangdiguijiexi.Cache.Refreshed.{
  Contradicts, unbound, at_head, of_cache_key, refresh_registry_state-withdraws,
}

abbrev key_53 : Text
key_53 = codes "key-53"

abbrev resolver_a : Text
resolver_a = codes "resolver-a"

abbrev verified_a : Verified
verified_a = record {
  endpoint_key = key_53;
  resolver_id = resolver_a;
  endpoint = udp_endpoint address_53;
  object_hash = codes "0xaa";
  object_version = 2;
  state_root = codes "0xbb";
  soft_expire_at = 5000000;
  hard_expire_at = 9000000;
  evidence = [];
}

abbrev stored_a : Outcome PyError Bool × Cache
stored_a = store_verified toy_net toy_sha verified_a none 1000000 empty_cache

abbrev answer_a : Answer × Cache
answer_a = get_valid toy_net toy_sha undisturbed key_53 (udp_endpoint address_53) 2000000 stored_a.1

abbrev result_a : VerificationResult
result_a = record {
  accepted = true;
  status = Verification.verified;
  resolver_id = some resolver_a;
  reasons = [];
  evidence =
      (codes "cache_generation", num 7)
      ∷ (codes "cache_generation_owner", text (codes "owner-1"))
      ∷ (codes "cache", text (codes "hit"))
      ∷ (codes "object_hash", text (codes "0xaa"))
      ∷ (codes "object_version", num 2)
      ∷ (codes "state_root", text (codes "0xbb"))
      ∷ [];
}

-- A row just stored is served.
served_a : answer_a.0 ≡ ok (some result_a)
unfolding store_verified commit_row verified_row put_if_generation put trusted_cache_key get_valid
    get_valid_row serve_row binding_failure get_by_endpoint_lookup_key latest accept_with
    keyword_clash hit_evidence update_status mark_rows accept normalized canonical_ip strip lower
    default_port matches same_endpoint both_differ both_given from_dict Dict.get Dict.put sha256_hex
    bytes_to_hex hex decimal
served_a = refl

abbrev row_b : CacheRow
row_b = record {
  cache_key = [];
  endpoint_lookup_key = key_53;
  resolver_id = resolver_a;
  endpoint = udp_endpoint address_53;
  object_hash = codes "0xaa";
  object_version = 2;
  state_root = codes "0xbb";
  status = verified;
  verified_at = 1000000;
  soft_expire_at = 5000000;
  hard_expire_at = 9000000;
  evidence =
      (codes "cache_generation", num 7)
      ∷ (codes "cache_generation_owner", text (codes "owner-1"))
      ∷ [];
}

-- Past its hard deadline it is not, and the table says so.
abbrev late_a : Answer × Cache
late_a = get_valid toy_net toy_sha undisturbed key_53 (udp_endpoint address_53) 9000000 stored_a.1

expired_a : (late_a.0 ≡ ok none) × (map CacheRow.status late_a.1.repository.rows ≡ expired ∷ [])
unfolding store_verified commit_row verified_row put_if_generation put trusted_cache_key get_valid
    get_valid_row serve_row binding_failure get_by_endpoint_lookup_key latest accept_with
    keyword_clash hit_evidence update_status mark_rows accept normalized canonical_ip strip lower
    default_port matches same_endpoint both_differ both_given from_dict Dict.get Dict.put sha256_hex
    bytes_to_hex hex decimal invalidate_cache_key mark_memory bump_generation Dict.remove
    Dict.map_values
expired_a = (refl, refl)

-- A revoked one is refused by name.
abbrev revoked_a : Answer × Cache
revoked_a =
    get_valid toy_net toy_sha undisturbed key_53 (udp_endpoint address_53) 2000000
      (invalidate_resolver resolver_a revoked stored_a.1)

refused_a : revoked_a.0 ≡ ok (some (reject cache_revoked (some resolver_a) []))
unfolding store_verified commit_row verified_row put_if_generation put trusted_cache_key get_valid
    get_valid_row serve_row binding_failure get_by_endpoint_lookup_key latest accept_with
    keyword_clash hit_evidence update_status mark_rows accept normalized canonical_ip strip lower
    default_port matches same_endpoint both_differ both_given from_dict Dict.get Dict.put sha256_hex
    bytes_to_hex hex decimal invalidate_resolver mark_status_by_resolver mark_memory bump_generation
    Dict.map_values reject
refused_a = refl

abbrev row_a : CacheRow
row_a = record {
  cache_key = codes "0xkey";
  endpoint_lookup_key = key_53;
  resolver_id = resolver_a;
  endpoint = udp_endpoint address_53;
  object_hash = codes "0xaa";
  object_version = 2;
  state_root = codes "0xbb";
  status = verified;
  verified_at = 1000000;
  soft_expire_at = 5000000;
  hard_expire_at = 9000000;
  evidence = (codes "resolver_id_key", text (codes "0xid")) ∷ [];
}

get_valid-Accepted_example :
    (row : CacheRow) × (or_row
        (get_by_endpoint_lookup_key key_53 stored_a.1.repository)
        (Dict.get key_53 stored_a.1.memory)
      ≡ some row)
    × (stored_a.1.repository.generation ≡ stored_a.1.repository.generation)
    × (answer_a.1.repository.generation ≡ stored_a.1.repository.generation)
    × Accepted toy_net toy_sha row
        (udp_endpoint address_53)
        stored_a.1.repository.generation
        2000000
        answer_a.1
        result_a
get_valid-Accepted_example =
    get_valid-Accepted toy_net toy_sha undisturbed key_53 (udp_endpoint address_53) 2000000
      stored_a.1 result_a served_a refl

get_valid-fenced_example :
    result_is_current result_a (perform_all (by_root (codes "0xcc") revoked ∷ []) answer_a.1)
    ≡ ok false
unfolding one_moves
get_valid-fenced_example =
    get_valid-fenced toy_net toy_sha undisturbed key_53 (udp_endpoint address_53) 2000000 stored_a.1
      result_a (by_root (codes "0xcc") revoked ∷ []) (λ repo. omega arith) served_a refl refl

abbrev withdrawn_cache : Cache
withdrawn_cache = perform_all (by_resolver (codes "resolver-b") revoked ∷ []) empty_cache

refused_store :
    (store_verified toy_net toy_sha verified_a (some 7) 1000000 withdrawn_cache).0 ≡ ok false
unfolding store_verified commit_row verified_row put_if_generation put trusted_cache_key get_valid
    get_valid_row serve_row binding_failure get_by_endpoint_lookup_key latest accept_with
    keyword_clash hit_evidence update_status mark_rows accept normalized canonical_ip strip lower
    default_port matches same_endpoint both_differ both_given from_dict Dict.get Dict.put sha256_hex
    bytes_to_hex hex decimal perform_all perform invalidate_resolver mark_status_by_resolver
    bump_generation mark_memory
refused_store = refl

store_verified-fenced_example :
    (false ≡ false)
    × ((store_verified toy_net toy_sha verified_a (some 7) 1000000 withdrawn_cache).1
        ≡ withdrawn_cache)
unfolding one_moves
store_verified-fenced_example =
    store_verified-fenced toy_net toy_sha verified_a 1000000
      (by_resolver (codes "resolver-b") revoked ∷ []) empty_cache false refl refused_store

abbrev other_revoked : Cache
other_revoked = invalidate_resolver (codes "resolver-b") revoked stored_a.1

abbrev root_revoked : Cache
root_revoked = perform (by_root (codes "0xcc") revoked) other_revoked

still_served :
    (get_valid toy_net toy_sha undisturbed key_53 (udp_endpoint address_53) 2000000 root_revoked).0
    ≡ ok (some (record result_a { evidence = hit_evidence row_b verified 9 (codes "owner-1") }))
unfolding store_verified commit_row verified_row put_if_generation put trusted_cache_key get_valid
    get_valid_row serve_row binding_failure get_by_endpoint_lookup_key latest accept_with
    keyword_clash hit_evidence update_status mark_rows accept normalized canonical_ip strip lower
    default_port matches same_endpoint both_differ both_given from_dict Dict.get Dict.put sha256_hex
    bytes_to_hex hex decimal perform invalidate_resolver invalidate_root mark_status_by_resolver
    mark_status_by_root bump_generation mark_memory Dict.map_values
still_served = refl

invalidate_resolver-lasts_example : some resolver_a ≢ some (codes "resolver-b")
invalidate_resolver-lasts_example =
    invalidate_resolver-lasts toy_net toy_sha (codes "resolver-b") revoked stored_a.1 root_revoked
      undisturbed key_53 (udp_endpoint address_53) 2000000
      (record result_a { evidence = hit_evidence row_b verified 9 (codes "owner-1") }) refl
      (and_step no_step (invalidated (by_root (codes "0xcc") revoked) refl)) (λ d. d) still_served
      refl

-- A registry that knows nothing contradicts every row.
abbrev blank_registry : Registry
blank_registry = record {
  get_endpoint_binding = λ k. ok none;
  get_anchor = λ k. ok none;
  get_root_status = λ k. ok none;
}

abbrev cache_a : Cache
cache_a = record empty_cache {
  repository = record { rows = row_a ∷ []; generation = 7; audit = [] };
}

contradicted_a : Contradicts blank_registry row_a
unfolding row_endpoint_key row_resolver_key evidence_text Dict.get
contradicted_a = record {
  endpoint_key = refl;
  resolver_key = refl;
  bound = none;
  anchor = none;
  root_status = none;
  bound_read = refl;
  anchor_read = refl;
  root_read = refl;
  why = unbound refl;
}

refreshed_a :
    (refresh_registry_state blank_registry cache_a).0
    ≡ ok (record { checked = 1; expired_rows = 1; revoked_rows = 0 })
unfolding refresh_registry_state refresh_rows list_rows sort_newest insert_newest row_verdict
    registry_verdict row_endpoint_key row_resolver_key evidence_text Dict.get
refreshed_a = refl

refresh_registry_state-withdraws_example :
    IsWithdrawn (of_cache_key (codes "0xkey")) (refresh_registry_state blank_registry cache_a).1
refresh_registry_state-withdraws_example =
    refresh_registry_state-withdraws blank_registry cache_a row_a
      (record { checked = 1; expired_rows = 1; revoked_rows = 0 }) at_head contradicted_a
      refreshed_a
