-- ===== src/Cache/Refresh.antt =====
-- `refresh_registry_state` of verifier/cache_manager.py: rows whose anchors changed are invalidated.
use fanxiangdiguijiexi.Prelude.{
  ℕ, ◌+◌, Bool, false, not, ◌&&◌, ◌||◌, Option, none, some, List, [], ◌∷◌, ◌==◌, if◌then◌else◌,
  Text, codes, text_eq, truthy, Outcome, PyError, ok, raised, ◌>>=◌,
}
use fanxiangdiguijiexi.Prelude.Dict
use fanxiangdiguijiexi.Json.{Value, text}
use fanxiangdiguijiexi.Models.Verification.{Evidence}
use fanxiangdiguijiexi.Chain.Backend.{ResolverAnchor, Registry, ChainStatus, is_revoked}
use fanxiangdiguijiexi.Cache.Rows.{RowStatus, revoked, expired, CacheRow, list_rows}
use fanxiangdiguijiexi.Cache.Manager.{Cache, invalidate_cache_key}

-- The counts of `refresh_registry_state`.
pub record Counts : Type 0 where
  pub checked : ℕ
  pub expired_rows : ℕ
  pub revoked_rows : ℕ

abbrev pub Verdict : Type 0
Verdict = Option RowStatus

abbrev pub anchor_revoked : Option ResolverAnchor → Bool
anchor_revoked none = false
anchor_revoked (some anchor) = is_revoked anchor.status

abbrev pub root_revoked : Option ChainStatus → Bool
root_revoked none = false
root_revoked (some status) = is_revoked status

abbrev pub bound_to : Option Text → Text → Bool
bound_to none key = false
bound_to (some bound) key = text_eq bound key

abbrev pub same_anchor : Option ResolverAnchor → CacheRow → Bool
same_anchor none row = false
same_anchor (some anchor) row =
    anchor.object_version == row.object_version
    && (text_eq anchor.object_hash row.object_hash && text_eq anchor.state_root row.state_root)

-- What the registry's present state says of one row: the status that it gets, if any.
unfoldable pub registry_verdict : Registry → Text → Text → CacheRow → Outcome PyError Verdict
registry_verdict registry endpoint_key resolver_id_key row = do
  bound ← registry.get_endpoint_binding endpoint_key
  anchor ← registry.get_anchor resolver_id_key
  root_status ← registry.get_root_status row.state_root
  ok (
      if root_revoked root_status || anchor_revoked anchor
      then some revoked
      else if not (bound_to bound resolver_id_key) || not (same_anchor anchor row)
      then some expired
      else none)

-- A text under a key, `""` where there is none.
abbrev pub text_or_blank : Option Value → Text
text_or_blank (some (text t)) = t
text_or_blank _ = []

unfoldable pub evidence_text : Text → Evidence → Text
evidence_text key e = text_or_blank (Dict.get key e)

-- `row.get("endpoint_lookup_key") or evidence.get("endpoint_key")`
unfoldable pub row_endpoint_key : CacheRow → Text
unfolding evidence_text
row_endpoint_key row =
    if truthy row.endpoint_lookup_key
    then row.endpoint_lookup_key
    else evidence_text (codes "endpoint_key") row.evidence

unfoldable pub row_resolver_key : CacheRow → Text
unfolding evidence_text
row_resolver_key row = evidence_text (codes "resolver_id_key") row.evidence

-- What one round of the loop decides: a row without its two keys is passed over.
unfoldable pub row_verdict : Registry → CacheRow → Outcome PyError Verdict
unfolding registry_verdict row_endpoint_key row_resolver_key
row_verdict registry row =
    if not (truthy (row_endpoint_key row)) || not (truthy (row_resolver_key row))
    then ok none
    else registry_verdict registry (row_endpoint_key row) (row_resolver_key row) row

abbrev pub apply_verdict : Verdict → CacheRow → Counts → Cache → Counts × Cache
apply_verdict none row n c = (n, c)
apply_verdict (some revoked) row n c =
    (record n { revoked_rows = n.revoked_rows + 1 }, invalidate_cache_key row.cache_key revoked c)
apply_verdict (some _) row n c =
    (record n { expired_rows = n.expired_rows + 1 }, invalidate_cache_key row.cache_key expired c)

unfoldable pub refresh_rows :
    Registry → List CacheRow → Counts → Cache → Outcome PyError Counts × Cache
unfolding row_verdict
refresh_rows registry [] n c = (ok n, c)
refresh_rows registry (row ∷ rest) n c = elim (row_verdict registry row) [
  | raised e ↦ (raised e, c)
  | ok v ↦
      let (n', c') = apply_verdict v row (record n { checked = n.checked + 1 }) c in
      refresh_rows registry rest n' c'
]

unfoldable pub refresh_registry_state : Registry → Cache → Outcome PyError Counts × Cache
unfolding refresh_rows
refresh_registry_state registry c =
    refresh_rows registry (list_rows c.repository)
      (record { checked = 0; expired_rows = 0; revoked_rows = 0 }) c
