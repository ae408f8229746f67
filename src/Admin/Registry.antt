-- ===== src/Admin/Registry.antt =====
-- `RegistryRepository` of db/repositories.py, which `SQLiteRegistryBackend` of
-- chain/sqlite_backend.py hands every call to. A table is a Dict by its primary key; the audit log
-- is the list of the types of its entries, the newest first.
use fanxiangdiguijiexi.Prelude.{
  ℕ, Option, none, some, List, [], ◌∷◌, if◌then◌else◌, Text, codes, text_eq,
}
use fanxiangdiguijiexi.Prelude.Dict
use fanxiangdiguijiexi.Prelude.Dict.{Dict}

-- A row of `registry_anchors`, but for its key.
pub record AnchorRow : Type 0 where
  pub object_hash : Text
  pub state_root : Text
  pub object_version : ℕ
  pub valid_until : ℕ
  pub status : Text

pub record RegistryRepository : Type 0 where
  pub anchors : Dict AnchorRow
  pub bindings : Dict Text
  pub roots : Dict Text
  pub audit : List Text

abbrev pub active_status : Text
active_status = codes "ACTIVE"

abbrev pub revoked_status : Text
revoked_status = codes "REVOKED"

-- The commands of a registry.
abbrev pub get_anchor_row : Text → RegistryRepository → Option AnchorRow
get_anchor_row resolver_id_key r = Dict.get resolver_id_key r.anchors

unfoldable pub publish_anchor : Text → AnchorRow → RegistryRepository → RegistryRepository
publish_anchor resolver_id_key row r = record r {
  anchors = Dict.put resolver_id_key row r.anchors;
  audit =
      (elim (get_anchor_row resolver_id_key r) [
        | none ↦ codes "ResolverPublished"
        | some old ↦ codes "ResolverUpdated"
      ])
      ∷ r.audit;
}

abbrev pub get_binding : Text → RegistryRepository → Option Text
get_binding endpoint_key r = Dict.get endpoint_key r.bindings

unfoldable pub bind_endpoint : Text → Text → RegistryRepository → RegistryRepository
bind_endpoint endpoint_key resolver_id_key r = record r {
  bindings = Dict.put endpoint_key resolver_id_key r.bindings;
  audit = codes "EndpointBound" ∷ r.audit;
}

unfoldable pub unbind_endpoint : Text → RegistryRepository → RegistryRepository
unbind_endpoint endpoint_key r = record r {
  bindings = Dict.remove endpoint_key r.bindings;
  audit = codes "EndpointUnbound" ∷ r.audit;
}

unfoldable pub publish_root : Text → Text → RegistryRepository → RegistryRepository
publish_root state_root status r = record r {
  roots = Dict.put state_root status r.roots;
  audit =
      (if text_eq status active_status then codes "RootPublished" else codes "RootRevoked")
      ∷ r.audit;
}

abbrev pub get_root : Text → RegistryRepository → Option Text
get_root state_root r = Dict.get state_root r.roots

-- `UPDATE registry_anchors SET status='REVOKED' WHERE resolver_id_key=?`
unfoldable pub set_revoked : Text → Dict AnchorRow → Dict AnchorRow
set_revoked key [] = []
set_revoked key ((k, row) ∷ rest) =
    (k, if text_eq k key then record row { status = revoked_status } else row)
    ∷ set_revoked key rest

unfoldable pub revoke_resolver : Text → RegistryRepository → RegistryRepository
unfolding set_revoked
revoke_resolver resolver_id_key r = record r {
  anchors = set_revoked resolver_id_key r.anchors;
  audit = codes "ResolverRevoked" ∷ r.audit;
}

-- `SQLiteRegistryBackend.revoke_root`
unfoldable pub revoke_root : Text → RegistryRepository → RegistryRepository
unfolding publish_root
revoke_root state_root r = publish_root state_root revoked_status r
