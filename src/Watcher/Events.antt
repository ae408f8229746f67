-- ===== src/Watcher/Events.antt =====
-- `handle_event` of chain/event_watcher.py. An event is a dict of JSON values, but for a resolver
-- endpoint among its arguments, which is an object. An argument that should be a string and is not
-- counts as absent. Of the audit log only the types of its entries are kept.
use fanxiangdiguijiexi.Prelude.{
  ℕ, ◌+◌, ◌*◌, Bool, ◌&&◌, Option, none, some, List, [], ◌∷◌, ◌++◌, max, ◌==◌, if◌then◌else◌, any,
  Text, codes, text_eq, truthy, Outcome, PyError, ok, raised, ◌>>=◌,
}
use fanxiangdiguijiexi.Json.{is_true, Value, Fields, null, text, object, end}
use fanxiangdiguijiexi.Crypto.Sha.{Sha256}
use fanxiangdiguijiexi.Models.Endpoint.{Endpoint, Net}
use fanxiangdiguijiexi.Cache.Rows
use fanxiangdiguijiexi.Cache.Manager.{Cache}
use fanxiangdiguijiexi.Cache.Store.{int_value}
use fanxiangdiguijiexi.Cache.Invalidate.{
  invalidate_resolver, invalidate_resolver_key, invalidate_root, invalidate_object_version,
  invalidate_object_version_by_resolver_key, invalidate_endpoint_key, invalidate_endpoint,
}
use fanxiangdiguijiexi.Verifier.Object.{lookup}

pub record Event : Type 0 where
  pub fields : Fields
  pub endpoint : Option Endpoint

pub record WatcherState : Type 0 where
  pub last_processed_block : ℕ
  pub last_seen_block_hash : Option Text

pub record EventId : Type 0 where
  pub name : Text
  pub position : ℕ

pub record Watcher : Type 0 where
  pub cache : Cache
  pub state : WatcherState
  pub processed : List EventId
  pub audit : List Text

abbrev or_value : Option Value → Option Value → Option Value
or_value none other = other
or_value (some v) other = if is_true v then some v else other

-- `data.get(a) or data.get(b)`
unfoldable pub either : Text → Text → Fields → Option Value
unfolding lookup
either a b fields = or_value (lookup a fields) (lookup b fields)

abbrev true_text : Option Value → Option Text
true_text (some (text t)) = if truthy t then some t else none
true_text _ = none

unfoldable pub either_text : Text → Text → Fields → Option Text
unfolding either
either_text a b fields = true_text (either a b fields)

-- `value is not None`
abbrev not_none : Option Value → Option Value
not_none (some null) = none
not_none v = v

-- `int(value or 0)`
abbrev int_or_zero : Option Value → Outcome PyError ℕ
int_or_zero none = ok 0
int_or_zero (some v) = if is_true v then int_value v else ok 0

abbrev name_text : Option Value → Text
name_text (some (text t)) = t
name_text _ = codes "None"

unfoldable pub event_name : Event → Text
unfolding either
event_name e = name_text (either (codes "event") (codes "event_type") e.fields)

unfoldable pub block_number : Event → Option Value
unfolding either
block_number e = not_none (either (codes "blockNumber") (codes "block_number") e.fields)

unfoldable pub log_index : Event → Option Value
unfolding either
log_index e = either (codes "logIndex") (codes "log_index") e.fields

unfoldable pub event_id : Event → Outcome PyError EventId
unfolding event_name block_number log_index
event_id e = do
  block ← int_or_zero (block_number e)
  index ← int_or_zero (log_index e)
  ok (record { name = event_name e; position = block * 1000000 + index })

abbrev fields_in : Option Value → Fields
fields_in (some (object fields)) = fields
fields_in _ = end

unfoldable pub event_args : Event → Fields
unfolding either
event_args e = fields_in (either (codes "args") (codes "payload") e.fields)

abbrev pub same_id : EventId → EventId → Bool
same_id i j = text_eq i.name j.name && i.position == j.position

abbrev done : Cache → Outcome PyError Unit × Cache
done c = (ok tt, c)

abbrev by_id_or_key : Option Text → Option Text → Cache → Cache
by_id_or_key (some resolver_id) key c = invalidate_resolver resolver_id Rows.revoked c
by_id_or_key none (some key) c = invalidate_resolver_key key Rows.revoked c
by_id_or_key none none c = c

unfoldable pub on_resolver_revoked : Fields → Cache → Cache
unfolding either_text
on_resolver_revoked args c =
    by_id_or_key (either_text (codes "resolver_id") (codes "resolverId") args)
      (either_text (codes "resolver_id_key") (codes "resolverIdKey") args) c

abbrev by_root : Option Text → Cache → Cache
by_root none c = c
by_root (some state_root) c = invalidate_root state_root Rows.revoked c

unfoldable pub on_root_revoked : Fields → Cache → Cache
unfolding either_text
on_root_revoked args c = by_root (either_text (codes "state_root") (codes "stateRoot") args) c

abbrev by_version :
    Option Text → Option Text → Outcome PyError ℕ → Cache → Outcome PyError Unit × Cache
by_version (some resolver_id) key (raised e) c = (raised e, c)
by_version (some resolver_id) key (ok version) c =
    done (invalidate_object_version resolver_id version c)
by_version none (some key) (raised e) c = (raised e, c)
by_version none (some key) (ok version) c =
    done (invalidate_object_version_by_resolver_key key version c)
by_version none none version c = done c

abbrev with_version :
    Option Text → Option Text → Option Value → Cache → Outcome PyError Unit × Cache
with_version resolver_id key none c = done c
with_version resolver_id key (some version) c = by_version resolver_id key (int_value version) c

unfoldable pub on_resolver_updated : Fields → Cache → Outcome PyError Unit × Cache
unfolding either either_text
on_resolver_updated args c =
    with_version (either_text (codes "resolver_id") (codes "resolverId") args)
      (either_text (codes "resolver_id_key") (codes "resolverIdKey") args)
      (not_none (either (codes "object_version") (codes "objectVersion") args)) c

module _ (net : Net) (s : Sha256) where
  abbrev by_endpoint : Option Text → Option Endpoint → Cache → Outcome PyError Unit × Cache
  by_endpoint (some key) endpoint c = done (invalidate_endpoint_key key Rows.expired c)
  by_endpoint none (some endpoint) c = invalidate_endpoint net s endpoint Rows.expired c
  by_endpoint none none c = done c

  -- What an event does to the cache.
  unfoldable pub apply_event : Event → Cache → Outcome PyError Unit × Cache
  unfolding event_name event_args on_resolver_revoked on_root_revoked on_resolver_updated
      either_text
  apply_event e c =
      let name = event_name e in
      let args = event_args e in
      let endpoint_key = either_text (codes "endpoint_key") (codes "endpointKey") args in
      if text_eq name (codes "ResolverRevoked")
      then done (on_resolver_revoked args c)
      else if text_eq name (codes "RootRevoked")
      then done (on_root_revoked args c)
      else if text_eq name (codes "ResolverUpdated")
      then on_resolver_updated args c
      else if text_eq name (codes "EndpointUnbound")
      then by_endpoint endpoint_key e.endpoint c
      else if text_eq name (codes "EndpointBound")
      then by_endpoint endpoint_key none c
      else done c

-- The audit entries of an event, before its own.
unfoldable pub event_audit : Event → List Text
unfolding event_name event_args either_text
event_audit e =
    let name = event_name e in
    let args = event_args e in
    if text_eq name (codes "ResolverRevoked")
    then (elim (either_text (codes "resolver_id") (codes "resolverId") args) [
      | some id ↦ []
      | none ↦ elim (either_text (codes "resolver_id_key") (codes "resolverIdKey") args) [
        | some key ↦ codes "WatcherResolverRevokedByKey" ∷ []
        | none ↦ []
      ]
    ])
    else if text_eq name (codes "EndpointBound")
    then codes "WatcherEndpointBoundRefreshNeeded" ∷ []
    else if text_eq name (codes "ResolverPublished")
    then codes "WatcherResolverPublished" ∷ []
    else []

abbrev pub past_block : Option Value → WatcherState → Outcome PyError WatcherState
past_block none state = ok state
past_block (some v) state = int_value v >>= λ n.
    ok (record state { last_processed_block = max state.last_processed_block n })

abbrev pub settle : Outcome PyError WatcherState → Event → Watcher → Outcome PyError Unit × Watcher
settle (raised x) e w = (raised x, w)
settle (ok state) e w = (ok tt, record w { state = state; audit = w.audit ++ event_name e ∷ [] })

abbrev pub applied : Outcome PyError Unit × Cache → Event → Watcher → Outcome PyError Unit × Watcher
applied (raised x, c) e w = (raised x, record w { cache = c })
applied (ok u, c) e w =
    settle (past_block (block_number e) w.state) e
      (record w { cache = c; audit = w.audit ++ event_audit e })

module _ (net : Net) (s : Sha256) where
  -- An event whose number could be read: at once it counts as processed.
  abbrev pub handle_numbered : EventId → Event → Watcher → Outcome PyError Unit × Watcher
  handle_numbered i e w =
      if any (same_id i) w.processed
      then (ok tt, w)
      else applied (apply_event net s e w.cache) e (record w { processed = i ∷ w.processed })

  abbrev pub handle_with :
      Outcome PyError EventId → Event → Watcher → Outcome PyError Unit × Watcher
  handle_with (raised x) e w = (raised x, w)
  handle_with (ok i) e w = handle_numbered i e w

  unfoldable pub handle_event : Event → Watcher → Outcome PyError Unit × Watcher
  unfolding event_id apply_event event_audit
  handle_event e w = handle_with (event_id e) e w
