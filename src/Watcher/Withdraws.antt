-- ===== src/Watcher/Withdraws.antt =====
-- What an event of chain/event_watcher.py withdraws from the cache.
use fanxiangdiguijiexi.Prelude.{
  ◌≡◌, refl, false, some, any, Text, codes, Outcome, PyError, ok, raised,
}
use fanxiangdiguijiexi.Crypto.Sha.{Sha256}
use fanxiangdiguijiexi.Models.Endpoint.{Net}
use fanxiangdiguijiexi.Cache.Rows
use fanxiangdiguijiexi.Cache.Rows.{RowStatus}
use fanxiangdiguijiexi.Cache.Manager.{Cache}
use fanxiangdiguijiexi.Cache.Invalidate.{invalidate_resolver}
use fanxiangdiguijiexi.Cache.Dead.{IsWithdrawn}
use fanxiangdiguijiexi.Cache.Withdrawn.{of_resolver, invalidate_resolver-IsWithdrawn}
use fanxiangdiguijiexi.Watcher.Events.{
  Event, EventId, Watcher, WatcherState, same_id, event_id, event_name, event_args, either_text,
  apply_event, on_resolver_revoked, settle, handle_event,
}

settle-cache :
    (o : Outcome PyError WatcherState) (e : Event) (w : Watcher) → (settle o e w).1.cache ≡ w.cache
settle-cache (raised x) e w = refl
settle-cache (ok state) e w = refl

module _ (net : Net) (s : Sha256) where
  apply_event-revoked :
      (e : Event) (c : Cache) (resolver_id : Text)
      → event_name e ≡ codes "ResolverRevoked"
      → either_text (codes "resolver_id") (codes "resolverId") (event_args e) ≡ some resolver_id
      → apply_event net s e c ≡ (ok tt, invalidate_resolver resolver_id Rows.revoked c)
  unfolding apply_event on_resolver_revoked
  apply_event-revoked e c resolver_id name named = rw (name, named) refl

  -- Handled for the first time, a ResolverRevoked event that names a resolver leaves no row of that
  -- resolver in service, in the table or in the memory.
  pub handle_event-IsWithdrawn :
      (e : Event) (w : Watcher) (i : EventId) (resolver_id : Text)
      → event_id e ≡ ok i
      → any (same_id i) w.processed ≡ false
      → event_name e ≡ codes "ResolverRevoked"
      → either_text (codes "resolver_id") (codes "resolverId") (event_args e) ≡ some resolver_id
      → IsWithdrawn (of_resolver resolver_id) (handle_event net s e w).1.cache
  unfolding handle_event
  handle_event-IsWithdrawn e w i resolver_id h new name named =
      rw (h, new, apply_event-revoked e w.cache resolver_id name named, settle-cache)
        (invalidate_resolver-IsWithdrawn resolver_id Rows.revoked w.cache refl)
