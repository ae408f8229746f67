-- ===== src/Watcher/Once.antt =====
-- `handle_event` of chain/event_watcher.py handles an event once.
use fanxiangdiguijiexi.Prelude.{
  ◌≡◌, refl, true, ◌∷◌, arith, any, text_eq_refl, Outcome, PyError, ok, raised, Bool-cases, inl,
  inr,
}
use fanxiangdiguijiexi.Crypto.Sha.{Sha256}
use fanxiangdiguijiexi.Models.Endpoint.{Net}
use fanxiangdiguijiexi.Cache.Manager.{Cache}
use fanxiangdiguijiexi.Watcher.Events.{
  Event, EventId, Watcher, WatcherState, same_id, event_id, apply_event, handle_numbered, applied,
  settle, handle_event,
}

same_id_refl : (i : EventId) → same_id i i ≡ true
same_id_refl i = rw (text_eq_refl i.name) (ground arith)

settle-processed :
    (o : Outcome PyError WatcherState) (e : Event) (w : Watcher)
    → (settle o e w).1.processed ≡ w.processed
settle-processed (raised x) e w = refl
settle-processed (ok state) e w = refl

applied-processed :
    (o : Outcome PyError Unit × Cache) (e : Event) (w : Watcher)
    → (applied o e w).1.processed ≡ w.processed
applied-processed (raised x, c) e w = refl
applied-processed (ok u, c) e w = settle-processed _ e _

module _ (net : Net) (s : Sha256) where
  handle_numbered-processed :
      (i : EventId) (e : Event) (w : Watcher)
      → any (same_id i) (handle_numbered net s i e w).1.processed ≡ true
  handle_numbered-processed i e w = elim (Bool-cases (any (same_id i) w.processed)) [
    | inl old ↦ rw old old
    | inr new ↦
        let after = record w { processed = i ∷ w.processed } in
        rw (new, applied-processed (apply_event net s e w.cache) e after, same_id_refl i) refl
  ]

  handle_numbered-twice :
      (i : EventId) (e : Event) (w : Watcher)
      → handle_numbered net s i e (handle_numbered net s i e w).1
        ≡ (ok tt, (handle_numbered net s i e w).1)
  handle_numbered-twice i e w = rw (handle_numbered-processed i e w) refl

  -- Once an event whose block and index are numbers was handled, with or without an exception,
  -- handling it again returns and changes nothing.
  pub handle_event-once :
      (e : Event) (w : Watcher) (i : EventId)
      → event_id e ≡ ok i
      → handle_event net s e (handle_event net s e w).1 ≡ (ok tt, (handle_event net s e w).1)
  unfolding handle_event
  handle_event-once e w i h = rw h (handle_numbered-twice i e w)
