-- ===== src/Watcher/Handled.antt =====
-- A run of `handle_event` of chain/event_watcher.py over the events of a poll.
use fanxiangdiguijiexi.Prelude.{
  ltb, ◌==◌, ◌&&◌, ◌||◌, Bool, ℕ, ◌<◌, ◌≤◌, ◌⊎◌, Text, ◌≡◌, refl, sym, subst, true, false, List, [],
  ◌∷◌, arith, any, text_eq_refl, Outcome, PyError, ok, raised, Bool-cases, Outcome-cases, inl, inr,
}
use fanxiangdiguijiexi.Json.{text_le}
use fanxiangdiguijiexi.Crypto.Sha.{Sha256}
use fanxiangdiguijiexi.Models.Endpoint.{Net}
use fanxiangdiguijiexi.Cache.Manager.{Cache}
use fanxiangdiguijiexi.Watcher.Events.{
  block_number, log_index, event_name, Event, EventId, Watcher, WatcherState, same_id, event_id,
  apply_event, applied, settle, handle_event,
}
use fanxiangdiguijiexi.Watcher.Poll.{
  number_in, Options, Node, event_le, insert_event, sort_events, handle_all,
}

pub data Occurs (e : Event) : List Event → Type 0 where
  occurs_first : {es : List Event} → Occurs e (e ∷ es)
  occurs_later : {d : Event} {es : List Event} → Occurs e es → Occurs e (d ∷ es)

insert_event-new : (e : Event) (es : List Event) → Occurs e (insert_event e es)
unfolding insert_event
insert_event-new e [] = occurs_first
insert_event-new e (d ∷ rest) = elim (Bool-cases (event_le e d)) [
  | inl q ↦ rw q occurs_first
  | inr q ↦ rw q (occurs_later (insert_event-new e rest))
]

insert_event-old : (e new : Event) (es : List Event) → Occurs e es → Occurs e (insert_event new es)
unfolding insert_event
insert_event-old e new [] h = elim h [ ]
insert_event-old e new (_ ∷ rest) occurs_first = elim (Bool-cases (event_le new e)) [
  | inl q ↦ rw q (occurs_later occurs_first)
  | inr q ↦ rw q occurs_first
]
insert_event-old e new (d ∷ rest) (occurs_later h) = elim (Bool-cases (event_le new d)) [
  | inl q ↦ rw q (occurs_later (occurs_later h))
  | inr q ↦ rw q (occurs_later (insert_event-old e new rest h))
]

pub sort_events-Occurs : (e : Event) (es : List Event) → Occurs e es → Occurs e (sort_events es)
unfolding sort_events
sort_events-Occurs e [] h = elim h [ ]
sort_events-Occurs e (_ ∷ rest) occurs_first = insert_event-new e (sort_events rest)
sort_events-Occurs e (d ∷ rest) (occurs_later h) =
    insert_event-old e d (sort_events rest) (sort_events-Occurs e rest h)

text_le_total : (s t : Text) → text_le s t ≡ false → text_le t s ≡ true
unfolding text_le
text_le_total [] t h = absurd (cc h)
text_le_total (b ∷ s) [] h = refl
text_le_total (b ∷ s) (c ∷ t) h = ground (arith, text_le_total s t)

-- The order of two events' keys: block, index, and the order of the names.
abbrev key_le : ℕ → ℕ → ℕ → ℕ → Bool → Bool
key_le a b i j le = ltb a b || (a == b && (ltb i j || (i == j && le)))

key_le_total :
    (a b i j : ℕ) (le le' : Bool)
    → (le ≡ false → le' ≡ true)
    → key_le a b i j le ≡ false
    → key_le b a j i le' ≡ true
key_le_total a b i j le le' t h = ground arith

key_le-parts : (a b i j : ℕ) (le : Bool) → key_le a b i j le ≡ true → (a < b) ⊎ ((a ≡ b) × (i ≤ j))
key_le-parts a b i j le h = ground arith

event_le_total : (d e : Event) → event_le d e ≡ false → event_le e d ≡ true
unfolding event_le
event_le_total d e h =
    key_le_total (number_in (block_number d)) (number_in (block_number e)) (number_in (log_index d))
      (number_in (log_index e)) (text_le (event_name d) (event_name e))
      (text_le (event_name e) (event_name d)) (text_le_total (event_name d) (event_name e)) h

abbrev pub block_of : Event → ℕ
block_of e = number_in (block_number e)

abbrev pub index_of : Event → ℕ
index_of e = number_in (log_index e)

-- Neither later in the chain nor, in one block, later in the block's log.
abbrev pub NotLater : Event → Event → Type 0
NotLater d e = (block_of d < block_of e) ⊎ ((block_of d ≡ block_of e) × (index_of d ≤ index_of e))

-- Each event is not later than the next.
abbrev pub InOrder : List Event → Type 0
InOrder [] = Unit
InOrder (d ∷ []) = Unit
InOrder (d ∷ e ∷ rest) = NotLater d e × InOrder (e ∷ rest)

event_le-NotLater : (d e : Event) → event_le d e ≡ true → NotLater d e
unfolding event_le
event_le-NotLater d e h =
    key_le-parts (number_in (block_number d)) (number_in (block_number e)) (number_in (log_index d))
      (number_in (log_index e)) (text_le (event_name d) (event_name e)) h

insert_event-InOrder : (e : Event) (es : List Event) → InOrder es → InOrder (insert_event e es)
unfolding insert_event
insert_event-InOrder e [] h = tt
insert_event-InOrder e (d ∷ []) h = elim (Bool-cases (event_le e d)) [
  | inl q ↦ rw q (event_le-NotLater e d q, tt)
  | inr q ↦ rw q (event_le-NotLater d e (event_le_total e d q), tt)
]
insert_event-InOrder e (d ∷ f ∷ rest) (h, hs) = elim (Bool-cases (event_le e d)) [
  | inl q ↦ rw q (event_le-NotLater e d q, (h, hs))
  | inr q ↦
      let before = event_le-NotLater d e (event_le_total e d q) in
      let next = insert_event-InOrder e (f ∷ rest) hs in
      elim (Bool-cases (event_le e f)) [
        | inl p ↦ rw (q, p) (before, (event_le-NotLater e f p, hs))
        | inr p ↦ rw (q, p) (h, (rw p at next))
      ]
]

pub sort_events-InOrder : (es : List Event) → InOrder (sort_events es)
unfolding sort_events
sort_events-InOrder [] = tt
sort_events-InOrder (e ∷ rest) =
    insert_event-InOrder e (sort_events rest) (sort_events-InOrder rest)

-- The watcher has the event's id among the processed ones.
abbrev pub IsProcessed : Event → Watcher → Type 0
IsProcessed e w = (i : EventId) × (event_id e ≡ ok i) × (any (same_id i) w.processed ≡ true)

same_id_refl : (i : EventId) → same_id i i ≡ true
same_id_refl i = ground (arith, text_eq_refl i.name)

settle-processed :
    (o : Outcome PyError WatcherState) (e : Event) (w : Watcher)
    → (settle o e w).1.processed ≡ w.processed
settle-processed (raised x) e w = refl
settle-processed (ok state) e w = refl

applied-processed :
    (o : Outcome PyError Unit × Cache) (e : Event) (w : Watcher)
    → (applied o e w).1.processed ≡ w.processed
applied-processed (raised x, c) e w = refl
applied-processed (ok u, c) e w = settle-processed _ e _

module _ (net : Net) (s : Sha256) where
  handle_event-processed :
      (e : Event) (w : Watcher) (i : EventId)
      → event_id e ≡ ok i
      → any (same_id i) w.processed ≡ false
      → (handle_event net s e w).1.processed ≡ i ∷ w.processed
  unfolding handle_event
  handle_event-processed e w i q new =
      rw (q, new)
        (applied-processed (apply_event net s e w.cache) e
          (record w { processed = i ∷ w.processed }))

  handle_event-IsProcessed :
      (e : Event) (w : Watcher) (u : Unit)
      → (handle_event net s e w).0 ≡ ok u
      → IsProcessed e (handle_event net s e w).1
  unfolding handle_event
  handle_event-IsProcessed e w u h = elim (Outcome-cases (event_id e)) [
    | inr (x, q) ↦ absurd (cc (rw q at h))
    | inl (i, q) ↦ elim (Bool-cases (any (same_id i) w.processed)) [
      | inl old ↦ (i, q, rw (q, old) old)
      | inr new ↦
          let same = handle_event-processed e w i q new in
          (
            i,
            q,
            subst (λ ids. any (same_id i) ids ≡ true) (sym same) (ground (arith, same_id_refl i)),
          )
    ]
  ]

  handle_event-keeps :
      (e : Event) (w : Watcher) (j : EventId)
      → any (same_id j) w.processed ≡ true
      → any (same_id j) (handle_event net s e w).1.processed ≡ true
  unfolding handle_event
  handle_event-keeps e w j h = elim (Outcome-cases (event_id e)) [
    | inr (x, q) ↦ rw q h
    | inl (i, q) ↦ elim (Bool-cases (any (same_id i) w.processed)) [
      | inl old ↦ rw (q, old) h
      | inr new ↦
          let same = handle_event-processed e w i q new in
          subst (λ ids. any (same_id j) ids ≡ true) (sym same) (ground (arith, h))
    ]
  ]

  -- The events are handled one after the other, and none raises.
  pub data Handles : Watcher → List Event → Watcher → Type 0 where
    handled_none : {w : Watcher} → Handles w [] w
    handled_one :
        {w w' : Watcher} {e : Event} {es : List Event} (u : Unit)
        → (handle_event net s e w).0 ≡ ok u
        → Handles (handle_event net s e w).1 es w'
        → Handles w (e ∷ es) w'

  Handles-keeps :
      (w w' : Watcher) (es : List Event) (j : EventId)
      → Handles w es w'
      → any (same_id j) w.processed ≡ true
      → any (same_id j) w'.processed ≡ true
  Handles-keeps w _ [] j handled_none h = h
  Handles-keeps w w' (e ∷ es) j (handled_one u q run) h =
      Handles-keeps (handle_event net s e w).1 w' es j run (handle_event-keeps e w j h)

  pub Handles-IsProcessed :
      (w w' : Watcher) (es : List Event) (e : Event)
      → Handles w es w'
      → Occurs e es
      → IsProcessed e w'
  Handles-IsProcessed w w' [] e run o = elim o [ ]
  Handles-IsProcessed w w' (_ ∷ es) e (handled_one u q run) occurs_first =
      let (i, named, there) = handle_event-IsProcessed e w u q in
      (i, named, Handles-keeps (handle_event net s e w).1 w' es i run there)
  Handles-IsProcessed w w' (d ∷ es) e (handled_one u q run) (occurs_later o) =
      Handles-IsProcessed (handle_event net s d w).1 w' es e run o

  module _ (options : Options) (node : Node) where
    pub handle_all-Handles :
        (es : List Event) (w : Watcher) (u : Unit)
        → (handle_all net s options node es w).0 ≡ ok u
        → Handles w es (handle_all net s options node es w).1
    unfolding handle_all
    handle_all-Handles [] w u h = handled_none
    handle_all-Handles (e ∷ rest) w u h = elim (Outcome-cases (handle_event net s e w).0) [
      | inr (x, q) ↦ absurd (cc (rw (q, handle_all) at h))
      | inl (v, q) ↦
          rw (q, handle_all)
            (handled_one v q
              (handle_all-Handles rest (handle_event net s e w).1 u (rw (q, handle_all) at h)))
    ]
