-- ===== src/Watcher/Poll.antt =====
-- `poll_web3_events`, `rollback_for_reorg` and the retries of chain/event_watcher.py. The node is a
-- parameter: what it answers to a try of a read. A try of `get_logs` covers both spellings of its
-- arguments. Sleeping is left out.
use fanxiangdiguijiexi.Prelude.{
  ℕ, zero, suc, ◌+◌, ◌-◌, Bool, false, not, ◌&&◌, ◌||◌, Option, none, some, List, [], ◌∷◌, ◌++◌,
  max, ltb, leb, ◌==◌, if◌then◌else◌, length, Text, codes, text_eq, truthy, Outcome, PyError,
  runtime_error, ok, raised, ◌>>=◌,
}
use fanxiangdiguijiexi.Json.{Value, num, text_le}
use fanxiangdiguijiexi.Crypto.Sha.{Sha256}
use fanxiangdiguijiexi.Models.Endpoint.{Net}
use fanxiangdiguijiexi.Cache.Rows
use fanxiangdiguijiexi.Cache.Manager.{Cache}
use fanxiangdiguijiexi.Cache.Invalidate.{expire_all}
use fanxiangdiguijiexi.Chain.Backend.{Registry}
use fanxiangdiguijiexi.Cache.Refresh.{Counts, refresh_registry_state}
use fanxiangdiguijiexi.Watcher.Events.{
  Event, Watcher, event_name, block_number, log_index, handle_event,
}

-- `web3` and `contract`: the answer to try number n.
pub record Node : Type 0 where
  pub get_logs : ℕ → Text → ℕ → ℕ → Outcome PyError (List Event)
  pub get_block_hash : ℕ → ℕ → Outcome PyError Text

pub record Options : Type 0 where
  pub confirmations : ℕ
  pub reorg_safety_blocks : ℕ
  pub retry_count : ℕ

pub record Polled : Type 0 where
  pub from_block : ℕ
  pub to_block : Option ℕ
  pub events : ℕ
  pub reorg : Bool

-- `for _ in range(retry_count)`: the first try that answers.
unfoldable pub with_retry : {A : Type 0} → ℕ → (ℕ → Outcome PyError A) → Outcome PyError A
with_retry zero try = raised runtime_error
with_retry (suc n) try =
    let rest = with_retry n (λ k. try (suc k)) in elim (try 0) [ ok a ↦ ok a | raised e ↦ rest ]

unfoldable pub event_names : List Text
event_names =
    codes "ResolverPublished"
    ∷ codes "ResolverUpdated"
    ∷ codes "ResolverRevoked"
    ∷ codes "RootRevoked"
    ∷ codes "EndpointBound"
    ∷ codes "EndpointUnbound"
    ∷ []

abbrev pub number_in : Option Value → ℕ
number_in (some (num n)) = n
number_in _ = 0

-- The order of the sort's keys.
unfoldable pub event_le : Event → Event → Bool
unfolding block_number log_index event_name text_le
event_le d e =
    let a = number_in (block_number d) in
    let b = number_in (block_number e) in
    let i = number_in (log_index d) in
    let j = number_in (log_index e) in
    ltb a b || (a == b && (ltb i j || (i == j && text_le (event_name d) (event_name e))))

unfoldable pub insert_event : Event → List Event → List Event
unfolding event_le
insert_event e [] = e ∷ []
insert_event e (d ∷ rest) = if event_le e d then e ∷ d ∷ rest else d ∷ insert_event e rest

unfoldable pub sort_events : List Event → List Event
unfolding insert_event
sort_events [] = []
sort_events (e ∷ rest) = insert_event e (sort_events rest)

unfoldable pub get_all_logs : Options → Node → ℕ → ℕ → List Text → Outcome PyError (List Event)
unfolding with_retry
get_all_logs options node from_block to_block [] = ok []
get_all_logs options node from_block to_block (name ∷ names) = do
  logs ← with_retry options.retry_count (λ n. node.get_logs n name from_block to_block)
  rest ← get_all_logs options node from_block to_block names
  ok (logs ++ rest)

-- `max(0, new_safe_block - reorg_safety_blocks)`
unfoldable pub rollback_for_reorg : Options → ℕ → Watcher → Watcher
rollback_for_reorg options new_safe_block w = record w {
  state = record {
    last_processed_block = new_safe_block - options.reorg_safety_blocks;
    last_seen_block_hash = none;
  };
  processed = [];
  audit = w.audit ++ codes "WatcherReorgRollback" ∷ [];
}

abbrev hash_changed : Option Text → Outcome PyError Text → Outcome PyError Bool
hash_changed none current = ok false
hash_changed (some seen) current =
    if truthy seen then (current >>= λ h. ok (not (text_eq h seen))) else ok false

unfoldable pub detect_reorg : Options → Node → Watcher → Outcome PyError Bool
unfolding with_retry
detect_reorg options node w =
    if w.state.last_processed_block == 0
    then ok false
    else hash_changed w.state.last_seen_block_hash
        (with_retry options.retry_count (λ n. node.get_block_hash n w.state.last_processed_block))

-- `expire_all` and the rollback of a poll that saw a reorganisation.
unfoldable pub quarantine : Options → Watcher → Watcher
unfolding rollback_for_reorg
quarantine options w =
    let (count, cache) = expire_all Rows.expired w.cache in
    rollback_for_reorg options w.state.last_processed_block
      (record w { cache = cache; audit = w.audit ++ codes "WatcherReorgCacheQuarantined" ∷ [] })

-- The head of the chain after the events: `max(last, to_block)`, and the hash of that block.
unfoldable pub mark_block : ℕ → Watcher → Watcher
mark_block to_block w = record w {
  state = record w.state { last_processed_block = max w.state.last_processed_block to_block };
}

abbrev pub seen : Outcome PyError Text → Polled → Watcher → Outcome PyError Polled × Watcher
seen (raised x) result w = (raised x, w)
seen (ok hash) result w =
    (ok result, record w { state = record w.state { last_seen_block_hash = some hash } })

module _ (net : Net) (s : Sha256) (options : Options) (node : Node) where
  -- `for event in events: self.handle_event(event)`
  unfoldable pub handle_all : List Event → Watcher → Outcome PyError Unit × Watcher
  unfolding handle_event
  handle_all [] w = (ok tt, w)
  handle_all (e ∷ rest) w =
      let (o, w') = handle_event net s e w in
      elim o [ raised x ↦ (raised x, w') | ok u ↦ handle_all rest w' ]

  abbrev pub handled :
      Outcome PyError Unit × Watcher → ℕ → Polled → Outcome PyError Polled × Watcher
  handled (raised x, w) to_block result = (raised x, w)
  handled (ok u, w) to_block result =
      seen (with_retry options.retry_count (λ n. node.get_block_hash n to_block)) result
        (mark_block to_block w)

  abbrev pub logged :
      Outcome PyError (List Event) → ℕ → ℕ → Bool → Watcher → Outcome PyError Polled × Watcher
  logged (raised x) from_block to_block reorg w = (raised x, w)
  logged (ok events) from_block to_block reorg w =
      handled (handle_all (sort_events events) w) to_block (record {
        from_block = from_block;
        to_block = some to_block;
        events = length events;
        reorg = reorg;
      })

  unfoldable pub poll_from : ℕ → Bool → Watcher → Outcome PyError Polled × Watcher
  unfolding handle_all sort_events get_all_logs with_retry mark_block event_names
  poll_from to_block reorg w =
      let from_block = w.state.last_processed_block + 1 in
      if ltb to_block from_block
      then (
        ok (record {
          from_block = from_block;
          to_block = some to_block;
          events = 0;
          reorg = reorg;
        }),
        w,
      )
      else logged (get_all_logs options node from_block to_block event_names) from_block to_block
          reorg w

  abbrev pub polled : Outcome PyError Bool → ℕ → Watcher → Outcome PyError Polled × Watcher
  polled (raised x) to_block w = (raised x, w)
  polled (ok reorg) to_block w =
      poll_from to_block reorg (if reorg then quarantine options w else w)

  -- `to_block` is none where it would be negative.
  unfoldable pub poll_web3_events : ℕ → Watcher → Outcome PyError Polled × Watcher
  unfolding poll_from detect_reorg quarantine
  poll_web3_events head w =
      if ltb head options.confirmations
      then (
        ok (record {
          from_block = w.state.last_processed_block + 1;
          to_block = none;
          events = 0;
          reorg = false;
        }),
        w,
      )
      else polled (detect_reorg options node w) (head - options.confirmations) w

abbrev reconciled : Outcome PyError Counts × Cache → Watcher → Outcome PyError Counts × Watcher
reconciled (raised x, c) w = (raised x, record w { cache = c })
reconciled (ok n, c) w =
    (ok n, record w { cache = c; audit = w.audit ++ codes "WatcherRegistryStateReconciled" ∷ [] })

unfoldable pub reconcile_registry_state : Registry → Watcher → Outcome PyError Counts × Watcher
unfolding refresh_registry_state
reconcile_registry_state registry w = reconciled (refresh_registry_state registry w.cache) w

-- `block_number <= current_head - self.confirmations`
unfoldable pub should_process_block : Options → ℕ → ℕ → Bool
should_process_block options block head = leb (block + options.confirmations) head
