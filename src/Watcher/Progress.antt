-- ===== src/Watcher/Progress.antt =====
-- The block up to which chain/event_watcher.py has processed the chain.
use fanxiangdiguijiexi.Prelude.{ℕ, ◌<◌, max, if◌then◌else◌, ◌≤◌, ◌+◌, ◌≡◌, Bool, List, ok}
use fanxiangdiguijiexi.Crypto.Sha.{Sha256}
use fanxiangdiguijiexi.Models.Endpoint.{Net}
use fanxiangdiguijiexi.Cache.Manager.{Cache}
use fanxiangdiguijiexi.Watcher.Events.{Event, Watcher}
use fanxiangdiguijiexi.Watcher.Handled.{InOrder, Occurs, IsProcessed, Handles}
use fanxiangdiguijiexi.Watcher.Poll.{
  Node, Options, sort_events, get_all_logs, event_names, quarantine,
}

-- `last_processed_block`
abbrev last : Watcher → ℕ
last w = w.state.last_processed_block

-- The watcher from which the logs are read: after a reorganisation, the one that was put back.
abbrev pub started : Options → Bool → Watcher → Watcher
started options reorg w = if reorg then quarantine options w else w

module _ (net : Net) (s : Sha256) (options : Options) (node : Node) where
  -- What a poll that has blocks to read does: every event of the logs was handled, in order and
  -- without an exception, and the mark is then moved up to the end of the range.
  pub record Caught (w w' : Watcher) (to_block : ℕ) : Type 0 where
    pub events : List Event
    pub logs :
        get_all_logs options node (w.state.last_processed_block + 1) to_block event_names
        ≡ ok events
    pub after_events : Watcher
    pub in_order : InOrder (sort_events events)
    pub run : Handles net s w (sort_events events) after_events
    pub each : (e : Event) → Occurs e events → IsProcessed e w'
    pub same_cache : w'.cache ≡ after_events.cache
    pub mark : w'.state.last_processed_block ≡ max after_events.state.last_processed_block to_block

  -- The result of a poll, and the block that it leaves.
  pub record Advanced (w w' : Watcher) (to_block : ℕ) : Type 0 where
    pub not_before : w.state.last_processed_block ≤ w'.state.last_processed_block
    pub reached : to_block ≤ w'.state.last_processed_block
    pub idle : to_block ≤ w.state.last_processed_block → w' ≡ w
    pub caught : w.state.last_processed_block < to_block → Caught w w' to_block
