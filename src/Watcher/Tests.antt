-- ===== src/Watcher/Tests.antt =====
-- Runs of the watcher.
use fanxiangdiguijiexi.Prelude.{
  ℕ, ◌≡◌, refl, false, none, some, [], ◌∷◌, if◌then◌else◌, Text, codes, text_eq, ok, raised,
  type_error,
}
use fanxiangdiguijiexi.Json.{Fields, num, text, object, field, end, null}
use fanxiangdiguijiexi.Crypto.Toy.{toy_sha}
use fanxiangdiguijiexi.Models.Endpoint.Toy.{toy_net}
use fanxiangdiguijiexi.Cache.Store.{int_value}
use fanxiangdiguijiexi.Cache.Dead.{IsWithdrawn}
use fanxiangdiguijiexi.Cache.Withdrawn.{of_resolver}
use fanxiangdiguijiexi.Verifier.Object.{lookup}
use fanxiangdiguijiexi.Watcher.Events.{
  Event, EventId, Watcher, event_id, event_name, event_args, either, either_text, block_number,
  log_index, apply_event, handle_event, on_resolver_updated,
}
use fanxiangdiguijiexi.Watcher.Poll.{Node, Options, Polled}
use fanxiangdiguijiexi.Watcher.Once.{handle_event-once}
use fanxiangdiguijiexi.Watcher.Withdraws.{handle_event-IsWithdrawn}

abbrev watcher : Watcher
watcher = record {
  cache = record {
    repository = record { rows = []; generation = 0; audit = [] };
    memory = [];
    generation_owner = codes "owner-1";
  };
  state = record { last_processed_block = 3; last_seen_block_hash = some (codes "0x03") };
  processed = [];
  audit = [];
}

abbrev event : Text → Fields → ℕ → Event
event name args block = record {
  fields = field (codes "event") (text name) (
      field (codes "args") (object args)
        (field (codes "blockNumber") (num block) (field (codes "logIndex") (num 1) end)));
  endpoint = none;
}

abbrev revoke_a : Event
revoke_a = event (codes "ResolverRevoked") (field (codes "resolver_id") (text (codes "a")) end) 5

-- An event whose version is no number: handling it raises.
abbrev broken : Event
broken =
    event (codes "ResolverUpdated")
      (field (codes "resolver_id") (text (codes "a"))
        (field (codes "object_version") (object (field (codes "v") null end)) end))
      5

abbrev id_of : Text → EventId
id_of name = record { name = name; position = 5000001 }

revoke_id : event_id revoke_a ≡ ok (id_of (codes "ResolverRevoked"))
unfolding event_id event_name block_number log_index either lookup int_value
revoke_id = refl

broken_id : event_id broken ≡ ok (id_of (codes "ResolverUpdated"))
unfolding event_id event_name block_number log_index either lookup int_value
broken_id = refl

-- The exception leaves the event counted as processed, so it is never tried again.
broken_raises : (handle_event toy_net toy_sha broken watcher).0 ≡ raised type_error
unfolding handle_event event_id event_name block_number log_index either either_text lookup
    int_value apply_event on_resolver_updated event_args
broken_raises = refl

handle_event-once_example :
    handle_event toy_net toy_sha broken (handle_event toy_net toy_sha broken watcher).1
    ≡ (ok tt, (handle_event toy_net toy_sha broken watcher).1)
handle_event-once_example =
    handle_event-once toy_net toy_sha broken watcher (id_of (codes "ResolverUpdated")) broken_id

revoke_name : event_name revoke_a ≡ codes "ResolverRevoked"
unfolding event_name either lookup
revoke_name = refl

revoke_args :
    either_text (codes "resolver_id") (codes "resolverId") (event_args revoke_a) ≡ some (codes "a")
unfolding either_text event_args either lookup
revoke_args = refl

handle_event-IsWithdrawn_example :
    IsWithdrawn (of_resolver (codes "a")) (handle_event toy_net toy_sha revoke_a watcher).1.cache
handle_event-IsWithdrawn_example =
    handle_event-IsWithdrawn toy_net toy_sha revoke_a watcher (id_of (codes "ResolverRevoked"))
      (codes "a") revoke_id refl revoke_name revoke_args

-- A node with one event to tell.
abbrev node : Node
node = record {
  get_logs = λ n name from_block to_block.
      if text_eq name (codes "ResolverRevoked") then ok (revoke_a ∷ []) else ok [];
  get_block_hash = λ n block. ok (codes "0x03");
}

abbrev options : Options
options = record { confirmations = 1; reorg_safety_blocks = 6; retry_count = 3 }

abbrev result : Polled
result = record { from_block = 4; to_block = some 8; events = 1; reorg = false }
