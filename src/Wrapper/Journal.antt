-- ===== src/Wrapper/Journal.antt =====
-- wrapper/request_journal.py: requests and their events, oldest first. Ids are handed in.
use fanxiangdiguijiexi.Prelude.{
  ℕ, suc, ◌+◌, ◌≤◌, Option, none, some, List, [], ◌∷◌, ◌++◌, arith, ltb, if◌then◌else◌, length,
  Text,
}
use fanxiangdiguijiexi.Prelude.Dict
use fanxiangdiguijiexi.Prelude.Dict.{Dict}
use fanxiangdiguijiexi.Json.{Value}

pub record Entry : Type 0 where
  pub query_size : Option ℕ
  pub events : List Value

pub record Journal : Type 0 where
  pub max_entries : ℕ
  pub entries : Dict Entry

-- `while len(entries) > max_entries: entries.popitem(last=False)`
unfoldable pub evict : ℕ → Dict Entry → Dict Entry
evict limit [] = []
evict limit (e ∷ rest) =
    let less = evict limit rest in if ltb limit (suc (length rest)) then less else e ∷ rest

unfoldable pub create : Text → ℕ → Journal → Journal
unfolding evict
create request_id size j = record j {
  entries =
      evict j.max_entries
        (Dict.put request_id (record { query_size = some size; events = [] }) j.entries);
}

abbrev or_fresh : Option Entry → Entry
or_fresh none = record { query_size = none; events = [] }
or_fresh (some e) = e

abbrev with_event : Value → Entry → Entry
with_event event e = record e { events = e.events ++ event ∷ [] }

unfoldable pub add : Text → Value → Journal → Journal
add request_id event j = record j {
  entries =
      Dict.put request_id (with_event event (or_fresh (Dict.get request_id j.entries))) j.entries;
}

evict-length : (limit : ℕ) (d : Dict Entry) → length (evict limit d) ≤ limit
unfolding evict
evict-length limit [] = omega arith
evict-length limit (e ∷ rest) = ground (arith, evict-length limit rest)

-- After a request was created the journal has at most `max_entries` entries, and `add` adds at most
-- one to what there is.
pub create-bounded :
    (request_id : Text) (size : ℕ) (event : Value) (j : Journal)
    → (length (create request_id size j).entries ≤ j.max_entries)
      × (length (add request_id event j).entries ≤ length j.entries + 1)
unfolding create add
create-bounded request_id size event j =
    (evict-length j.max_entries _, Dict.length-put request_id _ j.entries)
