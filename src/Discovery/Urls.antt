-- ===== src/Discovery/Urls.antt =====
-- wrapper/resolver_chain.py: `parse_agent_base_urls`, of which agent/distributed_verifier.py has a copy.
use fanxiangdiguijiexi.Prelude.{
  ℕ, Bool, true, false, not, ◌&&◌, Option, none, some, List, [], ◌∷◌, ◌++◌, ◌==◌, if◌then◌else◌,
  Text, codes, decimal, strip, truthy, Outcome, PyError, value_error, ok, raised, ◌>>=◌,
}
use fanxiangdiguijiexi.Prelude.Dict
use fanxiangdiguijiexi.Prelude.Dict.{Dict}
use fanxiangdiguijiexi.Models.Endpoint.{Net, normalized}
use fanxiangdiguijiexi.Agent.Keys.{shown}
use fanxiangdiguijiexi.Discovery.Versions.{split, to_int}

-- `item.split("=", 1)`, where the item holds the separator.
unfoldable pub split_once : ℕ → Text → Option (Text × Text)
split_once separator [] = none
split_once separator (c ∷ rest) =
    if c == separator then some ([], rest) else elim (split_once separator rest) [
      | some (before, behind) ↦ some (c ∷ before, behind)
      | none ↦ none
    ]

-- A number that may be below zero, in an f-string.
abbrev int_text : Bool × ℕ → Text
int_text (minus, n) = if minus && not (n == 0) then b'-' ∷ decimal n else decimal n

abbrev int_or_raise : Option (Bool × ℕ) → Outcome PyError (Bool × ℕ)
int_or_raise none = raised value_error
int_or_raise (some n) = ok n

module _ (net : Net) where
  -- `endpoint_cache_key` of an endpoint of these parts, whose port may be any number.
  unfoldable pub key_of_parts : Text → Text → Text → Outcome PyError Text
  unfolding to_int
  key_of_parts ip port transport = do
    n ← int_or_raise (to_int port)
    e ← normalized net (record {
      endpoint_id = none;
      ip = some ip;
      port = some n.1;
      transport = transport;
      uri = none;
      server_name = none;
      alpn = [];
    })
    ok (shown e.ip ++ b':' ∷ (int_text n ++ b':' ∷ e.transport))

  abbrev spec_key : List Text → Outcome PyError Text
  spec_key [] = ok []
  spec_key (ip ∷ []) = ok ip
  spec_key (ip ∷ port ∷ []) = key_of_parts ip port (codes "udp")
  spec_key (ip ∷ port ∷ transport ∷ rest) = key_of_parts ip port transport

  abbrev pair_of : Option (Text × Text) → Outcome PyError (Text × Text)
  pair_of none = raised value_error
  pair_of (some (endpoint_spec, url)) = spec_key (split b':' endpoint_spec) >>= λ key. ok (key, url)

  unfoldable pub urls_from : List Text → Dict Text → Outcome PyError (Dict Text)
  unfolding split_once split key_of_parts
  urls_from [] out = ok out
  urls_from (item ∷ rest) out = elim (truthy (strip item)) [
    | false ↦ urls_from rest out
    | true ↦ pair_of (split_once b'=' (strip item)) >>= λ entry.
        urls_from rest (Dict.put entry.0 entry.1 out)
  ]

  unfoldable pub parse_agent_base_urls : Text → Outcome PyError (Dict Text)
  unfolding urls_from split
  parse_agent_base_urls raw = urls_from (split b',' raw) []
