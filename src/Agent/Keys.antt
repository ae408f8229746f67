-- ===== src/Agent/Keys.antt =====
-- agent/distributed_verifier.py: `endpoint_cache_key` and `_unique_endpoints`, of which
-- wrapper/resolver_chain.py has copies, and the search for an Agent's URL.
use fanxiangdiguijiexi.Prelude.{
  ℕ, Bool, true, false, ◌&&◌, Option, none, some, List, [], ◌∷◌, ◌++◌, if◌then◌else◌, Text, codes,
  text_eq, option_eq, decimal, given, or_blank, Outcome, PyError, ok, ◌>>=◌,
}
use fanxiangdiguijiexi.Prelude.Dict
use fanxiangdiguijiexi.Prelude.Dict.{Dict}
use fanxiangdiguijiexi.Models.Endpoint.{Endpoint, Net, normalized, matches, port_eq}

-- A value in an f-string.
abbrev pub shown : Option Text → Text
shown none = codes "None"
shown (some t) = t

abbrev shown_port : Option ℕ → Text
shown_port none = codes "None"
shown_port (some p) = decimal p

unfoldable pub cache_key_of : Endpoint → Text
cache_key_of e = shown e.ip ++ b':' ∷ (shown_port e.port ++ b':' ∷ e.transport)

-- Whether two endpoints have the same tuple `(ip, port, transport, server_name, uri)`.
unfoldable pub same_identity : Endpoint → Endpoint → Bool
same_identity a b =
    option_eq a.ip b.ip
    && (port_eq a.port b.port
        && (text_eq a.transport b.transport
            && (option_eq a.server_name b.server_name && option_eq a.uri b.uri)))

-- `unique[key] = normalized`: an old key keeps its place and takes the new value.
unfoldable pub put_endpoint : Endpoint → List Endpoint → List Endpoint
put_endpoint e [] = e ∷ []
put_endpoint e (d ∷ rest) = if same_identity d e then e ∷ rest else d ∷ put_endpoint e rest

-- `agent_base_urls.get(key) or (agent_base_urls.get(ip) if ip else None)`; no URL is an empty one.
abbrev pub url_of : Text → Option Text → Dict Text → Text
url_of key ip urls =
    if given (Dict.get key urls)
    then or_blank (Dict.get key urls)
    else if given ip
    then or_blank (Dict.get (or_blank ip) urls)
    else []

module _ (net : Net) where
  unfoldable pub endpoint_cache_key : Endpoint → Outcome PyError Text
  endpoint_cache_key endpoint = do e ← normalized net endpoint; ok (cache_key_of e)

  unfoldable pub unique_onto : List Endpoint → List Endpoint → Outcome PyError (List Endpoint)
  unfolding put_endpoint
  unique_onto unique [] = ok unique
  unique_onto unique (e ∷ rest) = normalized net e >>= λ n. unique_onto (put_endpoint n unique) rest

  unfoldable pub unique_endpoints : List Endpoint → Outcome PyError (List Endpoint)
  unfolding unique_onto
  unique_endpoints endpoints = unique_onto [] endpoints

  -- `_agent_url_for`
  unfoldable pub agent_url_for : Dict Text → Endpoint → Outcome PyError Text
  unfolding endpoint_cache_key
  agent_url_for urls endpoint = do
    e ← normalized net endpoint
    key ← endpoint_cache_key e
    ok (url_of key e.ip urls)

  -- `any(candidate.matches(endpoint) for candidate in candidates)`
  unfoldable pub any_matching : List Endpoint → Endpoint → Outcome PyError Bool
  any_matching [] endpoint = ok false
  any_matching (candidate ∷ rest) endpoint =
      let later = any_matching rest endpoint in
      matches net candidate endpoint >>= λ m. if m then ok true else later
