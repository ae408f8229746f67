-- ===== src/Discovery/Static.antt =====
-- wrapper/resolver_chain.py and verifier/observed_resolvers.py: the resolvers that are observed without
-- an Agent's signed statement, and the context as JSON.
use fanxiangdiguijiexi.Prelude.{
  ℕ, Bool, Option, none, some, List, [], ◌∷◌, if◌then◌else◌, Text, codes, Outcome, PyError, ok,
  ◌>>=◌,
}
use fanxiangdiguijiexi.Prelude.Dict
use fanxiangdiguijiexi.Json.{Value, Items, Fields, null, text, array, object, nil, cons, field, end}
use fanxiangdiguijiexi.Models.Endpoint.{Endpoint, Net, normalized, to_dict}
use fanxiangdiguijiexi.Verifier.Object.{lookup, items_or, endpoints_from}
use fanxiangdiguijiexi.Agent.Chain.{Chain}
use fanxiangdiguijiexi.Agent.Keys.{unique_endpoints, endpoint_cache_key}
use fanxiangdiguijiexi.Agent.Identity.{AgentIdentity}
use fanxiangdiguijiexi.Agent.Print.{chain_to_dict}
use fanxiangdiguijiexi.Discovery.Context.{Context, Provider}

abbrev pub endpoint_items : List Endpoint → Items
endpoint_items [] = nil
endpoint_items (e ∷ rest) = cons (to_dict e) (endpoint_items rest)

abbrev identity_items : List AgentIdentity → Items
identity_items [] = nil
identity_items (i ∷ rest) =
    cons
      (object (
        field (codes "resolver_id") (text i.resolver_id) (
          field (codes "endpoint") (to_dict i.endpoint) (
            field (codes "config_version") (text i.config_version)
              (field (codes "upstreams") (array (endpoint_items i.upstreams)) end)))))
      (identity_items rest)

module _ (net : Net) where
  -- `StaticResolverChainProvider.observed_resolvers`
  unfoldable pub static_observed_resolvers :
      Bool → List Endpoint → Endpoint → Outcome PyError (List Endpoint)
  unfolding unique_endpoints
  static_observed_resolvers include_first_hop endpoints first =
      unique_endpoints net (if include_first_hop then first ∷ endpoints else endpoints)

  unfoldable pub first_hop_observed_resolver : Text → ℕ → Text → Outcome PyError (List Endpoint)
  first_hop_observed_resolver ip port transport = do
    e ← normalized net (record {
      endpoint_id = none;
      ip = some ip;
      port = some port;
      transport = transport;
      uri = none;
      server_name = none;
      alpn = [];
    })
    ok (e ∷ [])

  unfoldable pub normalized_each : List Endpoint → Outcome PyError (List Endpoint)
  normalized_each [] = ok []
  normalized_each (e ∷ rest) = do n ← normalized net e; ns ← normalized_each rest; ok (n ∷ ns)

  unfoldable pub observed_resolvers_from_agent_payload : Fields → Outcome PyError (List Endpoint)
  unfolding endpoints_from normalized_each
  observed_resolvers_from_agent_payload payload = do
    items ← items_or (lookup (codes "observed_resolvers") payload)
    read ← endpoints_from net items
    normalized_each read

  unfoldable pub get_context : Endpoint → Provider → Outcome PyError (Option Context)
  unfolding endpoint_cache_key
  get_context first p = endpoint_cache_key net first >>= λ key. ok (Dict.get key p.context_cache)

  abbrev chain_value : Option Chain → Outcome PyError Value
  chain_value none = ok null
  chain_value (some c) = chain_to_dict net c

  -- `ResolverChainContext.to_dict`
  unfoldable pub context_to_dict : Context → Outcome PyError Value
  unfolding chain_to_dict
  context_to_dict context = do
    verification_chain ← chain_value context.verification_chain
    ok (
        object (
          field (codes "first_hop") (to_dict context.first_hop) (
            field (codes "resolver_id") (text context.agent_identity.resolver_id) (
              field (codes "config_version") (text context.config_version) (
                field (codes "observed_resolvers")
                  (array (endpoint_items context.observed_resolvers))
                  (field (codes "agent_identities")
                    (array (identity_items context.agent_identities))
                    (field (codes "verification_chain") verification_chain end)))))))
