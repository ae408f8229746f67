-- ===== src/Discovery/Context.antt =====
-- wrapper/resolver_chain.py: what the provider remembers of a first hop, and `_update_context`.
use fanxiangdiguijiexi.Prelude.{
  Bool, false, not, ◌&&◌, Option, none, some, List, [], ◌∷◌, ◌++◌, map, if◌then◌else◌, Text, codes,
  text_eq, given, or_blank, Outcome, PyError, runtime_error, ok, raised, ◌>>=◌,
}
use fanxiangdiguijiexi.Prelude.Dict
use fanxiangdiguijiexi.Prelude.Dict.{Dict}
use fanxiangdiguijiexi.Models.Endpoint.{Endpoint, Net}
use fanxiangdiguijiexi.Agent.Chain.{Hop, Chain, node_of}
use fanxiangdiguijiexi.Agent.Keys.{unique_endpoints}
use fanxiangdiguijiexi.Agent.Identity.{AgentIdentity, agent_schema}
use fanxiangdiguijiexi.Discovery.Versions.{chain_config_version, is_config_rollback}

-- `ResolverChainContext`
pub record Context : Type 0 where
  pub first_hop : Endpoint
  pub agent_identity : AgentIdentity
  pub observed_resolvers : List Endpoint
  pub config_version : Text
  pub agent_identities : List AgentIdentity
  pub verification_chain : Option Chain

-- The state of the provider. The repository, where it has one, outlives it.
pub record Provider : Type 0 where
  pub context_cache : Dict Context
  pub invalidated_endpoints : List Endpoint
  pub state_repository : Option (Dict Text)

abbrev pub high_water_key : Text → Text
high_water_key key = codes "agent_config_high_water:" ++ key

abbrev pub persisted_version : Option (Dict Text) → Text → Option Text
persisted_version none key = none
persisted_version (some repository) key = Dict.get (high_water_key key) repository

abbrev pub version_before : Option Context → Option Text → Option Text
version_before none persisted = persisted
version_before (some previous) persisted = some previous.config_version

abbrev pub persist : Text → Text → Option (Dict Text) → Option (Dict Text)
persist key version none = none
persist key version (some repository) = some (Dict.put (high_water_key key) version repository)

-- `if previous and previous.config_version != context.config_version`
abbrev pub changed : Option Context → Text → Bool
changed none version = false
changed (some previous) version = not (text_eq previous.config_version version)

abbrev observed_before : Option Context → List Endpoint
observed_before none = []
observed_before (some previous) = previous.observed_resolvers

abbrev pub set_context : Text → Context → Option Context → Provider → Provider
set_context key context previous p = record {
  context_cache = Dict.put key context (
      if changed previous context.config_version
      then Dict.remove key p.context_cache
      else p.context_cache);
  invalidated_endpoints =
      if changed previous context.config_version
      then p.invalidated_endpoints ++ observed_before previous
      else p.invalidated_endpoints;
  state_repository = persist key context.config_version p.state_repository;
}

-- `previous_version and is_config_rollback(previous_version, ...)`
unfoldable pub rolls_back : Option Text → Text → Bool
rolls_back previous version = given previous && is_config_rollback (or_blank previous) version

-- `_update_context`, which changes nothing when it raises.
unfoldable pub update_context : Text → Context → Provider → Outcome PyError Provider
unfolding rolls_back
update_context key context p =
    let previous = Dict.get key p.context_cache in
    if rolls_back (version_before previous (persisted_version p.state_repository key))
      context.config_version
    then raised runtime_error
    else ok (set_context key context previous p)

unfoldable pub consume_invalidated_endpoints :
    Net → Provider → Outcome PyError (List Endpoint × Provider)
unfolding unique_endpoints
consume_invalidated_endpoints net p = do
  endpoints ← unique_endpoints net p.invalidated_endpoints
  ok (endpoints, record p { invalidated_endpoints = [] })

-- `_record_context`, of the identities found on the way, the first of which is given apart.
abbrev identity_part : AgentIdentity → Text
identity_part identity = identity.resolver_id ++ b':' ∷ identity.config_version

unfoldable pub identities_version : AgentIdentity → List AgentIdentity → Text
identities_version identity [] = identity_part identity
identities_version identity (next ∷ rest) =
    identity_part identity ++ b'>' ∷ identities_version next rest

unfoldable pub record_context :
    Text
    → Endpoint
    → AgentIdentity
    → List AgentIdentity
    → List Endpoint
    → Provider
    → Outcome PyError Provider
unfolding update_context identities_version
record_context key first_hop identity identities observed p =
    update_context key
      (record {
        first_hop = first_hop;
        agent_identity = identity;
        observed_resolvers = observed;
        config_version = identities_version identity identities;
        agent_identities = identity ∷ identities;
        verification_chain = none;
      })
      p

-- The identity that a chain states of its first node.
unfoldable pub identity_of : Chain → AgentIdentity
identity_of c =
    let node = node_of c in
    record {
      resolver_id = node.resolver_id;
      endpoint = node.endpoint;
      upstreams = map Hop.upstream_endpoint node.hops;
      config_version = node.config_version;
      health = codes "ok";
      issued_at = node.issued_at;
      expires_at = node.expires_at;
      issuer = node.issuer;
      key_id = node.key_id;
      schema_version = agent_schema;
      signature = node.signature;
    }

-- `_record_context_from_chain`
unfoldable pub record_context_from_chain :
    Text → Endpoint → Chain → List Endpoint → Provider → Outcome PyError Provider
unfolding update_context identity_of chain_config_version
record_context_from_chain key first_hop c observed p =
    update_context key
      (record {
        first_hop = first_hop;
        agent_identity = identity_of c;
        observed_resolvers = observed;
        config_version = chain_config_version c;
        agent_identities = identity_of c ∷ [];
        verification_chain = some c;
      })
      p
