-- ===== src/Discovery/Signatures.antt =====
-- wrapper/resolver_chain.py: `_validate_chain_signatures` and `_validate_chain_node`, given the present
-- second. A set of texts is a list.
use fanxiangdiguijiexi.Prelude.{
  ℕ, Bool, not, ◌&&◌, Option, none, some, List, [], ◌∷◌, leb, if◌then◌else◌, length, any, Text,
  codes, text_eq, truthy, given, or_blank, Outcome, PyError, value_error, runtime_error, ok, raised,
  ◌>>=◌, ◌>>◌, raise_if,
}
use fanxiangdiguijiexi.Prelude.Dict
use fanxiangdiguijiexi.Prelude.Dict.{Dict}
use fanxiangdiguijiexi.Json.{Value, text, is_true}
use fanxiangdiguijiexi.Crypto.Sha.{Sha256}
use fanxiangdiguijiexi.Models.Endpoint.{Endpoint, Net, matches}
use fanxiangdiguijiexi.Models.Verification.{VerificationResult}
use fanxiangdiguijiexi.Verifier.Object.{fields_of}
use fanxiangdiguijiexi.Verifier.Keys.{Signer}
use fanxiangdiguijiexi.Agent.Chain.{Hop, Node, Chain, Chains, chain, no_chains, and_chain, node_of}
use fanxiangdiguijiexi.Agent.Payload.{
  verify_hop_verification_result_payload, verify_verification_chain_payload,
}
use fanxiangdiguijiexi.Agent.Keys.{endpoint_cache_key}
use fanxiangdiguijiexi.Agent.Print.{hop_to_dict, chain_to_dict}

-- What the provider is set to, and the present second.
pub record Setting : Type 0 where
  pub max_depth : ℕ
  pub max_clock_skew_seconds : ℕ
  pub now : ℕ

-- The key and the endpoint that verified evidence binds to a resolver.
pub record Bound : Type 0 where
  pub public_key : Value
  pub endpoint : Endpoint

-- `if test: raise ChainDiscoveryError(...)`
unfoldable pub fail_if : Bool → Outcome PyError Unit
fail_if test = raise_if test runtime_error

unfoldable pub signer_of : Option Bound → Outcome PyError Bound
signer_of none = raised runtime_error
signer_of (some b) = ok b

-- A key that is not a text verifies no signature.
unfoldable pub key_of : Value → Outcome PyError Text
key_of (text t) = ok t
key_of _ = raised value_error

-- An accepted hop with a resolver and a key.
abbrev pub binds : Hop → Value → Bool
binds hop key = hop.accepted && (given hop.upstream_resolver_id && is_true key)

unfoldable pub bind_hop : Option Value → Hop → Dict Bound → Dict Bound
bind_hop none hop bound = bound
bind_hop (some key) hop bound =
    if binds hop key
    then Dict.put (or_blank hop.upstream_resolver_id)
        (record { public_key = key; endpoint = hop.upstream_endpoint }) bound
    else bound

-- `if first_result.resolver_id and first_result.evidence.get("agent_public_key")`
unfoldable pub known_first : Option Text → Option Value → Endpoint → Dict Bound
known_first (some id) (some key) endpoint =
    if truthy id && is_true key
    then Dict.put id (record { public_key = key; endpoint = endpoint }) []
    else []
known_first _ _ endpoint = []

module _ (net : Net) (s : Sha256) (signer : Signer) (setting : Setting) where
  unfoldable pub hop_signed : Node → Text → Hop → Outcome PyError Hop
  hop_signed node public_key hop = do
    v ← hop_to_dict net hop
    payload ← fields_of v
    verify_hop_verification_result_payload net s signer payload public_key (some node.resolver_id)
        (some node.endpoint) setting.now setting.max_clock_skew_seconds

  unfoldable pub chain_signed : Chain → Text → Endpoint → Option Text → Outcome PyError Chain
  chain_signed c public_key endpoint challenge = do
    v ← chain_to_dict net c
    payload ← fields_of v
    verify_verification_chain_payload net s signer payload public_key (some (node_of c).resolver_id)
        (some endpoint) setting.now setting.max_clock_skew_seconds challenge

  -- The loop over the hops.
  unfoldable pub check_signed_hops :
      Node → Text → List Text → List Hop → Dict Bound → Outcome PyError (Dict Bound)
  unfolding hop_signed endpoint_cache_key fail_if bind_hop
  check_signed_hops node public_key visiting [] bound = ok bound
  check_signed_hops node public_key visiting (hop ∷ rest) bound = do
    verified ← hop_signed node public_key hop
    key ← endpoint_cache_key net hop.upstream_endpoint
    fail_if (any (text_eq key) visiting)
    check_signed_hops node public_key visiting rest
        (bind_hop (Dict.get (codes "agent_public_key") hop.evidence) hop bound)

  -- `_validate_chain_node`: the signers known after it. The set of the keys on the way down is as
  -- before when it returns.
  unfoldable mutual
    unfolding chain_signed check_signed_hops endpoint_cache_key fail_if signer_of key_of

    pub validate_chain_node :
        Option Text → Chain → Dict Bound → List Text → Outcome PyError (Dict Bound)
    validate_chain_node challenge (chain node downstream) known visiting = do
      key ← endpoint_cache_key net node.endpoint
      fail_if (any (text_eq key) visiting)
      fail_if (leb setting.max_depth (length visiting))
      bound ← signer_of (Dict.get node.resolver_id known)
      public_key ← key_of bound.public_key
      verified ← chain_signed (chain node downstream) public_key bound.endpoint challenge
      downstream_by_resolver ← check_signed_hops node public_key (key ∷ visiting) node.hops []
      validate_downstream challenge downstream downstream_by_resolver known (key ∷ visiting)

    pub validate_downstream :
        Option Text → Chains → Dict Bound → Dict Bound → List Text → Outcome PyError (Dict Bound)
    validate_downstream challenge no_chains by_resolver known visiting = ok known
    validate_downstream challenge (and_chain c rest) by_resolver known visiting = do
      bound ← signer_of (Dict.get (node_of c).resolver_id by_resolver)
      known' ←
          validate_chain_node challenge c (Dict.put (node_of c).resolver_id bound known) visiting
      validate_downstream challenge rest by_resolver known' visiting

  -- `_validate_chain_signatures`
  unfoldable pub validate_chain_signatures :
      Chain → Endpoint → VerificationResult → Option Text → Outcome PyError (Dict Bound)
  unfolding validate_chain_node known_first fail_if
  validate_chain_signatures c endpoint first challenge = do
    matched ← matches net (node_of c).endpoint endpoint
    fail_if (not matched)
    validate_chain_node challenge c
        (known_first first.resolver_id (Dict.get (codes "agent_public_key") first.evidence)
          endpoint)
        []
