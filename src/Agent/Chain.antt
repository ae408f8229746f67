-- ===== src/Agent/Chain.antt =====
-- agent/verification_chain.py: hops and chains, and `validate_verification_chain_semantics`.
use fanxiangdiguijiexi.Prelude.{
  ℕ, ◌+◌, Bool, true, false, not, ◌&&◌, ◌||◌, Option, none, some, List, [], ◌∷◌, ltb, if◌then◌else◌,
  any, is_empty, Text, codes, text_eq, option_eq, given, or_blank, Outcome, PyError, value_error,
  ok, raised, ◌>>=◌, ◌>>◌, raise_if,
}
use fanxiangdiguijiexi.Prelude.Dict
use fanxiangdiguijiexi.Prelude.Dict.{Dict}
use fanxiangdiguijiexi.Json.{is_true}
use fanxiangdiguijiexi.Crypto.Sha.{Sha256}
use fanxiangdiguijiexi.Models.Endpoint.{Endpoint, Net, matches, endpoint_lookup_key}
use fanxiangdiguijiexi.Models.Verification.{Evidence}

-- `HopVerificationResult`
pub record Hop : Type 0 where
  pub from_resolver_id : Text
  pub from_endpoint : Endpoint
  pub upstream_endpoint : Endpoint
  pub accepted : Bool
  pub status : Text
  pub upstream_resolver_id : Option Text
  pub reasons : List Text
  pub evidence : Evidence
  pub issued_at : ℕ
  pub expires_at : Option ℕ
  pub issuer : Text
  pub key_id : Text
  pub schema_version : Text
  pub signature : Option Text

-- `VerificationChain` without its downstream chains.
pub record Node : Type 0 where
  pub resolver_id : Text
  pub endpoint : Endpoint
  pub config_version : Text
  pub challenge : Option Text
  pub hops : List Hop
  pub terminal_upstreams : List Endpoint
  pub chain_errors : List Text
  pub final_result : Bool
  pub issued_at : ℕ
  pub expires_at : Option ℕ
  pub issuer : Text
  pub key_id : Text
  pub schema_version : Text
  pub signature : Option Text

mutual
  pub data Chain : Type 0 where
    chain : Node → Chains → Chain

  pub data Chains : Type 0 where
    no_chains : Chains
    and_chain : Chain → Chains → Chains

abbrev pub node_of : Chain → Node
node_of (chain node downstream) = node

-- The sets and the dict of the loop over the hops.
pub record HopState : Type 0 where
  pub hop_keys : List (Option Text × Text)
  pub accepted_by_resolver : Dict Hop
  pub effective : Bool

-- `if test: raise ValueError(...)`
unfoldable pub refuse_if : Bool → Outcome PyError Unit
refuse_if test = raise_if test value_error

abbrev same_key : Option Text × Text → Option Text × Text → Bool
same_key a b = option_eq a.0 b.0 && text_eq a.1 b.1

abbrev pub same_bool : Bool → Bool → Bool
same_bool true b = b
same_bool false b = not b

-- The end of a round: a hop that is not accepted, or one that must name a new resolver.
abbrev pub count_hop : Hop → HopState → Outcome PyError HopState
count_hop hop st =
    if not hop.accepted
    then ok (record st { effective = false })
    else if not (given hop.upstream_resolver_id)
    then raised value_error
    else if Dict.contains (or_blank hop.upstream_resolver_id) st.accepted_by_resolver
    then raised value_error
    else ok (record st {
      accepted_by_resolver =
          Dict.put (or_blank hop.upstream_resolver_id) hop st.accepted_by_resolver;
    })

-- Whether an Agent's hop has no downstream chain.
unfoldable pub lacks_chain : List Text → Dict Hop → Bool
lacks_chain consumed [] = false
lacks_chain consumed ((id, hop) ∷ rest) =
    (elim (Dict.get (codes "agent_public_key") hop.evidence) [
      | none ↦ false
      | some key ↦ is_true key && not (any (text_eq id) consumed)
    ])
    || lacks_chain consumed rest

-- What the downstream chains leave: whether all are effective, the resolvers seen, and the count.
pub record Below : Type 0 where
  pub effective : Bool
  pub consumed : List Text
  pub nodes : ℕ

module _ (net : Net) (s : Sha256) where
  abbrev pub from_here : Node → Hop → Outcome PyError Bool
  from_here node hop =
      if text_eq hop.from_resolver_id node.resolver_id
      then matches net hop.from_endpoint node.endpoint
      else ok false

  unfoldable pub check_hops : Node → List Hop → HopState → Outcome PyError HopState
  check_hops node [] st = ok st
  check_hops node (hop ∷ rest) st = do
    ours ← from_here node hop
    refuse_if (not ours)
    endpoint_key ← endpoint_lookup_key net s hop.upstream_endpoint
    refuse_if (any (same_key (hop.upstream_resolver_id, endpoint_key)) st.hop_keys)
    st' ←
        count_hop hop
          (record st { hop_keys = (hop.upstream_resolver_id, endpoint_key) ∷ st.hop_keys })
    check_hops node rest st'

  unfoldable pub any_hop_at : Text → List Hop → Outcome PyError Bool
  any_hop_at key [] = ok false
  any_hop_at key (hop ∷ rest) =
      let later = any_hop_at key rest in
      endpoint_lookup_key net s hop.upstream_endpoint >>= λ k.
      if text_eq k key then ok true else later

  unfoldable pub any_chain_at : Text → Chains → Outcome PyError Bool
  any_chain_at key no_chains = ok false
  any_chain_at key (and_chain c rest) =
      let later = any_chain_at key rest in
      endpoint_lookup_key net s (node_of c).endpoint >>= λ k.
      if text_eq k key then ok true else later

  unfoldable pub check_terminals :
      List Hop → Chains → List Text → List Endpoint → Outcome PyError Unit
  unfolding any_hop_at any_chain_at
  check_terminals hops downstream keys [] = ok tt
  check_terminals hops downstream keys (terminal ∷ rest) = do
    key ← endpoint_lookup_key net s terminal
    refuse_if (any (text_eq key) keys)
    at_hop ← any_hop_at key hops
    refuse_if at_hop
    at_chain ← any_chain_at key downstream
    refuse_if at_chain
    check_terminals hops downstream (key ∷ keys) rest

  abbrev parent_hop : Option Hop → Outcome PyError Hop
  parent_hop none = raised value_error
  parent_hop (some hop) = ok hop

  -- The checks of a downstream chain before its own validation.
  unfoldable pub check_parent : Node → Dict Hop → List Text → Node → Outcome PyError Unit
  check_parent parent accepted consumed child = do
    refuse_if (not (option_eq child.challenge parent.challenge))
    refuse_if (any (text_eq child.resolver_id) consumed)
    hop ← parent_hop (Dict.get child.resolver_id accepted)
    matched ← matches net child.endpoint hop.upstream_endpoint
    refuse_if (not matched)

  -- `_validate_chain_node_semantics`: the effective result and the nodes counted so far.
  unfoldable mutual
    unfolding check_hops check_terminals check_parent lacks_chain

    pub validate_node : ℕ → Chain → ℕ → Outcome PyError (Bool × ℕ)
    validate_node max_nodes (chain node downstream) nodes = do
      refuse_if (ltb max_nodes (nodes + 1))
      st ← check_hops node node.hops (record {
        hop_keys = [];
        accepted_by_resolver = [];
        effective = is_empty node.chain_errors;
      })
      check_terminals node.hops downstream [] node.terminal_upstreams
      below ← validate_below max_nodes node st.accepted_by_resolver [] downstream (nodes + 1)
      refuse_if (lacks_chain below.consumed st.accepted_by_resolver)
      refuse_if (not (same_bool node.final_result (st.effective && below.effective)))
      ok (st.effective && below.effective, below.nodes)

    pub validate_below : ℕ → Node → Dict Hop → List Text → Chains → ℕ → Outcome PyError Below
    validate_below max_nodes parent accepted consumed no_chains nodes =
        ok (record { effective = true; consumed = consumed; nodes = nodes })
    validate_below max_nodes parent accepted consumed (and_chain c rest) nodes = do
      check_parent parent accepted consumed (node_of c)
      (here, nodes') ← validate_node max_nodes c nodes
      below ←
          validate_below max_nodes parent accepted ((node_of c).resolver_id ∷ consumed) rest nodes'
      ok (record below { effective = here && below.effective })

  -- `max_nodes` is 64 where the program does not say.
  unfoldable pub validate_verification_chain_semantics : Chain → Outcome PyError Unit
  unfolding validate_node
  validate_verification_chain_semantics c = validate_node 64 c 0 >>= λ r. ok tt
