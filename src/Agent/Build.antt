-- ===== src/Agent/Build.antt =====
-- agent/distributed_verifier.py: how an Agent builds and signs its verification chain. The verifier,
-- the other Agents and the signing key are parameters; the clock stands still while a chain is built.
use fanxiangdiguijiexi.Agent.Reasons.{reason_text}
use fanxiangdiguijiexi.Prelude.{
  ℕ, ◌+◌, Bool, true, false, not, ◌&&◌, Option, none, some, List, [], ◌∷◌, ◌++◌, map, leb,
  if◌then◌else◌, all, is_empty, Text, codes, text_eq, truthy, Outcome, PyError, ok, raised, ◌>>=◌,
}
use fanxiangdiguijiexi.Prelude.Dict
use fanxiangdiguijiexi.Prelude.Dict.{Dict}
use fanxiangdiguijiexi.Json.{Value, Fields, text}
use fanxiangdiguijiexi.Crypto.Sha.{Sha256}
use fanxiangdiguijiexi.Models.Endpoint.{Endpoint, Net, normalized}
use fanxiangdiguijiexi.Models.Verification.{VerificationResult, Evidence}
use fanxiangdiguijiexi.Cache.Manager.{Cache}
use fanxiangdiguijiexi.Cache.Run.{Run, after}
use fanxiangdiguijiexi.Verifier.Keys.{Signer}
use fanxiangdiguijiexi.Agent.Chain.{Hop, Chain, Chains, chain, no_chains, and_chain, node_of}
use fanxiangdiguijiexi.Agent.Evidence.{normalize_hop_evidence}
use fanxiangdiguijiexi.Agent.Payload.{hop_schema, chain_schema, verify_verification_chain_payload}
use fanxiangdiguijiexi.Agent.Keys.{endpoint_cache_key, agent_url_for, any_matching}
use fanxiangdiguijiexi.Agent.Print.{status_text, sign_hop, sign_chain}

-- `DistributedAgentVerifier`
pub record Agent : Type 0 where
  pub resolver_id : Text
  pub endpoint : Endpoint
  pub upstreams : List Endpoint
  pub config_version : Text
  pub agent_base_urls : Dict Text
  pub terminal_upstreams : List Endpoint
  pub max_age_seconds : ℕ
  pub max_depth : ℕ
  pub max_clock_skew_seconds : ℕ
  pub issuer : Text
  pub key_id : Text

-- What surrounds an Agent: the present second, its verifier, its key, and the other Agents' answers.
pub record Surroundings : Type 0 where
  pub now : ℕ
  pub verify_endpoint : Endpoint → Cache → Run VerificationResult
  pub sign : Value → Text
  pub fetch_verification_chain : Text → Option Text → Outcome PyError Fields
  pub error_text : PyError → Text

-- The lists of `_build_chain`.
pub record Building : Type 0 where
  pub hops : List Hop
  pub downstream_chains : List Chain
  pub terminal_upstreams : List Endpoint
  pub chain_errors : List Text

abbrev pub with_error : Text → Building → Building
with_error e b = record b { chain_errors = b.chain_errors ++ e ∷ [] }

abbrev pub nothing_built : List Text → Building
nothing_built errors = record {
  hops = [];
  downstream_chains = [];
  terminal_upstreams = [];
  chain_errors = errors;
}

abbrev key_text : Option Value → Option Value → Option Text
key_text (some (text key)) (some (text algorithm)) =
    if truthy key && text_eq algorithm (codes "ed25519") then some key else none
key_text _ _ = none

-- The Agent key of a verified identity, which is a text where there is one, if it is an Ed25519 key.
unfoldable pub agent_key : Evidence → Option Text
agent_key e =
    key_text (Dict.get (codes "agent_public_key") e) (Dict.get (codes "agent_key_algorithm") e)

abbrev pub chains_of : List Chain → Chains
chains_of [] = no_chains
chains_of (c ∷ rest) = and_chain c (chains_of rest)

abbrev pub claims : Chain → Bool
claims c = (node_of c).final_result

-- `if not downstream_chain.final_result: chain_errors.append(...)`
abbrev pub claimed : Bool → Text → Building → Building
claimed true key b = b
claimed false key b = with_error (codes "downstream chain rejected for " ++ key) b

-- Whether all that was built is in order.
unfoldable pub in_order : Building → Bool
in_order b = all Hop.accepted b.hops && (all claims b.downstream_chains && is_empty b.chain_errors)

module _ (net : Net) (s : Sha256) (signer : Signer) (agent : Agent) (world : Surroundings) where
  -- `HopVerificationResult.from_verification_result`
  unfoldable pub from_verification_result : Endpoint → VerificationResult → Outcome PyError Hop
  from_verification_result upstream result = do
    from_endpoint ← normalized net agent.endpoint
    upstream_endpoint ← normalized net upstream
    let status = status_text result.status
    let reasons = map reason_text result.reasons
    ok (record {
      from_resolver_id = agent.resolver_id;
      from_endpoint = from_endpoint;
      upstream_endpoint = upstream_endpoint;
      accepted = result.accepted;
      status = status;
      upstream_resolver_id = result.resolver_id;
      reasons = reasons;
      evidence =
          normalize_hop_evidence
            (record {
              from_resolver_id = agent.resolver_id;
              upstream_resolver_id = result.resolver_id;
              accepted = result.accepted;
              status = status;
              reasons = reasons;
              issued_at = world.now;
              expires_at = world.now + agent.max_age_seconds;
              issuer = agent.issuer;
              key_id = agent.key_id;
            })
            upstream_endpoint result.evidence;
      issued_at = world.now;
      expires_at = some (world.now + agent.max_age_seconds);
      issuer = agent.issuer;
      key_id = agent.key_id;
      schema_version = hop_schema;
      signature = none;
    })

  -- The request to the next Agent, and the verification of its answer.
  unfoldable pub fetch_verified :
      Text → Text → Option Text → Endpoint → Option Text → Outcome PyError Chain
  fetch_verified url public_key resolver_id upstream challenge = do
    payload ← world.fetch_verification_chain url challenge
    verify_verification_chain_payload net s signer payload public_key resolver_id (some upstream)
        world.now agent.max_clock_skew_seconds challenge

  abbrev pub with_chain : Text → Outcome PyError Chain → Building → Building
  with_chain key (raised e) b =
      with_error
        (codes "downstream chain verification failed for "
          ++ (key ++ (codes ": " ++ world.error_text e)))
        b
  with_chain key (ok d) b =
      let b' = claimed (node_of d).final_result key b in
      record b' { downstream_chains = b'.downstream_chains ++ d ∷ [] }

  abbrev pub with_key :
      Option Text → Text → Text → Option Text → Endpoint → Option Text → Building → Building
  with_key none key url resolver_id upstream challenge b =
      with_error (codes "verified upstream does not bind Agent Ed25519 public key: " ++ key) b
  with_key (some public_key) key url resolver_id upstream challenge b =
      with_chain key (fetch_verified url public_key resolver_id upstream challenge) b

  -- What follows a hop: nothing, an error, or the chain of the Agent there.
  unfoldable pub follow :
      VerificationResult → Text → Text → Endpoint → Text → Option Text → Building → Building
  unfolding agent_key fetch_verified
  follow result key url upstream own_key challenge b =
      if not result.accepted
      then with_error (codes "upstream verification failed for " ++ key) b
      else if not (truthy url)
      then with_error
          (codes "verified recursive upstream has no configured adjacent Agent: " ++ key) b
      else if text_eq key own_key
      then with_error (codes "agent verification chain loop detected at " ++ key) b
      else with_key (agent_key result.evidence) key url result.resolver_id upstream challenge b

  -- One round of the loop over the upstreams.
  unfoldable pub build_upstream : Text → Option Text → Endpoint → Building → Cache → Run Building
  unfolding from_verification_result follow
  build_upstream own_key challenge endpoint b c =
      after (normalized net endpoint, c)
        (λ upstream c1.
          after (any_matching net agent.terminal_upstreams upstream, c1)
            (λ terminal c2.
              if terminal
              then (
                ok (record b { terminal_upstreams = b.terminal_upstreams ++ upstream ∷ [] }),
                c2,
              )
              else after (world.verify_endpoint upstream c2) (λ result c3.
                after (from_verification_result upstream result, c3)
                  (λ unsigned c4.
                    after (sign_hop net world.sign unsigned, c4)
                      (λ hop c5.
                        after (endpoint_cache_key net upstream, c5)
                          (λ key c6.
                            after (agent_url_for net agent.agent_base_urls upstream, c6)
                              (λ url c7. (
                                ok (
                                    follow result key url upstream own_key challenge
                                      (record b { hops = b.hops ++ hop ∷ [] })),
                                c7,
                              ))))))))

  unfoldable pub build_upstreams :
      Text → Option Text → List Endpoint → Building → Cache → Run Building
  unfolding build_upstream
  build_upstreams own_key challenge [] b c = (ok b, c)
  build_upstreams own_key challenge (e ∷ rest) b c =
      after (build_upstream own_key challenge e b c)
        (λ b1 c1. build_upstreams own_key challenge rest b1 c1)

  -- The chain of what was built.
  unfoldable pub chain_built : Option Text → Building → Bool → Outcome PyError Chain
  chain_built challenge b final_result = do
    endpoint ← normalized net agent.endpoint
    ok (
        chain
          (record {
            resolver_id = agent.resolver_id;
            endpoint = endpoint;
            config_version = agent.config_version;
            challenge = challenge;
            hops = b.hops;
            terminal_upstreams = b.terminal_upstreams;
            chain_errors = b.chain_errors;
            final_result = final_result;
            issued_at = world.now;
            expires_at = none;
            issuer = agent.issuer;
            key_id = agent.key_id;
            schema_version = chain_schema;
            signature = none;
          })
          (chains_of b.downstream_chains))

  -- `_build_chain` at depth 0, at which alone it is called.
  unfoldable pub build_chain : Option Text → Cache → Run Chain
  unfolding build_upstreams chain_built in_order
  build_chain challenge c =
      after (endpoint_cache_key net agent.endpoint, c)
        (λ own_key c1.
          if leb agent.max_depth 0
          then (
            chain_built challenge
                (nothing_built (codes "agent verification chain exceeded max_depth" ∷ [])) false,
            c1,
          )
          else after (build_upstreams own_key challenge agent.upstreams (nothing_built []) c1)
              (λ b c2. (chain_built challenge b (in_order b), c2)))

  -- `build_chain_payload`: the signed chain.
  unfoldable pub build_chain_payload : Option Text → Cache → Run Chain
  unfolding build_chain
  build_chain_payload challenge c =
      after (build_chain challenge c) (λ built c1. (sign_chain net world.sign built, c1))
