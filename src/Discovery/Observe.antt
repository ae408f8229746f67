-- ===== src/Discovery/Observe.antt =====
-- wrapper/resolver_chain.py: what the wrapper observes through the first hop's Agent. The verifier, the
-- requests to the Agents and the clock are parameters; a call that raises leaves the provider as it was.
use fanxiangdiguijiexi.Prelude.{
  Bool, false, not, ◌&&◌, Option, none, some, List, [], ◌∷◌, ◌++◌, if◌then◌else◌, Text, codes,
  text_eq, truthy, Outcome, PyError, runtime_error, ok, raised, ◌>>=◌, ◌>>◌,
}
use fanxiangdiguijiexi.Prelude.Dict
use fanxiangdiguijiexi.Prelude.Dict.{Dict}
use fanxiangdiguijiexi.Json.{Value, Fields, text, array, is_true}
use fanxiangdiguijiexi.Crypto.Sha.{Sha256}
use fanxiangdiguijiexi.Models.Endpoint.{Endpoint, Net}
use fanxiangdiguijiexi.Models.Verification.{
  VerificationResult, Evidence, reject, verification_chain_failed,
}
use fanxiangdiguijiexi.Cache.Manager.{Cache}
use fanxiangdiguijiexi.Cache.Run.{Run, after}
use fanxiangdiguijiexi.Verifier.Keys.{Signer}
use fanxiangdiguijiexi.Agent.Chain.{Chain, node_of}
use fanxiangdiguijiexi.Agent.Evidence.{text_values}
use fanxiangdiguijiexi.Agent.Payload.{verify_verification_chain_payload}
use fanxiangdiguijiexi.Agent.Keys.{endpoint_cache_key, agent_url_for, unique_endpoints}
use fanxiangdiguijiexi.Agent.Flatten.{flatten_chain_endpoints, flatten_chain_results}
use fanxiangdiguijiexi.Discovery.Signatures.{Setting, fail_if, key_of, validate_chain_signatures}
use fanxiangdiguijiexi.Discovery.Context.{Provider, record_context_from_chain}

-- The other options of the provider, and what it calls.
pub record Outside : Type 0 where
  pub agent_base_urls : Dict Text
  pub strict : Bool
  pub signature_secret : Text
  pub allow_hmac_fallback : Bool
  pub require_challenge : Bool
  pub distributed_verification : Bool
  pub verify_endpoint : Endpoint → Cache → Run VerificationResult
  pub fetch_identity : Text → Outcome PyError Fields
  pub fetch_verification_chain : Text → Option Text → Outcome PyError Fields

-- What `observed_resolvers_with_verifier` returns, and the provider after it.
pub record Observed : Type 0 where
  pub observed : List Endpoint
  pub results : List VerificationResult
  pub provider : Provider

abbrev pub is_ed25519 : Option Value → Bool
is_ed25519 (some (text algorithm)) = text_eq algorithm (codes "ed25519")
is_ed25519 _ = false

-- `public_key and algorithm == "ed25519"`
abbrev pub ed25519_key : Option Value → Option Value → Option Value
ed25519_key none algorithm = none
ed25519_key (some key) algorithm = if is_true key && is_ed25519 algorithm then some key else none

unfoldable pub bound_key : Evidence → Option Value
bound_key e =
    ed25519_key (Dict.get (codes "agent_public_key") e) (Dict.get (codes "agent_key_algorithm") e)

unfoldable pub first_key : Option Value → Outcome PyError Value
first_key none = raised runtime_error
first_key (some key) = ok key

abbrev pub first_or : Endpoint → List Endpoint → List Endpoint
first_or e [] = e ∷ []
first_or e (o ∷ rest) = o ∷ rest

-- `self.require_challenge and bound_challenge is None`
unfoldable pub lacks_challenge : Bool → Option Text → Bool
lacks_challenge require_challenge none = require_challenge
lacks_challenge require_challenge (some t) = false

-- `if not chain.final_result: results.append(...)`
abbrev pub rejected_chain : Chain → List VerificationResult
rejected_chain c =
    if (node_of c).final_result
    then []
    else reject verification_chain_failed (some (node_of c).resolver_id)
        ((codes "errors", array (text_values (node_of c).chain_errors)) ∷ [])
      ∷ []

module _ (net : Net) (s : Sha256) (signer : Signer) (setting : Setting) (outside : Outside) where
  -- The chain of the first hop's Agent, verified.
  unfoldable pub fetch_first_chain :
      Endpoint → VerificationResult → Option Text → Outcome PyError Chain
  unfolding fail_if first_key key_of bound_key lacks_challenge
  fetch_first_chain first result challenge = do
    fail_if (not result.accepted)
    url ← agent_url_for net outside.agent_base_urls first
    fail_if (not (truthy url))
    key ← first_key (bound_key result.evidence)
    payload ← outside.fetch_verification_chain url challenge
    fail_if (lacks_challenge outside.require_challenge challenge)
    public_key ← key_of key
    verify_verification_chain_payload net s signer payload public_key result.resolver_id
        (some first) setting.now setting.max_clock_skew_seconds challenge

  -- What is observed of a verified chain.
  unfoldable pub observe_chain :
      Text → Endpoint → VerificationResult → Provider → Chain → Outcome PyError Observed
  unfolding flatten_chain_endpoints flatten_chain_results unique_endpoints record_context_from_chain
  observe_chain key first result p c = do
    endpoints ← flatten_chain_endpoints net c
    unique ← unique_endpoints net endpoints
    below ← flatten_chain_results c
    provider ← record_context_from_chain key first c (first_or first unique) p
    ok (record {
      observed = first_or first unique;
      results = (result ∷ below) ++ rejected_chain c;
      provider = provider;
    })

  unfoldable pub observe_result :
      Text → Endpoint → VerificationResult → Option Text → Provider → Outcome PyError Observed
  unfolding fetch_first_chain observe_chain validate_chain_signatures
  observe_result key first result challenge p = do
    c ← fetch_first_chain first result challenge
    known ← validate_chain_signatures net s signer setting c first result challenge
    observe_chain key first result p c

  -- `_observe_distributed_chain`
  unfoldable pub observe_distributed_chain :
      Endpoint → Option Text → Provider → Cache → Run Observed
  unfolding endpoint_cache_key observe_result
  observe_distributed_chain first challenge p c =
      after (endpoint_cache_key net first, c)
        (λ key c1.
          after (outside.verify_endpoint first c1)
            (λ result c2. (observe_result key first result challenge p, c2)))
