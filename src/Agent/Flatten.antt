-- ===== src/Agent/Flatten.antt =====
-- agent/distributed_verifier.py: the endpoints and the results of a whole chain.
use fanxiangdiguijiexi.Prelude.{
  List, [], ◌∷◌, ◌++◌, map, is_empty, if◌then◌else◌, some, codes, Outcome, PyError, ok, ◌>>=◌,
}
use fanxiangdiguijiexi.Json.{array}
use fanxiangdiguijiexi.Models.Endpoint.{Endpoint, Net}
use fanxiangdiguijiexi.Models.Verification.{VerificationResult, reject, verification_chain_failed}
use fanxiangdiguijiexi.Agent.Chain.{Hop, Node, Chain, Chains, chain, no_chains, and_chain}
use fanxiangdiguijiexi.Agent.Evidence.{text_values}
use fanxiangdiguijiexi.Agent.Keys.{unique_endpoints}
use fanxiangdiguijiexi.Agent.Print.{to_verification_result}

unfoldable pub hop_results : List Hop → Outcome PyError (List VerificationResult)
unfolding to_verification_result
hop_results [] = ok []
hop_results (hop ∷ rest) = do r ← to_verification_result hop; rs ← hop_results rest; ok (r ∷ rs)

-- `if chain.chain_errors: results.append(...)`
abbrev pub error_results : Node → List VerificationResult
error_results node =
    if is_empty node.chain_errors
    then []
    else reject verification_chain_failed (some node.resolver_id)
        ((codes "errors", array (text_values node.chain_errors)) ∷ [])
      ∷ []

unfoldable mutual
  unfolding hop_results

  pub flatten_chain_results : Chain → Outcome PyError (List VerificationResult)
  flatten_chain_results (chain node downstream) = do
    hops ← hop_results node.hops
    below ← results_below downstream
    ok (hops ++ (below ++ error_results node))

  pub results_below : Chains → Outcome PyError (List VerificationResult)
  results_below no_chains = ok []
  results_below (and_chain c rest) = do
    rs ← flatten_chain_results c
    more ← results_below rest
    ok (rs ++ more)

module _ (net : Net) where
  unfoldable mutual
    unfolding unique_endpoints

    pub flatten_chain_endpoints : Chain → Outcome PyError (List Endpoint)
    flatten_chain_endpoints (chain node downstream) = do
      below ← endpoints_below downstream
      unique_endpoints net (node.endpoint ∷ (map Hop.upstream_endpoint node.hops ++ below))

    pub endpoints_below : Chains → Outcome PyError (List Endpoint)
    endpoints_below no_chains = ok []
    endpoints_below (and_chain c rest) = do
      here ← flatten_chain_endpoints c
      more ← endpoints_below rest
      ok (here ++ more)
