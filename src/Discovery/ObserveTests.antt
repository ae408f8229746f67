-- ===== src/Discovery/ObserveTests.antt =====
-- The wrapper observes a resolver whose Agent introduces the next one, and releases its answer.
use fanxiangdiguijiexi.Agent.Toy.{trusting}
use fanxiangdiguijiexi.Cache.Toy.{empty_cache}
use fanxiangdiguijiexi.Prelude.{
  ◌+◌, ◌≤◌, arith, ◌≡◌, refl, true, some, Option, List, [], ◌∷◌, Text, codes, length, Outcome,
  PyError, ok, strip, lower, decimal,
}
use fanxiangdiguijiexi.Prelude.Dict
use fanxiangdiguijiexi.Prelude.Dict.{Dict}
use fanxiangdiguijiexi.Json.{text}
use fanxiangdiguijiexi.Crypto.Toy.{toy_sha}
use fanxiangdiguijiexi.Models.Endpoint.{normalized, canonical_ip}
use fanxiangdiguijiexi.Models.Endpoint.Toy.{toy_net, udp_endpoint, address_53}
use fanxiangdiguijiexi.Models.Verification
use fanxiangdiguijiexi.Models.Verification.{VerificationResult}
use fanxiangdiguijiexi.Cache.Manager.{accept_with}
use fanxiangdiguijiexi.Agent.Keys.{
  endpoint_cache_key, cache_key_of, unique_endpoints, put_endpoint, same_identity,
}
use fanxiangdiguijiexi.Agent.Flatten.{flatten_chain_endpoints, flatten_chain_results, hop_results}
use fanxiangdiguijiexi.Discovery.Signatures.{
  fail_if, key_of, signer_of, bind_hop, check_signed_hops, validate_chain_node,
}
use fanxiangdiguijiexi.Discovery.Trust.{StartsTrust, validate_chain_signatures-StartsTrust}
use fanxiangdiguijiexi.Discovery.Context.{
  record_context_from_chain, update_context, rolls_back, identity_of,
}
use fanxiangdiguijiexi.Discovery.Versions.{chain_config_version}
use fanxiangdiguijiexi.Discovery.Observe.{observe_chain}
use fanxiangdiguijiexi.Discovery.Discover.{Found, discover}
use fanxiangdiguijiexi.Discovery.Distributed.{IsObserved, observe_distributed_chain-IsObserved}
use fanxiangdiguijiexi.Discovery.Termination.{discover-enough}
use fanxiangdiguijiexi.Discovery.Depth.{height, validate_chain_node-height}
use fanxiangdiguijiexi.Prelude.{same_ok, sym, ap, ℕ}
use fanxiangdiguijiexi.Models.Endpoint.{Endpoint}
use fanxiangdiguijiexi.Cache.Store.{result_is_current}
use fanxiangdiguijiexi.Wrapper.Coordinator.{
  World, UpstreamResolver, DnsProcessResult, coordinate, try_all, try_upstream, gate, all_current,
  all_accepted, verify_all, invalidate_all,
}
use fanxiangdiguijiexi.Discovery.Released.{Provides, ReleasedOnChain, coordinate-ReleasedOnChain}
use fanxiangdiguijiexi.Discovery.Sample.{
  setting, chain_a, verified_a, nonce, good_a, good_b, good_hop, known_b, good_chain, outside,
  fresh, observation, whole_run,
}

validate_chain_signatures-StartsTrust_example :
    StartsTrust toy_net toy_sha trusting setting chain_a (udp_endpoint address_53) verified_a
validate_chain_signatures-StartsTrust_example =
    validate_chain_signatures-StartsTrust toy_net toy_sha trusting setting chain_a
      (udp_endpoint address_53) verified_a nonce known_b good_chain

good_node :
    validate_chain_node toy_net toy_sha trusting setting nonce chain_a
      ((codes "a", record { public_key = text (codes "key-a"); endpoint = udp_endpoint address_53 })
        ∷ [])
      []
    ≡ ok known_b
unfolding validate_chain_node fail_if normalized canonical_ip strip lower endpoint_cache_key
    cache_key_of decimal signer_of key_of check_signed_hops bind_hop Dict.get Dict.put
good_node = rw (good_a, good_hop, good_b) refl

validate_chain_node-height_example : height chain_a + length {A = Text} [] ≤ 4
validate_chain_node-height_example =
    validate_chain_node-height toy_net toy_sha trusting setting nonce chain_a
      ((codes "a", record { public_key = text (codes "key-a"); endpoint = udp_endpoint address_53 })
        ∷ [])
      known_b [] good_node

observe_distributed_chain-IsObserved_example :
    IsObserved toy_net toy_sha trusting setting outside (udp_endpoint address_53) nonce observation
observe_distributed_chain-IsObserved_example =
    observe_distributed_chain-IsObserved toy_net toy_sha trusting setting outside
      (udp_endpoint address_53) nonce fresh empty_cache observation whole_run

abbrev nothing_found : Found
nothing_found = record { observed = []; results = []; identities = [] }

discover-enough_example :
    discover toy_net toy_sha trusting setting outside 5 0 []
      (udp_endpoint address_53)
      nothing_found
      empty_cache
    ≡ discover toy_net toy_sha trusting setting outside 9 0 []
        (udp_endpoint address_53)
        nothing_found
        empty_cache
discover-enough_example =
    discover-enough toy_net toy_sha trusting setting outside 5 9 0 [] (udp_endpoint address_53)
      nothing_found empty_cache (omega arith) (omega arith) (omega arith)

abbrev upstream : UpstreamResolver
upstream = record { ip = address_53; port = 53; transport = codes "udp" }

-- A coordinator that observes through the first resolver's Agent.
abbrev world : World
world = record {
  strict_observation = true;
  distributed_verification = true;
  endpoint = λ u. ok (udp_endpoint address_53);
  observe = λ u. ok (observation.observed, some observation.results);
  invalidated = λ u. [];
  forward = λ u. ok (1 ∷ 2 ∷ 3 ∷ []);
  verify_endpoint = λ e c. (ok verified_a, c);
  context_resolver_id = λ u. some (codes "a");
  meanwhile = λ c. c;
}

pair_eq :
    {es other : List Endpoint} {pre rest : Option (List VerificationResult)}
    → ◌≡◌ {A = Outcome PyError (List Endpoint × Option (List VerificationResult))}
        (ok (other, rest))
        (ok (es, pre))
    → (es ≡ other) × (pre ≡ rest)
pair_eq h = let it = same_ok h in (sym (ap (λ p. p.0) it), sym (ap (λ p. p.1) it))

provides : Provides toy_net toy_sha trusting setting outside world nonce
provides = record {
  distributed = refl;
  observes = λ u es pre h.
      let (seen, results) = pair_eq h in
      (udp_endpoint address_53, fresh, empty_cache, observation, refl, whole_run, seen, results);
}

abbrev query : List ℕ
query = 0 ∷ 1 ∷ 2 ∷ 3 ∷ []

abbrev released : DnsProcessResult
released = record { response = 1 ∷ 2 ∷ 3 ∷ []; accepted = true; upstream = some upstream }

released_run : (coordinate toy_net toy_sha world query (upstream ∷ []) empty_cache).0 ≡ ok released
unfolding coordinate try_all try_upstream gate all_current all_accepted verify_all invalidate_all
    result_is_current Dict.get observe_chain flatten_chain_endpoints flatten_chain_results
    hop_results unique_endpoints put_endpoint same_identity normalized canonical_ip strip lower
    record_context_from_chain update_context rolls_back identity_of chain_config_version Dict.put
    accept_with Verification.accept
released_run = refl

coordinate-ReleasedOnChain_example :
    ReleasedOnChain toy_net toy_sha trusting setting outside world nonce (upstream ∷ []) released
coordinate-ReleasedOnChain_example =
    coordinate-ReleasedOnChain toy_net toy_sha trusting setting outside world nonce query
      (upstream ∷ []) empty_cache released provides released_run refl
