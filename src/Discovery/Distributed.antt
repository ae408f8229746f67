-- ===== src/Discovery/Distributed.antt =====
-- What the wrapper knows after `_observe_distributed_chain` of wrapper/resolver_chain.py.
use fanxiangdiguijiexi.Prelude.{
  ◌≡◌, ◌∙◌, true, not, Option, none, some, List, ◌∷◌, ◌++◌, all, all-append, Bool-cases, inl, inr,
  &&-right, Text, truthy, ok, same_ok, ap, sym, subst,
}
use fanxiangdiguijiexi.Json.{Value, Fields, text}
use fanxiangdiguijiexi.Crypto.Sha.{Sha256}
use fanxiangdiguijiexi.Models.Endpoint.{Endpoint, Net}
use fanxiangdiguijiexi.Models.Verification.{VerificationResult, reject}
use fanxiangdiguijiexi.Cache.Manager.{Cache}
use fanxiangdiguijiexi.Cache.Run.{ran}
use fanxiangdiguijiexi.Verifier.Keys.{Signer}
use fanxiangdiguijiexi.Agent.Chain.{Chain, node_of}
use fanxiangdiguijiexi.Agent.Sound.{Vouched, returned}
use fanxiangdiguijiexi.Agent.Signed.{
  not-false, IsSigned, verify_verification_chain_payload-IsSigned,
}
use fanxiangdiguijiexi.Agent.Keys.{endpoint_cache_key, agent_url_for, unique_endpoints}
use fanxiangdiguijiexi.Agent.Flatten.{flatten_chain_endpoints, flatten_chain_results}
use fanxiangdiguijiexi.Discovery.Signatures.{Setting, key_of, validate_chain_signatures}
use fanxiangdiguijiexi.Discovery.Introduced.{unfailed, key_of-text}
use fanxiangdiguijiexi.Discovery.Trust.{StartsTrust, validate_chain_signatures-StartsTrust}
use fanxiangdiguijiexi.Discovery.Context.{Provider, record_context_from_chain}
use fanxiangdiguijiexi.Discovery.Observe.{
  Outside, Observed, bound_key, first_key, lacks_challenge, first_or, rejected_chain,
  fetch_first_chain, observe_chain, observe_result, observe_distributed_chain,
}

first_key-some : (found : Option Value) {key : Value} → first_key found ≡ ok key → found ≡ some key
unfolding first_key
first_key-some none h = absurd (cc h)
first_key-some (some key) h = ap some (same_ok h)

-- Results with a rejection at their end are not all accepted.
accepted-final :
    (c : Chain) (results : List VerificationResult)
    → all VerificationResult.accepted (results ++ rejected_chain c) ≡ true
    → (node_of c).final_result ≡ true
unfolding reject
accepted-final c results h = elim (Bool-cases (node_of c).final_result) [
  | inl on ↦ on
  | inr off ↦
      let split = all-append VerificationResult.accepted results (rejected_chain c) in
      let last : all VerificationResult.accepted (rejected_chain c) ≡ true =
        &&-right (all VerificationResult.accepted results) _ (sym split ∙ h) in
      absurd (cc (rw off at last))
]

module _ (net : Net) (s : Sha256) (signer : Signer) (setting : Setting) (outside : Outside) where
  -- The chain of the first hop's Agent as it was fetched: signed under the key that the accepted
  -- verification of the first hop binds.
  pub record IsFetched (first : Endpoint) (result : VerificationResult) (challenge : Option Text)
      (c : Chain) : Type 0 where
    pub accepted : result.accepted ≡ true
    pub url : Text
    pub payload : Fields
    pub fetched : outside.fetch_verification_chain url challenge ≡ ok payload
    pub public_key : Text
    pub bound : bound_key result.evidence ≡ some (text public_key)
    pub signed : IsSigned net signer payload public_key setting.now setting.max_clock_skew_seconds c

  fetch_first_chain-IsFetched :
      (first : Endpoint) (result : VerificationResult) (challenge : Option Text) (c : Chain)
      → fetch_first_chain net s signer setting outside first result challenge ≡ ok c
      → IsFetched first result challenge c
  unfolding fetch_first_chain
  fetch_first_chain-IsFetched first result challenge c h =
      unfailed (not result.accepted) _ h (λ e1 h1.
        returned (agent_url_for net outside.agent_base_urls first) _ h1 (λ url e2 h2.
          unfailed (not (truthy url)) _ h2 (λ e3 h3.
            returned (first_key (bound_key result.evidence)) _ h3 (λ key e4 h4.
              returned (outside.fetch_verification_chain url challenge) _ h4 (λ payload e5 h5.
                unfailed (lacks_challenge outside.require_challenge challenge) _ h5 (λ e6 h6.
                  returned (key_of key) _ h6 (λ public_key e7 h7. record {
                    accepted = not-false result.accepted e1;
                    url = url;
                    payload = payload;
                    fetched = e5;
                    public_key = public_key;
                    bound = first_key-some _ e4 ∙ ap some (key_of-text key e7);
                    signed =
                        verify_verification_chain_payload-IsSigned net s signer payload public_key _
                          _ _ _ _ c h7;
                  })))))))

  -- What stands behind the results of an observation.
  pub record IsObserved (first : Endpoint) (challenge : Option Text) (o : Observed) : Type 0 where
    pub before : Cache
    pub result : VerificationResult
    pub verified : (outside.verify_endpoint first before).0 ≡ ok result
    pub at_head : (rest : List VerificationResult) × (o.results ≡ result ∷ rest)
    pub c : Chain
    pub is_fetched : IsFetched first result challenge c
    pub trust : StartsTrust net s signer setting c first result
    pub means : all VerificationResult.accepted o.results ≡ true → Vouched c

  observe_chain-results :
      {C : Type 0} (key : Text) (first : Endpoint) (result : VerificationResult) (p : Provider)
      (c : Chain) (o : Observed)
      → observe_chain net s signer setting outside key first result p c ≡ ok o
      → ((below : List VerificationResult) → (result ∷ below) ++ rejected_chain c ≡ o.results → C)
      → C
  unfolding observe_chain
  observe_chain-results key first result p c o h k =
      returned (flatten_chain_endpoints net c) _ h (λ endpoints e1 h1.
        returned (unique_endpoints net endpoints) _ h1 (λ unique e2 h2.
          returned (flatten_chain_results c) _ h2 (λ below e3 h3.
            returned (record_context_from_chain key first c (first_or first unique) p) _ h3
              (λ provider e4 h4. k below (ap Observed.results (same_ok h4))))))

  observe_result-IsObserved :
      (key : Text) (first : Endpoint) (result : VerificationResult) (challenge : Option Text)
      (p : Provider) (before : Cache) (o : Observed)
      → (outside.verify_endpoint first before).0 ≡ ok result
      → observe_result net s signer setting outside key first result challenge p ≡ ok o
      → IsObserved first challenge o
  unfolding observe_result
  observe_result-IsObserved key first result challenge p before o e h =
      returned (fetch_first_chain net s signer setting outside first result challenge) _ h
        (λ c e1 h1.
          returned (validate_chain_signatures net s signer setting c first result challenge) _ h1
            (λ known e2 h2. observe_chain-results key first result p c o h2 (λ below e3.
              let is_fetched = fetch_first_chain-IsFetched first result challenge c e1 in
              record {
                before = before;
                result = result;
                verified = e;
                at_head = (below ++ rejected_chain c, sym e3);
                c = c;
                is_fetched = is_fetched;
                trust =
                    validate_chain_signatures-StartsTrust net s signer setting c first result
                      challenge known e2;
                means = λ all_accepted. is_fetched.signed.means (
                    accepted-final c (result ∷ below) (
                      subst (λ r. all VerificationResult.accepted r ≡ true) (sym e3) all_accepted));
              })))

  -- When `_observe_distributed_chain` returns, its first result is the verifier's, which accepts the
  -- first hop and binds an Ed25519 Agent key; the chain that the Agent there sent is signed under that
  -- key and in its window, and every chain below it is signed under a key that an accepted and signed
  -- hop above it binds; and when all its results are accepted, every node of the chain has no errors,
  -- accepts each of its hops and claims a true result.
  pub observe_distributed_chain-IsObserved :
      (first : Endpoint) (challenge : Option Text) (p : Provider) (c : Cache) (o : Observed)
      → (observe_distributed_chain net s signer setting outside first challenge p c).0 ≡ ok o
      → IsObserved first challenge o
  unfolding observe_distributed_chain
  observe_distributed_chain-IsObserved first challenge p c o h =
      ran (endpoint_cache_key net first, c) _ h
        (λ key e1 h1.
          ran (outside.verify_endpoint first c) _ h1
            (λ result e2 h2. observe_result-IsObserved key first result challenge p c o e2 h2))
