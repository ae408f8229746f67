-- ===== src/Agent/Print.antt =====
-- agent/verification_chain.py: hops and chains as JSON, and the conversions of a hop from and to a
-- verification result.
use fanxiangdiguijiexi.Prelude.{
  ℕ, ◌+◌, Bool, ◌||◌, Option, none, some, List, [], ◌∷◌, if◌then◌else◌, Text, codes, or_blank,
  Outcome, PyError, type_error, ok, raised, ◌>>=◌,
}
use fanxiangdiguijiexi.Prelude.Dict
use fanxiangdiguijiexi.Json.{
  Value, Items, Fields, num, text, bool, array, object, nil, cons, end, field,
}
use fanxiangdiguijiexi.Models.Endpoint.{Endpoint, Net, normalized, to_dict}
use fanxiangdiguijiexi.Models.Verification.{
  VerificationResult, Evidence, Reason, Status, accept, reject, hop_verification_failed,
  other_reason,
}
use fanxiangdiguijiexi.Models.Verification
use fanxiangdiguijiexi.Cache.Manager.{accept_with}
use fanxiangdiguijiexi.Agent.Chain.{Hop, Node, Chain, Chains, chain, no_chains, and_chain}
use fanxiangdiguijiexi.Agent.Evidence.{option_value, text_values}

abbrev pub status_text : Status → Text
status_text Verification.verified = codes "VERIFIED"
status_text Verification.refreshing = codes "REFRESHING"
status_text Verification.rejected = codes "REJECTED"
status_text (Verification.other t) = t

-- `int(expires_at if expires_at is not None else issued_at + 30)`
abbrev pub expiry : Option ℕ → ℕ → ℕ
expiry none issued_at = issued_at + 30
expiry (some t) issued_at = t

abbrev fields_from : Evidence → Fields
fields_from [] = end
fields_from ((k, v) ∷ rest) = field k v (fields_from rest)

abbrev pub signature_field : Option Text → Fields
signature_field none = end
signature_field (some t) = field (codes "signature") (text t) end

-- `self.upstream_resolver_id or ""` and `self.reasons[0] if self.reasons else ...`
abbrev first_text : List Text → Reason
first_text [] = hop_verification_failed
first_text (t ∷ rest) = other_reason t

-- Keywords of `reject` that evidence must not hold.
abbrev reject_clash : Evidence → Bool
reject_clash e =
    Dict.contains (codes "reason") e
    || (Dict.contains (codes "resolver_id") e || Dict.contains (codes "cls") e)

-- `HopVerificationResult.to_verification_result`
unfoldable pub to_verification_result : Hop → Outcome PyError VerificationResult
unfolding accept_with reject
to_verification_result hop =
    if hop.accepted
    then accept_with (or_blank hop.upstream_resolver_id) (Verification.other hop.status)
        hop.evidence
    else if reject_clash hop.evidence
    then raised type_error
    else ok (reject (first_text hop.reasons) hop.upstream_resolver_id hop.evidence)

module _ (net : Net) where
  -- `HopVerificationResult.to_dict`, but for the key "signature".
  unfoldable pub hop_fields : Hop → Fields → Outcome PyError Value
  hop_fields hop signature = do
    from_endpoint ← normalized net hop.from_endpoint
    upstream_endpoint ← normalized net hop.upstream_endpoint
    ok (
        object (
          field (codes "schema_version") (text hop.schema_version) (
            field (codes "from_resolver_id") (text hop.from_resolver_id) (
              field (codes "from_endpoint") (to_dict from_endpoint) (
                field (codes "upstream_endpoint") (to_dict upstream_endpoint) (
                  field (codes "upstream_resolver_id") (option_value hop.upstream_resolver_id) (
                    field (codes "accepted") (bool hop.accepted) (
                      field (codes "status") (text hop.status) (
                        field (codes "reasons") (array (text_values hop.reasons)) (
                          field (codes "evidence") (object (fields_from hop.evidence)) (
                            field (codes "issued_at") (num hop.issued_at) (
                              field (codes "expires_at") (num (expiry hop.expires_at hop.issued_at))
                                (field (codes "issuer") (text hop.issuer)
                                  (field (codes "key_id") (text hop.key_id) signature))))))))))))))

  unfoldable pub hop_to_dict : Hop → Outcome PyError Value
  unfolding hop_fields
  hop_to_dict hop = hop_fields hop (signature_field hop.signature)

  unfoldable pub hops_to_items : List Hop → Outcome PyError Items
  unfolding hop_to_dict
  hops_to_items [] = ok nil
  hops_to_items (hop ∷ rest) = do v ← hop_to_dict hop; vs ← hops_to_items rest; ok (cons v vs)

  unfoldable pub endpoints_to_items : List Endpoint → Outcome PyError Items
  endpoints_to_items [] = ok nil
  endpoints_to_items (e ∷ rest) = do
    n ← normalized net e
    vs ← endpoints_to_items rest
    ok (cons (to_dict n) vs)

  -- `VerificationChain.to_dict`, given the downstream chains and the key "signature".
  unfoldable pub node_to_dict : Node → Outcome PyError Items → Fields → Outcome PyError Value
  unfolding hops_to_items endpoints_to_items
  node_to_dict node below signature = do
    endpoint ← normalized net node.endpoint
    hops ← hops_to_items node.hops
    downstream_chains ← below
    terminal_upstreams ← endpoints_to_items node.terminal_upstreams
    ok (
        object (
          field (codes "schema_version") (text node.schema_version) (
            field (codes "resolver_id") (text node.resolver_id) (
              field (codes "endpoint") (to_dict endpoint) (
                field (codes "config_version") (text node.config_version) (
                  field (codes "challenge") (option_value node.challenge) (
                    field (codes "hops") (array hops) (
                      field (codes "downstream_chains") (array downstream_chains) (
                        field (codes "terminal_upstreams") (array terminal_upstreams) (
                          field (codes "chain_errors") (array (text_values node.chain_errors)) (
                            field (codes "final_result") (bool node.final_result) (
                              field (codes "issued_at") (num node.issued_at) (
                                field (codes "expires_at")
                                  (num (expiry node.expires_at node.issued_at))
                                  (field (codes "issuer") (text node.issuer) (
                                    field (codes "key_id") (text node.key_id)
                                      signature)))))))))))))))

  unfoldable mutual
    unfolding node_to_dict

    pub chain_to_dict : Chain → Outcome PyError Value
    chain_to_dict (chain node downstream) =
        node_to_dict node (chains_to_items downstream) (signature_field node.signature)

    pub chains_to_items : Chains → Outcome PyError Items
    chains_to_items no_chains = ok nil
    chains_to_items (and_chain c rest) = do
      v ← chain_to_dict c
      vs ← chains_to_items rest
      ok (cons v vs)

  -- `sign_verification_chain`: the signature is of the chain without one.
  unfoldable pub sign_chain : (Value → Text) → Chain → Outcome PyError Chain
  unfolding chain_to_dict
  sign_chain sign (chain node downstream) = do
    unsigned ← node_to_dict node (chains_to_items downstream) end
    ok (chain (record node { signature = some (sign unsigned) }) downstream)

  -- `sign_hop_verification_result`
  unfoldable pub sign_hop : (Value → Text) → Hop → Outcome PyError Hop
  unfolding hop_fields
  sign_hop sign hop = do
    unsigned ← hop_fields hop end
    ok (record hop { signature = some (sign unsigned) })
