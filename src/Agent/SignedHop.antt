-- ===== src/Agent/SignedHop.antt =====
-- What a signed hop that `verify_hop_verification_result_payload` of agent/verification_chain.py
-- returns is.
use fanxiangdiguijiexi.Prelude.{
  ℕ, ◌≡◌, true, false, Option, some, Text, codes, ok, subst, same_ok, if◌then◌else◌,
}
use fanxiangdiguijiexi.Prelude.Dict
use fanxiangdiguijiexi.Json.{Fields, object}
use fanxiangdiguijiexi.Crypto.Sha.{Sha256}
use fanxiangdiguijiexi.Models.Endpoint.{Endpoint, Net}
use fanxiangdiguijiexi.Verifier.Keys.{Signer}
use fanxiangdiguijiexi.Agent.Chain.{Hop}
use fanxiangdiguijiexi.Agent.Evidence.{
  none_or, missing, is_none, is_terminal, result_text, endpoint_agrees, check_accepted,
  validate_hop_evidence_integrity,
}
use fanxiangdiguijiexi.Agent.Payload.{
  hop_from_dict, validate_signed_window, matches_expected, verify_ed25519_signature,
  verify_hop_verification_result_payload,
}
use fanxiangdiguijiexi.Agent.Sound.{returned, passed}
use fanxiangdiguijiexi.Agent.Signed.{InWindow, not-false, validate_signed_window-InWindow}

-- The evidence of an accepted hop: a resolver, not the end of the chain, whose object, version and
-- root are named, and whose resolver, root and endpoint binding statuses are in order where given.
pub record IsBacked (hop : Hop) : Type 0 where
  pub not_terminal : is_terminal (Dict.get (codes "upstream_type") hop.evidence) ≡ false
  pub object_named : missing (Dict.get (codes "object_hash") hop.evidence) ≡ false
  pub version_named : is_none (Dict.get (codes "object_version") hop.evidence) ≡ false
  pub root_named : missing (Dict.get (codes "state_root") hop.evidence) ≡ false
  pub resolver_active :
      none_or (Dict.get (codes "resolver_status") hop.evidence) (some (codes "ACTIVE")) ≡ true
  pub root_active :
      none_or (Dict.get (codes "root_status") hop.evidence) (some (codes "ACTIVE")) ≡ true
  pub endpoint_matched :
      none_or (Dict.get (codes "endpoint_binding_status") hop.evidence) (some (codes "MATCHED"))
      ≡ true

pub record IsSignedHop (net : Net) (signer : Signer) (payload : Fields) (public_key : Text)
    (now skew : ℕ) (hop : Hop) : Type 0 where
  pub signed : verify_ed25519_signature signer payload public_key ≡ true
  pub is_payload : hop_from_dict net (object payload) ≡ ok hop
  pub window : InWindow hop.issued_at hop.expires_at now skew
  pub same_result :
      none_or
        (Dict.get (codes "verification_result") hop.evidence)
        (some (result_text hop.accepted))
      ≡ true
  pub backed : hop.accepted ≡ true → IsBacked hop

module _ (net : Net) (s : Sha256) where
  check_accepted-IsBacked : (hop : Hop) (u : Unit) → check_accepted net s hop ≡ ok u → IsBacked hop
  unfolding check_accepted
  check_accepted-IsBacked hop u h = passed _ _ h (λ e1 h1. passed _ _ h1 (λ e2 h2.
      passed _ _ h2 (λ e3 h3. passed _ _ h3 (λ e4 h4. passed _ _ h4 (λ e5 h5.
        passed _ _ h5 (λ e6 h6. passed _ _ h6 (λ e7 h7. record {
          not_terminal = e1;
          object_named = e2;
          version_named = e3;
          root_named = e4;
          resolver_active = not-false _ e5;
          root_active = not-false _ e6;
          endpoint_matched = not-false _ e7;
        })))))))

  validate_hop_evidence_integrity-IsBacked :
      (hop : Hop) (u : Unit)
      → validate_hop_evidence_integrity net s hop ≡ ok u
      → (none_or
            (Dict.get (codes "verification_result") hop.evidence)
            (some (result_text hop.accepted))
          ≡ true)
        × (hop.accepted ≡ true → IsBacked hop)
  unfolding validate_hop_evidence_integrity
  validate_hop_evidence_integrity-IsBacked hop u h = passed _ _ h (λ e1 h1. passed _ _ h1 (λ e2 h2.
      returned
        (endpoint_agrees net s (Dict.get (codes "upstream_endpoint") hop.evidence)
          hop.upstream_endpoint)
        _ h2
        (λ a e3 h3. passed _ _ h3 (λ e4 h4. passed _ _ h4 (λ e5 h5.
          returned (if hop.accepted then check_accepted net s hop else ok tt) _ h5
            (λ v e6 h6. (not-false _ e5, λ on. check_accepted-IsBacked hop v (rw on at e6))))))))

  module _ (signer : Signer) where
    -- A hop that `verify_hop_verification_result_payload` returns is the payload's, whose signature
    -- is valid under the given key; the present second is in its signed window; its evidence does not
    -- contradict its verdict; and if it is accepted, its evidence names the object, its version and
    -- its root, is not of a terminal boundary, and its resolver status, root status and endpoint
    -- binding status, where it states them, are ACTIVE, ACTIVE and MATCHED.
    pub verify_hop_verification_result_payload-IsSignedHop :
        (payload : Fields) (public_key : Text) (resolver_id : Option Text)
        (endpoint : Option Endpoint) (now skew : ℕ) (hop : Hop)
        → verify_hop_verification_result_payload net s signer payload public_key resolver_id
            endpoint now skew
          ≡ ok hop
        → IsSignedHop net signer payload public_key now skew hop
    unfolding verify_hop_verification_result_payload
    verify_hop_verification_result_payload-IsSignedHop payload public_key resolver_id endpoint now
          skew hop h =
        passed _ _ h (λ e1 h1. passed _ _ h1 (λ e2 h2.
          returned (hop_from_dict net (object payload)) _ h2 (λ d e3 h3.
            returned (validate_signed_window d.issued_at d.expires_at now skew) _ h3 (λ u4 e4 h4.
              passed _ _ h4 (λ e5 h5.
                returned (matches_expected net s signer d.from_endpoint endpoint) _ h5 (λ m e6 h6.
                  passed _ _ h6 (λ e7 h7.
                    returned (validate_hop_evidence_integrity net s d) _ h7 (λ u8 e8 h8.
                      let (same, backed) = validate_hop_evidence_integrity-IsBacked d u8 e8 in
                      subst (IsSignedHop net signer payload public_key now skew) (same_ok h8)
                        (record {
                          signed = not-false _ e2;
                          is_payload = e3;
                          window = validate_signed_window-InWindow _ _ now skew u4 e4;
                          same_result = same;
                          backed = backed;
                        })))))))))
