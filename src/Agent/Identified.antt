-- ===== src/Agent/Identified.antt =====
-- What an identity that agent/identity.py verifies is.
use fanxiangdiguijiexi.Prelude.{
  ℕ, ◌≡◌, ◌∙◌, ap, true, not, Option, Text, codes, text_eq, text_eq→eq, ok, subst, same_ok,
}
use fanxiangdiguijiexi.Json.{Fields}
use fanxiangdiguijiexi.Models.Endpoint.{Endpoint, Net}
use fanxiangdiguijiexi.Verifier.Keys.{Signer}
use fanxiangdiguijiexi.Agent.Payload.{verify_ed25519_signature, validate_signed_window}
use fanxiangdiguijiexi.Agent.Sound.{returned, passed}
use fanxiangdiguijiexi.Agent.Signed.{InWindow, not-false, validate_signed_window-InWindow}
use fanxiangdiguijiexi.Agent.Identity.{
  AgentIdentity, identity_from_dict, expected_match, validate_agent_identity_payload,
  verify_signed_identity, verify_agent_identity_payload_with_public_key,
}

module _ (net : Net) where
  -- The identity of a payload: healthy, in its window, and at the expected endpoint.
  pub record IsIdentity (payload : Fields) (endpoint : Option Endpoint) (now skew : ℕ)
      (a : AgentIdentity) : Type 0 where
    pub is_payload : identity_from_dict net payload ≡ ok a
    pub healthy : a.health ≡ codes "ok"
    pub window : InWindow a.issued_at a.expires_at now skew
    pub at_endpoint : expected_match net a.endpoint endpoint ≡ ok true

  validate_agent_identity_payload-IsIdentity :
      (payload : Fields) (endpoint : Option Endpoint) (now skew : ℕ) (a : AgentIdentity)
      → validate_agent_identity_payload net payload endpoint now skew ≡ ok a
      → IsIdentity payload endpoint now skew a
  unfolding validate_agent_identity_payload
  validate_agent_identity_payload-IsIdentity payload endpoint now skew a h =
      returned (identity_from_dict net payload) _ h (λ b e1 h1.
        passed (not (text_eq b.health (codes "ok"))) _ h1 (λ e2 h2.
          returned (validate_signed_window b.issued_at b.expires_at now skew) _ h2 (λ u e3 h3.
            returned (expected_match net b.endpoint endpoint) _ h3 (λ m e4 h4.
              passed (not m) _ h4 (λ e5 h5.
                subst (IsIdentity payload endpoint now skew) (same_ok h5) (record {
                  is_payload = e1;
                  healthy = text_eq→eq b.health (codes "ok") (not-false _ e2);
                  window = validate_signed_window-InWindow b.issued_at b.expires_at now skew u e3;
                  at_endpoint = e4 ∙ ap ok (not-false m e5);
                }))))))

  -- An identity that `verify_agent_identity_payload_with_public_key` returns is the payload's, whose
  -- signature is valid under the given key; it says that the Agent is healthy; the present second is in
  -- its signed window; and its endpoint matches the expected one, if any.
  pub verify_agent_identity_payload_with_public_key-IsIdentity :
      (signer : Signer) (payload : Fields) (public_key : Text) (endpoint : Option Endpoint)
      (now skew : ℕ) (a : AgentIdentity)
      → verify_agent_identity_payload_with_public_key net signer payload public_key endpoint now
          skew
        ≡ ok a
      → (verify_ed25519_signature signer payload public_key ≡ true)
        × IsIdentity payload endpoint now skew a
  unfolding verify_agent_identity_payload_with_public_key verify_signed_identity
  verify_agent_identity_payload_with_public_key-IsIdentity signer payload public_key endpoint now
        skew a h =
      passed _ _ h (λ e1 h1.
        passed (not (verify_ed25519_signature signer payload public_key)) _ h1 (λ e2 h2. (
          not-false _ e2,
          validate_agent_identity_payload-IsIdentity payload endpoint now skew a h2,
        )))
