-- ===== src/Agent/Signed.antt =====
-- What a signed chain that `verify_verification_chain_payload` of agent/verification_chain.py
-- returns is.
use fanxiangdiguijiexi.Prelude.{
  same_ok, ℕ, ◌+◌, ◌≤◌, ◌≡◌, refl, Bool, true, false, not, Option, none, some, arith, ltb, Text, ok,
  Bool-cases, inl, inr, subst,
}
use fanxiangdiguijiexi.Json.{Fields, object}
use fanxiangdiguijiexi.Crypto.Sha.{Sha256}
use fanxiangdiguijiexi.Models.Endpoint.{Endpoint, Net}
use fanxiangdiguijiexi.Verifier.Keys.{Signer}
use fanxiangdiguijiexi.Agent.Chain.{
  Chain, node_of, refuse_if, validate_node, validate_verification_chain_semantics,
}
use fanxiangdiguijiexi.Agent.Payload.{
  chain_from_dict, validate_signed_window, matches_expected, verify_ed25519_signature,
  verify_verification_chain_payload,
}
use fanxiangdiguijiexi.Agent.Sound.{Vouched, size, returned, passed, validate_node-IsValid}

pub not-false : (b : Bool) → not b ≡ false → b ≡ true
not-false true h = refl
not-false false h = absurd (cc h)

-- A window that is open: issued at most `skew` seconds from now, and not over.
pub data InWindow : ℕ → Option ℕ → ℕ → ℕ → Type 0 where
  in_window :
      {issued_at expires_at now skew : ℕ}
      → issued_at ≤ now + skew
      → now ≤ expires_at
      → InWindow issued_at (some expires_at) now skew

pub validate_signed_window-InWindow :
    (issued_at : ℕ) (expires_at : Option ℕ) (now skew : ℕ) (u : Unit)
    → validate_signed_window issued_at expires_at now skew ≡ ok u
    → InWindow issued_at expires_at now skew
unfolding validate_signed_window refuse_if
validate_signed_window-InWindow issued_at none now skew u h =
    absurd (elim (Bool-cases (ltb (now + skew) issued_at)) [
      | inl e ↦ ground (arith, e, h)
      | inr e ↦ ground (arith, e, h)
    ])
validate_signed_window-InWindow issued_at (some t) now skew u h =
    passed (ltb (now + skew) issued_at) _ h
      (λ e h'. in_window (ground (arith, e)) (ground (arith, h')))

-- The signature, the window, and the claims of a signed chain.
pub record IsSigned (net : Net) (signer : Signer) (payload : Fields) (public_key : Text)
    (now skew : ℕ) (c : Chain) : Type 0 where
  pub signed : verify_ed25519_signature signer payload public_key ≡ true
  pub is_payload : chain_from_dict net (object payload) ≡ ok c
  pub window : InWindow (node_of c).issued_at (node_of c).expires_at now skew
  pub nodes : size c ≤ 64
  pub means : (node_of c).final_result ≡ true → Vouched c

module _ (net : Net) (s : Sha256) (signer : Signer) where
  semantics :
      (c : Chain) (u : Unit)
      → validate_verification_chain_semantics net s c ≡ ok u
      → (size c ≤ 64) × ((node_of c).final_result ≡ true → Vouched c)
  unfolding validate_verification_chain_semantics
  semantics c u h = returned (validate_node net s 64 c 0) _ h (λ r e h'.
      let valid = validate_node-IsValid net s 64 c 0 r e in
      (omega (arith, valid.counted, valid.bounded), λ f. valid.means (cc (valid.claimed, f))))

  -- A chain that `verify_verification_chain_payload` returns is the payload's, whose signature is
  -- valid under the given key; the present second is in its signed window; it has at most 64 nodes;
  -- and if it claims a true final result, every node of it has no errors, accepts each of its hops
  -- and claims the same.
  pub verify_verification_chain_payload-IsSigned :
      (payload : Fields) (public_key : Text) (resolver_id : Option Text)
      (endpoint : Option Endpoint) (now skew : ℕ) (challenge : Option Text) (c : Chain)
      → verify_verification_chain_payload net s signer payload public_key resolver_id endpoint now
          skew challenge
        ≡ ok c
      → IsSigned net signer payload public_key now skew c
  unfolding verify_verification_chain_payload
  verify_verification_chain_payload-IsSigned payload public_key resolver_id endpoint now skew
        challenge c h =
      passed _ _ h (λ e1 h1. passed _ _ h1 (λ e2 h2.
        returned (chain_from_dict net (object payload)) _ h2 (λ d e3 h3.
          returned (validate_signed_window (node_of d).issued_at (node_of d).expires_at now skew) _
            h3
            (λ u4 e4 h4. passed _ _ h4 (λ e5 h5.
              returned (matches_expected net s signer (node_of d).endpoint endpoint) _ h5
                (λ m e6 h6. passed _ _ h6 (λ e7 h7. passed _ _ h7 (λ e8 h8.
                  returned (validate_verification_chain_semantics net s d) _ h8 (λ u9 e9 h9.
                    let same : d ≡ c = same_ok h9 in
                    let (few, means) = semantics d u9 e9 in
                    subst (IsSigned net signer payload public_key now skew) same (record {
                      signed = not-false _ e2;
                      is_payload = e3;
                      window = validate_signed_window-InWindow _ _ now skew u4 e4;
                      nodes = few;
                      means = means;
                    }))))))))))
