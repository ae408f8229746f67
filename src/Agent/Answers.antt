-- ===== src/Agent/Answers.antt =====
-- The challenge in `verify_verification_chain_payload` of agent/verification_chain.py.
use fanxiangdiguijiexi.Prelude.{
  ℕ, ◌+◌, ◌≡◌, refl, Bool, Option, some, List, [], Text, option_eq_iff, ok, subst, same_ok,
}
use fanxiangdiguijiexi.Prelude.Dict.{Dict}
use fanxiangdiguijiexi.Json.{Fields, object}
use fanxiangdiguijiexi.Crypto.Sha.{Sha256}
use fanxiangdiguijiexi.Models.Endpoint.{Endpoint, Net}
use fanxiangdiguijiexi.Verifier.Keys.{Signer}
use fanxiangdiguijiexi.Agent.Chain.{
  Hop, Node, Chain, Chains, chain, no_chains, and_chain, node_of, Below, check_hops,
  check_terminals, check_parent, validate_node, validate_below,
  validate_verification_chain_semantics,
}
use fanxiangdiguijiexi.Agent.Payload.{
  chain_from_dict, validate_signed_window, matches_expected, other_challenge,
  verify_verification_chain_payload,
}
use fanxiangdiguijiexi.Agent.Sound.{returned, passed}
use fanxiangdiguijiexi.Agent.Signed.{not-false}

-- Every node of a chain holds the challenge.
mutual
  pub data Answers (challenge : Option Text) : Chain → Type 0 where
    answers :
        {node : Node} {downstream : Chains}
        → node.challenge ≡ challenge
        → EachAnswers challenge downstream
        → Answers challenge (chain node downstream)

  pub data EachAnswers (challenge : Option Text) : Chains → Type 0 where
    none_below : EachAnswers challenge no_chains
    more_below :
        {c : Chain} {rest : Chains}
        → Answers challenge c
        → EachAnswers challenge rest
        → EachAnswers challenge (and_chain c rest)

module _ (net : Net) (s : Sha256) where
  check_parent-challenge :
      (parent : Node) (accepted : Dict Hop) (consumed : List Text) (child : Node) (u : Unit)
      → check_parent net s parent accepted consumed child ≡ ok u
      → child.challenge ≡ parent.challenge
  unfolding check_parent
  check_parent-challenge parent accepted consumed child u h =
      passed _ _ h (λ e h1. (option_eq_iff child.challenge parent.challenge).0 (not-false _ e))

  mutual
    unfolding validate_node validate_below

    node-Answers :
        (max_nodes : ℕ) (c : Chain) (nodes : ℕ) (r : Bool × ℕ)
        → validate_node net s max_nodes c nodes ≡ ok r
        → Answers (node_of c).challenge c
    node-Answers max_nodes (chain node downstream) nodes r h = passed _ _ h (λ e1 h1.
        returned (check_hops net s node node.hops _) _ h1 (λ st e2 h2.
          returned (check_terminals net s node.hops downstream [] node.terminal_upstreams) _ h2
            (λ u e3 h3.
              returned
                (validate_below net s max_nodes node st.accepted_by_resolver [] downstream
                  (nodes + 1))
                _ h3
                (λ below e4 h4. answers refl (
                  below-EachAnswers max_nodes node st.accepted_by_resolver [] downstream (nodes + 1)
                    below e4)))))

    below-EachAnswers :
        (max_nodes : ℕ) (parent : Node) (accepted : Dict Hop) (consumed : List Text) (cs : Chains)
        (nodes : ℕ) (b : Below)
        → validate_below net s max_nodes parent accepted consumed cs nodes ≡ ok b
        → EachAnswers parent.challenge cs
    below-EachAnswers max_nodes parent accepted consumed no_chains nodes b h = none_below
    below-EachAnswers max_nodes parent accepted consumed (and_chain c rest) nodes b h =
        returned (check_parent net s parent accepted consumed (node_of c)) _ h (λ u e1 h1.
          returned (validate_node net s max_nodes c nodes) _ h1 (λ here e2 h2.
            returned (validate_below net s max_nodes parent accepted _ rest here.1) _ h2
              (λ below e3 h3.
                more_below
                  (subst (λ t. Answers t c)
                    (check_parent-challenge parent accepted consumed (node_of c) u e1)
                    (node-Answers max_nodes c nodes here e2))
                  (below-EachAnswers max_nodes parent accepted _ rest here.1 below e3))))

  semantics-Answers :
      (c : Chain) (u : Unit)
      → validate_verification_chain_semantics net s c ≡ ok u
      → Answers (node_of c).challenge c
  unfolding validate_verification_chain_semantics
  semantics-Answers c u h =
      returned (validate_node net s 64 c 0) _ h (λ r e h'. node-Answers 64 c 0 r e)

  -- A chain that `verify_verification_chain_payload` returns for a challenge holds that challenge in
  -- every one of its nodes.
  pub verify_verification_chain_payload-Answers :
      (signer : Signer) (payload : Fields) (public_key : Text) (resolver_id : Option Text)
      (endpoint : Option Endpoint) (now skew : ℕ) (challenge : Text) (c : Chain)
      → verify_verification_chain_payload net s signer payload public_key resolver_id endpoint now
          skew
          (some challenge)
        ≡ ok c
      → Answers (some challenge) c
  unfolding verify_verification_chain_payload
  verify_verification_chain_payload-Answers signer payload public_key resolver_id endpoint now skew
        challenge c h =
      passed _ _ h (λ e1 h1. passed _ _ h1 (λ e2 h2.
        returned (chain_from_dict net (object payload)) _ h2 (λ d e3 h3.
          returned (validate_signed_window (node_of d).issued_at (node_of d).expires_at now skew) _
            h3
            (λ u4 e4 h4. passed _ _ h4 (λ e5 h5.
              returned (matches_expected net s signer (node_of d).endpoint endpoint) _ h5
                (λ m e6 h6. passed _ _ h6 (λ e7 h7.
                  passed (other_challenge (some challenge) (node_of d).challenge) _ h7 (λ e8 h8.
                    returned (validate_verification_chain_semantics net s d) _ h8 (λ u9 e9 h9.
                      subst (Answers (some challenge)) (same_ok h9) (
                        subst (λ t. Answers t d)
                          ((option_eq_iff (node_of d).challenge (some challenge)).0
                            (not-false _ e8))
                          (semantics-Answers d u9 e9)))))))))))
