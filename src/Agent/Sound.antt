-- ===== src/Agent/Sound.antt =====
-- What a chain that `validate_verification_chain_semantics` of agent/verification_chain.py lets
-- through is.
use fanxiangdiguijiexi.Prelude.{
  ℕ, ◌+◌, ◌≤◌, ◌≡◌, refl, Bool, true, false, not, ◌&&◌, List, [], ◌∷◌, arith, is_empty, all, Text,
  Outcome, PyError, value_error, ok, ◌>>=◌, ◌>>◌, >>=-eq-ok, raise_if-eq-ok, Bool-cases, inl, inr,
  &&-left, &&-right, ap,
}
use fanxiangdiguijiexi.Prelude.Dict.{Dict}
use fanxiangdiguijiexi.Crypto.Sha.{Sha256}
use fanxiangdiguijiexi.Models.Endpoint.{Net, endpoint_lookup_key}
use fanxiangdiguijiexi.Agent.Chain.{
  Hop, Node, Chain, Chains, chain, no_chains, and_chain, node_of, HopState, Below, same_bool,
  count_hop, refuse_if, check_hops, check_terminals, check_parent, from_here, validate_node,
  validate_below,
}

-- The nodes of a chain.
mutual
  pub size : Chain → ℕ
  size (chain node downstream) = 1 + sizes downstream

  pub sizes : Chains → ℕ
  sizes no_chains = 0
  sizes (and_chain c rest) = size c + sizes rest

-- Every node is free of errors, accepts each of its hops, and says so.
pub record IsClear (node : Node) : Type 0 where
  pub no_errors : is_empty node.chain_errors ≡ true
  pub hops_accepted : all Hop.accepted node.hops ≡ true
  pub final : node.final_result ≡ true

mutual
  pub data Vouched : Chain → Type 0 where
    vouched :
        {node : Node} {downstream : Chains}
        → IsClear node
        → AllVouched downstream
        → Vouched (chain node downstream)

  pub data AllVouched : Chains → Type 0 where
    none_below : AllVouched no_chains
    more_below :
        {c : Chain} {rest : Chains} → Vouched c → AllVouched rest → AllVouched (and_chain c rest)

-- A chain of calls that returned, taken apart at its first.
pub returned :
    {A B C : Type 0} (m : Outcome PyError A) (f : A → Outcome PyError B) {b : B}
    → (m >>= f) ≡ ok b
    → ((a : A) → m ≡ ok a → f a ≡ ok b → C)
    → C
returned m f h k = let (a, e, h') = >>=-eq-ok m f h in k a e h'

refuse_if-eq-ok : (t : Bool) {u : Unit} → refuse_if t ≡ ok u → t ≡ false
unfolding refuse_if
refuse_if-eq-ok t e = raise_if-eq-ok t value_error e

pub passed :
    {B C : Type 0} (t : Bool) (m : Outcome PyError B) {b : B}
    → (refuse_if t >> m) ≡ ok b
    → (t ≡ false → m ≡ ok b → C)
    → C
passed t m h k = let (u, e, h') = >>=-eq-ok (refuse_if t) _ h in k (refuse_if-eq-ok t e) h'

count_hop-effective :
    (hop : Hop) (st st' : HopState)
    → count_hop hop st ≡ ok st'
    → st'.effective ≡ true
    → (hop.accepted ≡ true) × (st.effective ≡ true)
count_hop-effective hop st st' h e = elim (Bool-cases hop.accepted) [
  | inr off ↦ absurd (ground arith)
  | inl on ↦ (on, ground arith)
]

module _ (net : Net) (s : Sha256) where
  check_hops-effective :
      (node : Node) (hops : List Hop) (st st' : HopState)
      → check_hops net s node hops st ≡ ok st'
      → st'.effective ≡ true
      → (all Hop.accepted hops ≡ true) × (st.effective ≡ true)
  unfolding check_hops
  check_hops-effective node [] st st' h e = (refl, ground arith)
  check_hops-effective node (hop ∷ rest) st st' h e =
      returned (from_here net s node hop) _ h (λ ours e1 h1. passed _ _ h1 (λ e2 h2.
        returned (endpoint_lookup_key net s hop.upstream_endpoint) _ h2 (λ key e3 h3.
          passed _ _ h3 (λ e4 h4. returned (count_hop hop _) _ h4 (λ st1 e5 h5.
            let (others, before) = check_hops-effective node rest st1 st' h5 e in
            let (this, start) = count_hop-effective hop _ st1 e5 before in
            (rw (this, others) refl, start))))))

  -- The node's own claims, the count, and what an effective result means.
  pub record IsValid (max_nodes : ℕ) (c : Chain) (before : ℕ) (r : Bool × ℕ) : Type 0 where
    pub counted : r.1 ≡ before + size c
    pub bounded : r.1 ≤ max_nodes
    pub claimed : r.0 ≡ (node_of c).final_result
    pub means : r.0 ≡ true → Vouched c

  record AreValid (max_nodes : ℕ) (cs : Chains) (before : ℕ) (b : Below) : Type 0 where
    counted : b.nodes ≡ before + sizes cs
    bounded : before ≤ max_nodes → b.nodes ≤ max_nodes
    means : b.effective ≡ true → AllVouched cs

  same_bool_eq : (a b : Bool) → not (same_bool a b) ≡ false → b ≡ a
  same_bool_eq true b h = ground arith
  same_bool_eq false b h = ground arith

  both_below :
      {c : Chain} {rest : Chains} {a b d : Bool}
      → (a ≡ true → Vouched c)
      → (d ≡ true → AllVouched rest)
      → b ≡ a && d
      → b ≡ true
      → AllVouched (and_chain c rest)
  both_below {a} {d} f g e on =
      more_below (f (&&-left a d (cc (e, on)))) (g (&&-right a d (cc (e, on))))

  vouch :
      (node : Node) (downstream : Chains) (st : HopState) (below : Below)
      → check_hops net s node node.hops (record {
        hop_keys = [];
        accepted_by_resolver = [];
        effective = is_empty node.chain_errors;
      })
        ≡ ok st
      → (below.effective ≡ true → AllVouched downstream)
      → st.effective && below.effective ≡ node.final_result
      → st.effective && below.effective ≡ true
      → Vouched (chain node downstream)
  vouch node downstream st below e means same on =
      let (hops, start) =
        check_hops-effective node node.hops _ st e (&&-left st.effective below.effective on) in
      vouched (record { no_errors = start; hops_accepted = hops; final = cc (same, on) })
        (means (&&-right st.effective below.effective on))

  mutual
    unfolding validate_node validate_below size sizes

    node-IsValid :
        (max_nodes : ℕ) (c : Chain) (nodes : ℕ) (r : Bool × ℕ)
        → validate_node net s max_nodes c nodes ≡ ok r
        → IsValid max_nodes c nodes r
    node-IsValid max_nodes (chain node downstream) nodes r h = passed _ _ h (λ e1 h1.
        returned (check_hops net s node node.hops _) _ h1 (λ st e2 h2.
          returned (check_terminals net s node.hops downstream [] node.terminal_upstreams) _ h2
            (λ u e3 h3.
              returned
                (validate_below net s max_nodes node st.accepted_by_resolver [] downstream
                  (nodes + 1))
                _ h3
                (λ below e4 h4. passed _ _ h4 (λ e5 h5. passed _ _ h5 (λ e6 h6.
                  let valid =
                    below-AreValid max_nodes node st.accepted_by_resolver [] downstream (nodes + 1)
                      below e4 in
                  let same = same_bool_eq node.final_result (st.effective && below.effective) e6 in
                  let n : r.1 ≡ below.nodes = ground (arith, h6) in
                  let t : r.0 ≡ st.effective && below.effective = ground (arith, h6) in
                  let room : nodes + 1 ≤ max_nodes = ground (arith, e1) in
                  record {
                    counted = omega (arith, n, valid.counted);
                    bounded = omega (arith, n, valid.bounded room);
                    claimed = cc (t, same);
                    means = λ on. vouch node downstream st below e2 valid.means same (cc (t, on));
                  }))))))

    below-AreValid :
        (max_nodes : ℕ) (parent : Node) (accepted : Dict Hop) (consumed : List Text) (cs : Chains)
        (nodes : ℕ) (b : Below)
        → validate_below net s max_nodes parent accepted consumed cs nodes ≡ ok b
        → AreValid max_nodes cs nodes b
    below-AreValid max_nodes parent accepted consumed no_chains nodes b h =
        let it : b ≡ record { effective = true; consumed = consumed; nodes = nodes } =
          ground (arith, h) in
        let n = ap Below.nodes it in
        record {
          counted = omega (arith, n);
          bounded = λ k. omega (arith, n, k);
          means = λ t. none_below;
        }
    below-AreValid max_nodes parent accepted consumed (and_chain c rest) nodes b h =
        returned (check_parent net s parent accepted consumed (node_of c)) _ h (λ u e1 h1.
          returned (validate_node net s max_nodes c nodes) _ h1 (λ here e2 h2.
            returned (validate_below net s max_nodes parent accepted _ rest here.1) _ h2
              (λ below e3 h3.
                let first = node-IsValid max_nodes c nodes here e2 in
                let others = below-AreValid max_nodes parent accepted _ rest here.1 below e3 in
                let n : b.nodes ≡ below.nodes = ground (arith, h3) in
                let t : b.effective ≡ here.0 && below.effective = ground (arith, h3) in
                record {
                  counted = omega (arith, n, first.counted, others.counted);
                  bounded = λ k. omega (arith, n, others.bounded first.bounded);
                  means = λ on. both_below first.means others.means t on;
                })))

  -- When `_validate_chain_node_semantics` returns, it has counted every node of the chain, within the
  -- limit; its result is the node's final_result; and a true result means that every node of the
  -- chain has no errors, accepts each of its hops and says so.
  pub validate_node-IsValid :
      (max_nodes : ℕ) (c : Chain) (nodes : ℕ) (r : Bool × ℕ)
      → validate_node net s max_nodes c nodes ≡ ok r
      → IsValid max_nodes c nodes r
  validate_node-IsValid max_nodes c nodes r h = node-IsValid max_nodes c nodes r h
