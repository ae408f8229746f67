-- ===== src/Discovery/Introduced.antt =====
-- How the signed hops of a chain bind keys to the signers of the chains below it, in
-- `_validate_chain_node` of wrapper/resolver_chain.py.
use fanxiangdiguijiexi.Prelude.{
  ◌≡◌, refl, Bool, true, false, Option, none, some, List, [], ◌∷◌, ◌⊎◌, inl, inr, arith, any, Text,
  codes, text_eq, text_eq→eq, or_blank, Outcome, PyError, runtime_error, ok, ◌>>◌, >>=-eq-ok,
  raise_if-eq-ok, Bool-cases, &&-left, same_ok, subst, ap,
}
use fanxiangdiguijiexi.Prelude.Dict
use fanxiangdiguijiexi.Prelude.Dict.{Dict, get-put, get-put_same}
use fanxiangdiguijiexi.Json.{Value, Fields, text, object}
use fanxiangdiguijiexi.Crypto.Sha.{Sha256}
use fanxiangdiguijiexi.Models.Endpoint.{Endpoint, Net}
use fanxiangdiguijiexi.Verifier.Object.{fields_of}
use fanxiangdiguijiexi.Verifier.Keys.{Signer}
use fanxiangdiguijiexi.Agent.Chain.{Hop, Node, Chain}
use fanxiangdiguijiexi.Agent.Sound.{returned}
use fanxiangdiguijiexi.Agent.Signed.{IsSigned, verify_verification_chain_payload-IsSigned}
use fanxiangdiguijiexi.Agent.SignedHop.{
  IsSignedHop, verify_hop_verification_result_payload-IsSignedHop,
}
use fanxiangdiguijiexi.Agent.Keys.{endpoint_cache_key}
use fanxiangdiguijiexi.Agent.Print.{hop_to_dict, chain_to_dict}
use fanxiangdiguijiexi.Discovery.Signatures.{
  Setting, Bound, fail_if, signer_of, key_of, binds, bind_hop, hop_signed, chain_signed,
  check_signed_hops,
}

pub data Within (hop : Hop) : List Hop → Type 0 where
  at_first : {hops : List Hop} → Within hop (hop ∷ hops)
  after_first : {other : Hop} {hops : List Hop} → Within hop hops → Within hop (other ∷ hops)

-- A hop binds a resolver to a key and an endpoint.
pub record Binds (hop : Hop) (id : Text) (b : Bound) : Type 0 where
  pub accepted : hop.accepted ≡ true
  pub resolver : or_blank hop.upstream_resolver_id ≡ id
  pub key : Dict.get (codes "agent_public_key") hop.evidence ≡ some b.public_key
  pub endpoint : b.endpoint ≡ hop.upstream_endpoint

pub fail_if-eq-ok : (t : Bool) {u : Unit} → fail_if t ≡ ok u → t ≡ false
unfolding fail_if
fail_if-eq-ok t e = raise_if-eq-ok t runtime_error e

pub unfailed :
    {B C : Type 0} (t : Bool) (m : Outcome PyError B) {b : B}
    → (fail_if t >> m) ≡ ok b
    → (t ≡ false → m ≡ ok b → C)
    → C
unfailed t m h k = let (u, e, h') = >>=-eq-ok (fail_if t) _ h in k (fail_if-eq-ok t e) h'

pub nothing_at : (id : Text) {b : Bound} → Dict.get id [] ≡ some b → ⊥
unfolding Dict.get
nothing_at id e = cc e

pub some_eq : {a b : Bound} → some a ≡ some b → a ≡ b
some_eq e = cc e

pub signer_of-some : (found : Option Bound) {b : Bound} → signer_of found ≡ ok b → found ≡ some b
unfolding signer_of
signer_of-some none h = absurd (cc h)
signer_of-some (some b) h = ap some (same_ok h)

pub key_of-text : (v : Value) {t : Text} → key_of v ≡ ok t → v ≡ text t
unfolding key_of
key_of-text (text t) h = ap text (same_ok h)
key_of-text _ h = absurd (cc h)

fields_of-object : (v : Value) {d : Fields} → fields_of v ≡ ok d → v ≡ object d
fields_of-object (object d) h = ap object (same_ok h)
fields_of-object _ h = absurd (cc h)

bound_here :
    (hop : Hop) (key : Value) (id : Text) {b : Bound}
    → Dict.get (codes "agent_public_key") hop.evidence ≡ some key
    → binds hop key ≡ true
    → or_blank hop.upstream_resolver_id ≡ id
    → record { public_key = key; endpoint = hop.upstream_endpoint } ≡ b
    → Binds hop id b
bound_here hop key id e on same h =
    let here : Binds hop id (record { public_key = key; endpoint = hop.upstream_endpoint }) =
      record { accepted = &&-left hop.accepted _ on; resolver = same; key = e; endpoint = refl } in
    subst (Binds hop id) h here

pub put_here :
    (id name : Text) (this : Bound) (bound : Dict Bound) {b : Bound}
    → Dict.get id (Dict.put name this bound) ≡ some b
    → (Dict.get id bound ≡ some b) ⊎ ((name ≡ id) × (this ≡ b))
put_here id name this bound {b} h = elim (Bool-cases (text_eq name id)) [
  | inl same ↦ inr (text_eq→eq name id same, ground (arith, h, same, get-put name id this bound))
  | inr other ↦ inl (ground (arith, h, other, get-put name id this bound))
]

bind_hop-Binds :
    (hop : Hop) (key : Option Value) (bound : Dict Bound) (id : Text) (b : Bound)
    → Dict.get (codes "agent_public_key") hop.evidence ≡ key
    → Dict.get id (bind_hop key hop bound) ≡ some b
    → (Dict.get id bound ≡ some b) ⊎ Binds hop id b
unfolding bind_hop
bind_hop-Binds hop none bound id b e h = inl h
bind_hop-Binds hop (some key) bound id b e h = elim (Bool-cases (binds hop key)) [
  | inr off ↦ inl (rw off at h)
  | inl on ↦ elim (put_here id (or_blank hop.upstream_resolver_id) _ bound (rw on at h)) [
    | inl before ↦ inl before
    | inr (same, this) ↦ inr (bound_here hop key id e on same this)
  ]
]

module _ (net : Net) (s : Sha256) (signer : Signer) (setting : Setting) where
  -- The JSON of a hop, and of a chain, is signed under a key.
  pub record HopSigned (public_key : Text) (hop : Hop) : Type 0 where
    pub payload : Fields
    pub is_json : hop_to_dict net hop ≡ ok (object payload)
    pub verified : Hop
    pub signed :
        IsSignedHop net signer payload public_key setting.now setting.max_clock_skew_seconds
          verified

  pub record ChainSigned (public_key : Text) (c : Chain) : Type 0 where
    pub payload : Fields
    pub is_json : chain_to_dict net c ≡ ok (object payload)
    pub verified : Chain
    pub signed :
        IsSigned net signer payload public_key setting.now setting.max_clock_skew_seconds verified

  pub hop_signed-HopSigned :
      (node : Node) (public_key : Text) (hop verified : Hop)
      → hop_signed net s signer setting node public_key hop ≡ ok verified
      → HopSigned public_key hop
  unfolding hop_signed
  hop_signed-HopSigned node public_key hop verified h =
      returned (hop_to_dict net hop) _ h (λ v e1 h1. returned (fields_of v) _ h1 (λ payload e2 h2.
        record {
          payload = payload;
          is_json = rw (fields_of-object v e2) at e1;
          verified = verified;
          signed =
              verify_hop_verification_result_payload-IsSignedHop net s signer payload public_key _ _
                _ _ verified h2;
        }))

  pub chain_signed-ChainSigned :
      (c : Chain) (public_key : Text) (endpoint : Endpoint) (challenge : Option Text)
      (verified : Chain)
      → chain_signed net s signer setting c public_key endpoint challenge ≡ ok verified
      → ChainSigned public_key c
  unfolding chain_signed
  chain_signed-ChainSigned c public_key endpoint challenge verified h =
      returned (chain_to_dict net c) _ h (λ v e1 h1. returned (fields_of v) _ h1 (λ payload e2 h2.
        record {
          payload = payload;
          is_json = rw (fields_of-object v e2) at e1;
          verified = verified;
          signed =
              verify_verification_chain_payload-IsSigned net s signer payload public_key _ _ _ _ _
                verified h2;
        }))

  -- The hop of a node that vouches for the signer of a downstream chain.
  pub record Introduces (node : Node) (public_key : Text) (id : Text) (b : Bound) : Type 0 where
    pub hop : Hop
    pub within : Within hop node.hops
    pub binds : Binds hop id b
    pub signed : HopSigned public_key hop

  abbrev pub AllIntroduced : Node → Text → Dict Bound → Type 0
  AllIntroduced node public_key by_resolver =
      (id : Text) (b : Bound) → Dict.get id by_resolver ≡ some b → Introduces node public_key id b

  pub check_signed_hops-AllIntroduced :
      (node : Node) (public_key : Text) (visiting : List Text) (hops : List Hop)
      (bound result : Dict Bound)
      → ((hop : Hop) → Within hop hops → Within hop node.hops)
      → AllIntroduced node public_key bound
      → check_signed_hops net s signer setting node public_key visiting hops bound ≡ ok result
      → AllIntroduced node public_key result
  unfolding check_signed_hops
  check_signed_hops-AllIntroduced node public_key visiting [] bound result part before h =
      λ id b e. before id b (rw (same_ok h) e)
  check_signed_hops-AllIntroduced node public_key visiting (hop ∷ rest) bound result part before h =
      returned (hop_signed net s signer setting node public_key hop) _ h (λ verified e1 h1.
        returned (endpoint_cache_key net hop.upstream_endpoint) _ h1 (λ key e2 h2.
          unfailed (any (text_eq key) visiting) _ h2 (λ e3 h3.
            check_signed_hops-AllIntroduced node public_key visiting rest _ result
              (λ other at. part other (after_first at))
              (λ id b e. elim (bind_hop-Binds hop _ bound id b refl e) [
                | inl old ↦ before id b old
                | inr new ↦ record {
                  hop = hop;
                  within = part hop at_first;
                  binds = new;
                  signed = hop_signed-HopSigned node public_key hop verified e1;
                }
              ])
              h3)))
