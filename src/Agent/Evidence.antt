-- ===== src/Agent/Evidence.antt =====
-- agent/verification_chain.py: `normalize_hop_evidence`, `validate_hop_evidence_integrity` and the
-- conversions between hops and verification results.
use fanxiangdiguijiexi.Prelude.{
  ℕ, Bool, true, false, not, ◌&&◌, Option, none, some, List, [], ◌∷◌, ltb, ◌==◌, if◌then◌else◌, any,
  Text, codes, text_eq, truthy, given, or_blank, Outcome, PyError, ok, ◌>>=◌, ◌>>◌,
}
use fanxiangdiguijiexi.Prelude.Dict
use fanxiangdiguijiexi.Json.{Value, Items, null, num, text, bool, array, nil, cons}
use fanxiangdiguijiexi.Crypto.Sha.{Sha256}
use fanxiangdiguijiexi.Models.Endpoint.{
  Endpoint, Net, from_dict, matches, to_dict, endpoint_lookup_key,
}
use fanxiangdiguijiexi.Models.Verification.{Evidence}
use fanxiangdiguijiexi.Cache.Store.{int_value}
use fanxiangdiguijiexi.Verifier.Object.{fields_of, read_endpoint}
use fanxiangdiguijiexi.Verifier.Judge.{resolver_id_key}
use fanxiangdiguijiexi.Agent.Chain.{Hop, refuse_if}

-- `out.setdefault(key, value)`
unfoldable pub set_default : Text → Value → Evidence → Evidence
set_default key value e = if Dict.contains key e then e else Dict.put key value e

abbrev value_or : Option Value → Value → Value
value_or none default = default
value_or (some v) default = v

-- `out.get(key, default)`
abbrev get_or_value : Text → Value → Evidence → Value
get_or_value key default e = value_or (Dict.get key e) default

abbrev pub option_value : Option Text → Value
option_value none = null
option_value (some t) = text t

abbrev pub text_values : List Text → Items
text_values [] = nil
text_values (t ∷ rest) = cons (text t) (text_values rest)

-- What a hop that is made from a verification says of it.
pub record HopFacts : Type 0 where
  pub from_resolver_id : Text
  pub upstream_resolver_id : Option Text
  pub accepted : Bool
  pub status : Text
  pub reasons : List Text
  pub issued_at : ℕ
  pub expires_at : ℕ
  pub issuer : Text
  pub key_id : Text

abbrev pub result_text : Bool → Text
result_text b = if b then codes "VERIFIED" else codes "REJECTED"

abbrev when_accepted : Bool → Text → Value
when_accepted b t = if b then text t else null

-- `normalize_hop_evidence`, on the normal form of the upstream endpoint.
unfoldable pub normalize_hop_evidence : HopFacts → Endpoint → Evidence → Evidence
unfolding set_default
normalize_hop_evidence f upstream e =
    let e1 = set_default (codes "from_resolver_id") (text f.from_resolver_id) e in
    let e2 = set_default (codes "upstream_resolver_id") (option_value f.upstream_resolver_id) e1 in
    let e3 = set_default (codes "upstream_endpoint") (to_dict upstream) e2 in
    let e4 = set_default (codes "upstream_type") (text (codes "recursive_or_forwarder")) e3 in
    let e5 = set_default (codes "verification_result") (text (result_text f.accepted)) e4 in
    let e6 =
      set_default (codes "resolver_status") (get_or_value (codes "chain_status") (text f.status) e5)
        e5 in
    let e7 = set_default (codes "root_status") (when_accepted f.accepted (codes "ACTIVE")) e6 in
    let e8 =
      set_default (codes "endpoint_binding_status") (when_accepted f.accepted (codes "MATCHED"))
        e7 in
    let e9 = set_default (codes "issuer") (text f.issuer) e8 in
    let e10 = set_default (codes "key_id") (text f.key_id) e9 in
    let e11 = set_default (codes "checked_at") (num f.issued_at) e10 in
    let e12 = set_default (codes "expires_at") (num f.expires_at) e11 in
    let e13 =
      set_default (codes "config_version") (get_or_value (codes "object_version") null e12) e12 in
    let e14 = set_default (codes "verifier_agent_id") (text f.from_resolver_id) e13 in
    let e15 = set_default (codes "hop_status") (text f.status) e14 in
    let e16 = set_default (codes "hop_accepted") (bool f.accepted) e15 in
    set_default (codes "hop_reasons") (array (text_values f.reasons)) e16

-- `value in (None, expected)`
abbrev pub none_or : Option Value → Option Text → Bool
none_or none expected = true
none_or (some null) expected = true
none_or (some (text t)) (some u) = text_eq t u
none_or (some _) expected = false

-- `value in (None, "")` and `value is None`
abbrev pub missing : Option Value → Bool
missing none = true
missing (some null) = true
missing (some (text t)) = not (truthy t)
missing (some _) = false

abbrev pub is_none : Option Value → Bool
is_none none = true
is_none (some null) = true
is_none (some _) = false

abbrev terminal_types : List Text
terminal_types =
    codes "terminal"
    ∷ codes "terminal_upstream"
    ∷ codes "authoritative"
    ∷ codes "authoritative_boundary"
    ∷ codes "external"
    ∷ codes "external_boundary"
    ∷ []

abbrev pub is_terminal : Option Value → Bool
is_terminal (some (text t)) = any (text_eq t) terminal_types
is_terminal _ = false

abbrev or_zero : Option ℕ → ℕ
or_zero none = 0
or_zero (some n) = n

module _ (net : Net) (s : Sha256) where
  abbrev pub endpoint_agrees : Option Value → Endpoint → Outcome PyError Bool
  endpoint_agrees none upstream = ok true
  endpoint_agrees (some null) upstream = ok true
  endpoint_agrees (some v) upstream = do
    fields ← fields_of v
    raw ← read_endpoint fields
    e ← from_dict net raw
    matches net e upstream

  -- `if hop.accepted:`, the checks of what the hop was accepted for.
  unfoldable pub check_accepted : Hop → Outcome PyError Unit
  check_accepted hop = do
    let e = hop.evidence
    refuse_if (is_terminal (Dict.get (codes "upstream_type") e))
    refuse_if (missing (Dict.get (codes "object_hash") e))
    refuse_if (is_none (Dict.get (codes "object_version") e))
    refuse_if (missing (Dict.get (codes "state_root") e))
    refuse_if (not (none_or (Dict.get (codes "resolver_status") e) (some (codes "ACTIVE"))))
    refuse_if (not (none_or (Dict.get (codes "root_status") e) (some (codes "ACTIVE"))))
    refuse_if
        (not (none_or (Dict.get (codes "endpoint_binding_status") e) (some (codes "MATCHED"))))
    refuse_if (
        given hop.upstream_resolver_id
        && not (
            none_or (Dict.get (codes "resolver_id_key") e)
              (some (resolver_id_key s (or_blank hop.upstream_resolver_id)))))
    endpoint_key ← endpoint_lookup_key net s hop.upstream_endpoint
    refuse_if (not (none_or (Dict.get (codes "endpoint_key") e) (some endpoint_key)))

  abbrev pub time_of : Option Value → Outcome PyError (Option ℕ)
  time_of none = ok none
  time_of (some null) = ok none
  time_of (some v) = int_value v >>= λ n. ok (some n)

  abbrev pub after_issue : Option ℕ → ℕ → Bool
  after_issue none issued_at = false
  after_issue (some t) issued_at = ltb issued_at t

  abbrev pub other_expiry : Option ℕ → ℕ → Bool
  other_expiry none expires_at = false
  other_expiry (some t) expires_at = not (t == expires_at)

  unfoldable pub validate_hop_evidence_integrity : Hop → Outcome PyError Unit
  unfolding check_accepted
  validate_hop_evidence_integrity hop = do
    let e = hop.evidence
    refuse_if (not (none_or (Dict.get (codes "from_resolver_id") e) (some hop.from_resolver_id)))
    refuse_if (not (none_or (Dict.get (codes "upstream_resolver_id") e) hop.upstream_resolver_id))
    agrees ← endpoint_agrees (Dict.get (codes "upstream_endpoint") e) hop.upstream_endpoint
    refuse_if (not agrees)
    refuse_if
        (not (none_or (Dict.get (codes "verification_result") e) (some (result_text hop.accepted))))
    if hop.accepted then check_accepted hop else ok tt
    checked_at ← time_of (Dict.get (codes "checked_at") e)
    refuse_if (after_issue checked_at hop.issued_at)
    expires_at ← time_of (Dict.get (codes "expires_at") e)
    refuse_if (other_expiry expires_at (or_zero hop.expires_at))
    refuse_if (not (none_or (Dict.get (codes "verifier_agent_id") e) (some hop.from_resolver_id)))
