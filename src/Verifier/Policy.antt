-- ===== src/Verifier/Policy.antt =====
-- verifier/policy.py: the policy's checks of an object, and how long its verification lasts.
use fanxiangdiguijiexi.Prelude.{
  ℕ, ◌+◌, ◌*◌, ◌≤◌, ◌<◌, ◌≡◌, refl, Bool, true, not, Option, none, some, List, [], ◌∷◌, arith, min,
  leb, ltb, ◌==◌, if◌then◌else◌, any, all, Text, codes, text_eq, Outcome, PyError, ok, ◌>>=◌,
  >>=-eq-ok, Bool-cases, inl, inr,
}
use fanxiangdiguijiexi.Models.Endpoint.{Endpoint}
use fanxiangdiguijiexi.Models.Verification.{
  Reason, unsupported_schema_version, unsupported_canonical_version, status_not_active,
  object_not_yet_valid, object_expired, transport_not_allowed,
}
use fanxiangdiguijiexi.Cache.Store.{whole_seconds}
use fanxiangdiguijiexi.Verifier.Object.{Clock, ResolverObject, parse_rfc3339, active_text}

-- `VerificationPolicy`: the deadlines are in seconds.
pub record Policy : Type 0 where
  pub allowed_transports : List Text
  pub soft_ttl_seconds : ℕ
  pub hard_ttl_seconds : ℕ

abbrev pub default_policy : Policy
default_policy = record {
  allowed_transports = codes "udp" ∷ codes "tcp" ∷ codes "doh" ∷ [];
  soft_ttl_seconds = 600;
  hard_ttl_seconds = 3600;
}

unfoldable pub is_allowed : Policy → Endpoint → Bool
is_allowed policy e = any (λ t. text_eq t e.transport) policy.allowed_transports

-- The checks that need no clock.
unfoldable pub check_form : ResolverObject → Option Reason
check_form obj =
    if not (text_eq obj.schema_version (codes "resolver-auth-object-v1"))
    then some unsupported_schema_version
    else if not (obj.canonical_version == 1)
    then some unsupported_canonical_version
    else if not (text_eq obj.status active_text)
    then some status_not_active
    else none

abbrev in_time : Bool → Bool → Outcome PyError (Option Reason)
in_time expired allowed =
    if expired
    then ok (some object_expired)
    else if allowed
    then ok none
    else ok (some transport_not_allowed)

abbrev check_times : Clock → Policy → ResolverObject → ℕ → Outcome PyError (Option Reason)
check_times clock policy obj now = do
  valid_from ← parse_rfc3339 clock obj.valid_from
  if ltb now valid_from then ok (some object_not_yet_valid) else do
    valid_until ← parse_rfc3339 clock obj.valid_until
    in_time (leb valid_until now) (all (is_allowed policy) obj.endpoints)

abbrev checked_form :
    Option Reason → Clock → Policy → ResolverObject → ℕ → Outcome PyError (Option Reason)
checked_form (some reason) clock policy obj now = ok (some reason)
checked_form none clock policy obj now = check_times clock policy obj now

unfoldable pub check_object_semantics :
    Clock → Policy → ResolverObject → ℕ → Outcome PyError (Option Reason)
unfolding check_form
check_object_semantics clock policy obj now = checked_form (check_form obj) clock policy obj now

-- `expirations`: both are written in whole seconds.
unfoldable pub expirations : Policy → ℕ → ℕ → ℕ × ℕ
expirations policy now valid_until = (
  whole_seconds (now + policy.soft_ttl_seconds * 1000000),
  whole_seconds (min (now + policy.hard_ttl_seconds * 1000000) valid_until),
)

-- What an object without an objection is.
pub record IsSound (clock : Clock) (policy : Policy) (obj : ResolverObject) (now : ℕ) : Type 0 where
  pub schema : text_eq obj.schema_version (codes "resolver-auth-object-v1") ≡ true
  pub canonical : obj.canonical_version ≡ 1
  pub active : text_eq obj.status active_text ≡ true
  pub valid_from : ℕ
  pub valid_until : ℕ
  pub from_read : parse_rfc3339 clock obj.valid_from ≡ ok valid_from
  pub until_read : parse_rfc3339 clock obj.valid_until ≡ ok valid_until
  pub begun : valid_from ≤ now
  pub not_over : now < valid_until
  pub transports : all (is_allowed policy) obj.endpoints ≡ true

check_form-none :
    (obj : ResolverObject)
    → check_form obj ≡ none
    → (text_eq obj.schema_version (codes "resolver-auth-object-v1") ≡ true)
      × (obj.canonical_version ≡ 1)
      × (text_eq obj.status active_text ≡ true)
unfolding check_form
check_form-none obj h = ground arith

checked_form-none :
    (o : Option Reason) (clock : Clock) (policy : Policy) (obj : ResolverObject) (now : ℕ)
    → checked_form o clock policy obj now ≡ ok none
    → o ≡ none
checked_form-none none clock policy obj now h = refl
checked_form-none (some reason) clock policy obj now h = absurd (cc h)

until_checked :
    (valid_until now : ℕ) (allowed : Bool)
    → in_time (leb valid_until now) allowed ≡ ok none
    → (now < valid_until) × (allowed ≡ true)
until_checked valid_until now allowed h = ground arith

-- When `check_object_semantics` returns no reason, the object has the schema, the canonical version
-- and the status ACTIVE, the moment lies in its validity, and the policy allows each transport.
pub check_object_semantics-IsSound :
    (clock : Clock) (policy : Policy) (obj : ResolverObject) (now : ℕ)
    → check_object_semantics clock policy obj now ≡ ok none
    → IsSound clock policy obj now
unfolding check_object_semantics
check_object_semantics-IsSound clock policy obj now h =
    let no_form = checked_form-none (check_form obj) clock policy obj now h in
    let (schema, canonical, active) = check_form-none obj no_form in
    let (valid_from, e, h') = >>=-eq-ok (parse_rfc3339 clock obj.valid_from) _ (rw no_form at h) in
    elim (Bool-cases (ltb now valid_from)) [
      | inl early ↦ absurd (cc (rw early at h'))
      | inr begun ↦
          let (valid_until, e', h'') =
            >>=-eq-ok (parse_rfc3339 clock obj.valid_until) _ (rw begun at h') in
          let (later, allowed) =
            until_checked valid_until now (all (is_allowed policy) obj.endpoints) h'' in
          record {
            schema = schema;
            canonical = canonical;
            active = active;
            valid_from = valid_from;
            valid_until = valid_until;
            from_read = e;
            until_read = e';
            begun = ground arith;
            not_over = later;
            transports = allowed;
          }
    ]
