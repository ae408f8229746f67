-- ===== src/Models/Endpoint/Laws.antt =====
-- When two endpoints match, and what normalizing keeps.
use fanxiangdiguijiexi.Prelude.{
  ℕ, ◌≡◌, refl, ap₂, Bool, true, false, ◌⊎◌, inl, inr, Option, none, some, List, [], ◌∷◌, map,
  arith, Text, text_eq_iff, text_eq_comm, lower, lower-lower, given, strip, or_blank, Outcome, ok,
  raised, PyError, value_error, subst, >>=-eq-ok, Outcome-cases,
}
use fanxiangdiguijiexi.Models.Endpoint.{
  Endpoint, Net, normalize_name, canonical_ip, canonical_uri, normalized, default_port, both_differ,
  both_given, port_eq, same_endpoint, matches, port_or, when_given,
}

both_differ_comm : (a b : Option Text) → both_differ a b ≡ both_differ b a
unfolding both_differ
both_differ_comm a b = ground (arith, text_eq_comm (or_blank a) (or_blank b))

both_given_comm : (a b : Option Text) → both_given a b ≡ both_given b a
unfolding both_given
both_given_comm a b = ground arith

port_eq_comm : (p q : Option ℕ) → port_eq p q ≡ port_eq q p
port_eq_comm none none = refl
port_eq_comm none (some q) = refl
port_eq_comm (some p) none = refl
port_eq_comm (some p) (some q) = ground arith

same_endpoint_comm : (a b : Endpoint) → same_endpoint a b ≡ same_endpoint b a
unfolding same_endpoint
same_endpoint_comm a b = rw (
  text_eq_comm a.transport b.transport,
  port_eq_comm a.port b.port,
  both_differ_comm a.ip b.ip,
  both_differ_comm a.uri b.uri,
  both_differ_comm a.server_name b.server_name,
  both_given_comm a.ip b.ip,
  both_given_comm a.uri b.uri,
  both_given_comm a.server_name b.server_name,
)

-- The only exception of the parsers.
OnlyValueError : Outcome PyError Text → Type 0
OnlyValueError m = (x : PyError) → m ≡ raised x → x ≡ value_error

when_given_error :
    (f : Text → Outcome PyError Text) (o : Option Text)
    → ((t : Text) → OnlyValueError (f t))
    → (x : PyError) → when_given f o ≡ raised x
    → x ≡ value_error
unfolding OnlyValueError
when_given_error f none h x e = absurd (cc e)
when_given_error f (some []) h x e = absurd (cc e)
when_given_error f (some (c ∷ t)) h x e = elim (Outcome-cases (f (c ∷ t))) [
  | inl (v, q) ↦ absurd (cc (rw q at e))
  | inr (y, q) ↦ h (c ∷ t) x (cc (q, rw q at e))
]

module _ (net : Net) where
  canonical_ip_error : (t : Text) → OnlyValueError (canonical_ip net t)
  unfolding canonical_ip OnlyValueError
  canonical_ip_error t x e = ground arith

  canonical_uri_error : (t : Text) → OnlyValueError (canonical_uri net t)
  unfolding canonical_uri OnlyValueError
  canonical_uri_error t x e = ground arith

  normalize_name_error : (t : Text) → OnlyValueError (ok (normalize_name t))
  unfolding OnlyValueError
  normalize_name_error t x e = absurd (cc e)

  normalized_error : (a : Endpoint) (x : PyError) → normalized net a ≡ raised x → x ≡ value_error
  unfolding normalized
  normalized_error a x e = ground (
    arith,
    when_given_error (canonical_ip net) a.ip canonical_ip_error x,
    when_given_error (canonical_uri net) a.uri canonical_uri_error x,
    when_given_error (λ n. ok (normalize_name n)) a.server_name normalize_name_error x,
  )

  -- `a.matches(b)` and `b.matches(a)` return the same, or both raise ValueError.
  pub matches_comm : (a b : Endpoint) → matches net a b ≡ matches net b a
  unfolding matches
  matches_comm a b = elim (Outcome-cases (normalized net a)) [
    | inl (m, e) ↦ elim (Outcome-cases (normalized net b)) [
      | inl (n, e') ↦ rw (e, e', same_endpoint_comm m n)
      | inr (x, e') ↦ rw (e, e')
    ]
    | inr (x, e) ↦ elim (Outcome-cases (normalized net b)) [
      | inl (n, e') ↦ rw (e, e')
      | inr (y, e') ↦ rw (e, e', normalized_error a x e, normalized_error b y e')
    ]
  ]

-- The two values are given and the same.
abbrev pub Shared : Option Text → Option Text → Type 0
Shared a b = (given a ≡ true) × (a ≡ b)

Shared-of : (a b : Option Text) → both_given a b ≡ true → both_differ a b ≡ false → Shared a b
unfolding both_given both_differ
Shared-of none b h k = absurd (cc h)
Shared-of (some s) none h k = absurd (ground arith)
Shared-of (some s) (some t) h k = (ground arith, ground (arith, text_eq_iff s t))

-- Where both values are given, they are the same.
abbrev pub Consistent : Option Text → Option Text → Type 0
Consistent a b = given a ≡ true → given b ≡ true → a ≡ b

Consistent-of : (a b : Option Text) → both_differ a b ≡ false → Consistent a b
unfolding both_differ
Consistent-of none b k h h' = absurd (cc h)
Consistent-of (some s) none k h h' = absurd (cc h')
Consistent-of (some s) (some t) k h h' = ground (arith, text_eq_iff s t)

port_eq→eq : (p q : Option ℕ) → port_eq p q ≡ true → p ≡ q
port_eq→eq none none h = refl
port_eq→eq none (some q) h = absurd (cc h)
port_eq→eq (some p) none h = absurd (cc h)
port_eq→eq (some p) (some q) h = ground arith

-- What a match of normalized endpoints means.
pub record Agrees (a b : Endpoint) : Type 0 where
  pub transport : a.transport ≡ b.transport
  pub port : a.port ≡ b.port
  pub ip : Consistent a.ip b.ip
  pub uri : Consistent a.uri b.uri
  pub server_name : Consistent a.server_name b.server_name
  pub identity : Shared a.ip b.ip ⊎ (Shared a.uri b.uri ⊎ Shared a.server_name b.server_name)

same_endpoint-Agrees : (a b : Endpoint) → same_endpoint a b ≡ true → Agrees a b
unfolding same_endpoint
same_endpoint-Agrees a b h = record {
  transport = ground (arith, text_eq_iff a.transport b.transport);
  port = ground (arith, port_eq→eq a.port b.port);
  ip = Consistent-of a.ip b.ip (ground arith);
  uri = Consistent-of a.uri b.uri (ground arith);
  server_name = Consistent-of a.server_name b.server_name (ground arith);
  identity =
      ground
        (arith, Shared-of a.ip b.ip, Shared-of a.uri b.uri, Shared-of a.server_name b.server_name);
}

module _ (net : Net) where
  -- Endpoints match only if both normalize, to the same transport and port, to a common address,
  -- URI or server name that is not empty, and to no two different addresses, URIs or server names:
  -- each of the three that both normal forms give is the same in both.
  pub matches-Agrees :
      (a b : Endpoint)
      → matches net a b ≡ ok true
      → (m : Endpoint) × (n : Endpoint) × (normalized net a ≡ ok m)
        × (normalized net b ≡ ok n)
        × Agrees m n
  unfolding matches
  matches-Agrees a b h =
      let (m, e, h') = >>=-eq-ok (normalized net a) _ h in
      let (n, e', h'') = >>=-eq-ok (normalized net b) _ h' in
      (m, n, e, e', same_endpoint-Agrees m n (ok_inj h''))
    where
      ok_inj : {x y : Bool} → ◌≡◌ {A = Outcome PyError Bool} (ok x) (ok y) → x ≡ y
      ok_inj q = cc q

  map-lower_again : (l : List Text) → map lower (map lower l) ≡ map lower l
  map-lower_again [] = refl
  map-lower_again (t ∷ l) = ap₂ ◌∷◌ (lower-lower t) (map-lower_again l)

  parsed_ip : (a b : Text) → canonical_ip net a ≡ ok b → net.ip_address (strip a) ≡ some b
  unfolding canonical_ip
  parsed_ip a b h = ground arith

  canonical_ip_again :
      (a b : Text)
      → canonical_ip net a ≡ ok b
      → when_given (canonical_ip net) (some b) ≡ ok (some b)
  unfolding canonical_ip
  canonical_ip_again a [] h = absurd (cc (net.ip_address_given (strip a) [] (parsed_ip a [] h)))
  canonical_ip_again a (c ∷ t) h =
      let e = parsed_ip a (c ∷ t) h in
      rw (net.ip_address_strip (strip a) (c ∷ t) e, net.ip_address_again (strip a) (c ∷ t) e)

  when_given_again :
      (a b : Option Text)
      → when_given (canonical_ip net) a ≡ ok b
      → when_given (canonical_ip net) b ≡ ok b
  when_given_again none b h =
      let q : none ≡ b = cc h in subst (λ x. when_given (canonical_ip net) x ≡ ok x) q refl
  when_given_again (some []) b h =
      let q : none ≡ b = cc h in subst (λ x. when_given (canonical_ip net) x ≡ ok x) q refl
  when_given_again (some (c ∷ t)) b h =
      let (v, e, h') = >>=-eq-ok (canonical_ip net (c ∷ t)) _ h in
      let q : some v ≡ b = cc h' in
      subst (λ x. when_given (canonical_ip net) x ≡ ok x) q (canonical_ip_again (c ∷ t) v e)

  -- An endpoint that is identified by its address alone is normalized once and for all.
  pub normalized_again :
      (a b : Endpoint)
      → a.uri ≡ none
      → a.server_name ≡ none
      → normalized net a ≡ ok b
      → normalized net b ≡ ok b
  unfolding normalized
  normalized_again a b u n h =
      let (i, e, h') = >>=-eq-ok (when_given (canonical_ip net) a.ip) _ h in
      let r : Endpoint = record {
        endpoint_id = a.endpoint_id;
        ip = i;
        port = some (port_or a.port (default_port a.transport));
        transport = lower a.transport;
        uri = none;
        server_name = none;
        alpn = map lower a.alpn;
      } in
      let q : ok r ≡ ok b = rw (n, u) at h' in
      let p : r ≡ b = cc q in
      subst (λ x. normalized net x ≡ ok x) p
        (rw (when_given_again a.ip i e, lower-lower a.transport, map-lower_again a.alpn))
