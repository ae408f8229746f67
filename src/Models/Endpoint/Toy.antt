-- ===== src/Models/Endpoint/Toy.antt =====
-- Parsers for tests, which know two addresses and no URI, and endpoints to run on.
use fanxiangdiguijiexi.Prelude.{
  ◌≡◌, refl, true, none, some, Option, [], if◌then◌else◌, Text, codes, text_eq, strip, truthy,
  Bool-cases, inl, inr, subst,
}
use fanxiangdiguijiexi.Models.Endpoint.{Endpoint, Net}

abbrev pub address_53 : Text
address_53 = codes "192.0.2.53"

abbrev pub address_54 : Text
address_54 = codes "192.0.2.54"

abbrev pub known_address : Text → Option Text
known_address a =
    if text_eq a address_53
    then some address_53
    else if text_eq a address_54
    then some address_54
    else none

-- What holds of both addresses holds of every parsed one.
pub known_address_ind :
    (P : Text → Type 0)
    → P address_53
    → P address_54
    → (a b : Text) → known_address a ≡ some b
    → P b
known_address_ind P p q a b h = elim (Bool-cases (text_eq a address_53)) [
  | inl e ↦ subst P (cc (rw e at h)) p
  | inr e ↦ elim (Bool-cases (text_eq a address_54)) [
    | inl e' ↦ subst P (cc (rw (e, e') at h)) q
    | inr e' ↦ absurd (cc (rw (e, e') at h))
  ]
]

pub known_again : (a b : Text) → known_address a ≡ some b → known_address b ≡ some b
known_again = known_address_ind (λ b. known_address b ≡ some b) refl refl

pub known_strip : (a b : Text) → known_address a ≡ some b → strip b ≡ b
unfolding strip
known_strip = known_address_ind (λ b. strip b ≡ b) refl refl

pub known_given : (a b : Text) → known_address a ≡ some b → truthy b ≡ true
known_given = known_address_ind (λ b. truthy b ≡ true) refl refl

abbrev pub toy_net : Net
toy_net = record {
  ip_address = known_address;
  urlparse = λ u. none;
  urlunparse = λ u. u.path;
  ip_address_again = known_again;
  ip_address_strip = known_strip;
  ip_address_given = known_given;
}

abbrev pub udp_endpoint : Text → Endpoint
udp_endpoint ip = record {
  endpoint_id = none;
  ip = some ip;
  port = some 53;
  transport = codes "udp";
  uri = none;
  server_name = none;
  alpn = [];
}
