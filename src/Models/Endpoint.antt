-- ===== src/Models/Endpoint.antt =====
-- models/endpoint.py, and `endpoint_lookup_key` of admin/publisher.py.
pub mod Laws
pub mod Toy
mod Tests
use fanxiangdiguijiexi.Prelude.{
  ℕ, ◌+◌, Bool, true, false, not, ◌&&◌, ◌||◌, ◌≡◌, Option, none, some, List, [], ◌∷◌, ◌++◌, map,
  ◌==◌, if◌then◌else◌, Text, codes, text_eq, lower, strip, rstrip, truthy, given, or_blank, Outcome,
  ok, raised, PyError, value_error, ◌>>=◌, ◌>>◌, raise_if,
}
use fanxiangdiguijiexi.Json
use fanxiangdiguijiexi.Json.{Value, Items, nil, cons, Fields, end, field, canonical_json}
use fanxiangdiguijiexi.Crypto.Sha.{Sha256, sha256_hex}

pub record Endpoint : Type 0 where
  pub endpoint_id : Option Text
  pub ip : Option Text
  pub port : Option ℕ
  pub transport : Text
  pub uri : Option Text
  pub server_name : Option Text
  pub alpn : List Text

pub record Url : Type 0 where
  pub scheme : Text
  pub netloc : Text
  pub path : Text
  pub query : Text

-- `ipaddress.ip_address` with `str`, and `urllib.parse`, whose parsers are parameters; `none` is
-- their ValueError. `str` of an address is read back as the same address, has no white space
-- around it and is not empty.
pub record Net : Type 0 where
  pub ip_address : Text → Option Text
  pub urlparse : Text → Option Url
  pub urlunparse : Url → Text
  pub ip_address_again : (a b : Text) → ip_address a ≡ some b → ip_address b ≡ some b
  pub ip_address_strip : (a b : Text) → ip_address a ≡ some b → strip b ≡ b
  pub ip_address_given : (a b : Text) → ip_address a ≡ some b → truthy b ≡ true

abbrev or_value_error : Option Text → Outcome PyError Text
or_value_error none = raised value_error
or_value_error (some t) = ok t

unfoldable pub normalize_name : Text → Text
normalize_name value = lower (rstrip (λ c. c == b'.') (strip value))

-- `{"udp": 53, …}.get(transport.lower(), 53)`
unfoldable pub default_port : Text → ℕ
default_port transport =
    let t = lower transport in
    if text_eq t (codes "dot")
    then 853
    else if text_eq t (codes "doh")
    then 443
    else if text_eq t (codes "doq")
    then 853
    else 53

-- `f(x) if x else None`
abbrev pub when_given : (Text → Outcome PyError Text) → Option Text → Outcome PyError (Option Text)
when_given f none = ok none
when_given f (some []) = ok none
when_given f (some (c ∷ t)) = f (c ∷ t) >>= λ v. ok (some v)

abbrev pub port_or : Option ℕ → ℕ → ℕ
port_or none default = default
port_or (some p) default = p

module _ (net : Net) where
  unfoldable pub canonical_ip : Text → Outcome PyError Text
  canonical_ip value = or_value_error (net.ip_address (strip value))

  abbrev rebuilt_uri : Option Url → Outcome PyError Text
  rebuilt_uri none = raised value_error
  rebuilt_uri (some url) = ok (
      net.urlunparse (record {
        scheme = lower url.scheme;
        netloc = lower url.netloc;
        path = if truthy url.path then url.path else codes "/";
        query = url.query;
      }))

  unfoldable pub canonical_uri : Text → Outcome PyError Text
  canonical_uri value = rebuilt_uri (net.urlparse (strip value))

  unfoldable pub normalized : Endpoint → Outcome PyError Endpoint
  normalized e = do
    ip ← when_given canonical_ip e.ip
    name ← when_given (λ n. ok (normalize_name n)) e.server_name
    uri ← when_given canonical_uri e.uri
    ok (record {
      endpoint_id = e.endpoint_id;
      ip = ip;
      port = some (port_or e.port (default_port e.transport));
      transport = lower e.transport;
      uri = uri;
      server_name = name;
      alpn = map lower e.alpn;
    })

-- `from_dict`, on a dict read into a record: an absent or empty transport is "udp".
module _ (net : Net) where
  unfoldable pub from_dict : Endpoint → Outcome PyError Endpoint
  unfolding normalized
  from_dict fields = normalized net (record fields {
    transport = if truthy fields.transport then lower fields.transport else codes "udp";
  })

-- `a and b and a != b`
unfoldable pub both_differ : Option Text → Option Text → Bool
both_differ a b = given a && given b && not (text_eq (or_blank a) (or_blank b))

unfoldable pub both_given : Option Text → Option Text → Bool
both_given a b = given a && given b

abbrev pub port_eq : Option ℕ → Option ℕ → Bool
port_eq none none = true
port_eq none (some q) = false
port_eq (some p) none = false
port_eq (some p) (some q) = p == q

-- The tests of `matches`, on normalized endpoints.
unfoldable pub same_endpoint : Endpoint → Endpoint → Bool
same_endpoint expected observed =
    if not (text_eq expected.transport observed.transport)
    then false
    else if not (port_eq expected.port observed.port)
    then false
    else if both_differ expected.ip observed.ip
    then false
    else if both_differ expected.uri observed.uri
    then false
    else if both_differ expected.server_name observed.server_name
    then false
    else both_given expected.ip observed.ip
      || both_given expected.uri observed.uri
      || both_given expected.server_name observed.server_name

-- `out[key] = value` if the value is not `None`.
abbrev text_field : Text → Option Text → Fields → Fields
text_field k none rest = rest
text_field k (some t) rest = field k (Value.text t) rest

abbrev num_field : Text → Option ℕ → Fields → Fields
num_field k none rest = rest
num_field k (some n) rest = field k (Value.num n) rest

abbrev text_items : List Text → Items
text_items [] = nil
text_items (t ∷ l) = cons (Value.text t) (text_items l)

abbrev list_field : Text → List Text → Fields → Fields
list_field k [] rest = rest
list_field k (t ∷ l) rest = field k (Value.array (text_items (t ∷ l))) rest

-- `to_dict`, with or without the key "endpoint_id".
unfoldable pub binding_fields : Endpoint → Fields
binding_fields e = text_field (codes "ip") e.ip (
    num_field (codes "port") e.port (
      field (codes "transport") (Value.text e.transport) (
        text_field (codes "uri") e.uri
          (text_field (codes "server_name") e.server_name (list_field (codes "alpn") e.alpn end)))))

unfoldable pub to_dict : Endpoint → Value
unfolding binding_fields
to_dict e = Value.object (text_field (codes "endpoint_id") e.endpoint_id (binding_fields e))

module _ (net : Net) where
  unfoldable pub matches : Endpoint → Endpoint → Outcome PyError Bool
  matches self observed = do
    expected ← normalized net self
    seen ← normalized net observed
    ok (same_endpoint expected seen)

  -- `endpoint_lookup_key` of admin/publisher.py.
  unfoldable pub endpoint_lookup_key : Sha256 → Endpoint → Outcome PyError Text
  endpoint_lookup_key s endpoint = do
    e ← normalized net endpoint
    raise_if (not (given e.ip || given e.server_name || given e.uri)) value_error
    ok (sha256_hex s (codes "endpoint-v2:" ++ canonical_json (Value.object (binding_fields e))))
