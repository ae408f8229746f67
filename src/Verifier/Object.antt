-- ===== src/Verifier/Object.antt =====
-- models/authenticity_object.py and common/time.py, and the checks of verifier/policy.py. A time is
-- a number of microseconds. A field that holds a value of another type than its own raises
-- TypeError when the object is read, where Python raises when it is used.
use fanxiangdiguijiexi.Prelude.{
  ℕ, Option, none, some, List, [], ◌∷◌, ◌==◌, if◌then◌else◌, Text, codes, text_eq, Outcome, PyError,
  key_error, type_error, value_error, ok, raised, ◌>>=◌,
}
use fanxiangdiguijiexi.Json.{Value, Items, Fields, null, text, array, object, nil, cons, end, field}
use fanxiangdiguijiexi.Models.Endpoint.{Endpoint, Net, from_dict}
use fanxiangdiguijiexi.Cache.Store.{int_value}

-- `datetime.fromisoformat`, taken to UTC; a time without a zone is in UTC.
pub record Clock : Type 0 where
  pub fromisoformat : Text → Option ℕ

-- `value[:-1] + "+00:00"` if `value.endswith("Z")`
unfoldable pub zone_of_z : Text → Text
zone_of_z [] = []
zone_of_z (c ∷ []) = if c == b'Z' then codes "+00:00" else c ∷ []
zone_of_z (c ∷ d ∷ t) = c ∷ zone_of_z (d ∷ t)

abbrev or_time_error : Option ℕ → Outcome PyError ℕ
or_time_error none = raised value_error
or_time_error (some t) = ok t

unfoldable pub parse_rfc3339 : Clock → Text → Outcome PyError ℕ
unfolding zone_of_z
parse_rfc3339 clock t = or_time_error (clock.fromisoformat (zone_of_z t))

-- `data.get(key)`
unfoldable pub lookup : Text → Fields → Option Value
lookup key end = none
lookup key (field k v rest) = if text_eq k key then some v else lookup key rest

abbrev pub text_of : Value → Outcome PyError Text
text_of (text t) = ok t
text_of _ = raised type_error

-- `data[key]`
abbrev required_in : Option Value → Outcome PyError Text
required_in none = raised key_error
required_in (some v) = text_of v

unfoldable pub required : Text → Fields → Outcome PyError Text
unfolding lookup
required key fields = required_in (lookup key fields)

-- `data.get(key)` for a text or None.
abbrev optional_in : Option Value → Outcome PyError (Option Text)
optional_in none = ok none
optional_in (some null) = ok none
optional_in (some v) = text_of v >>= λ t. ok (some t)

unfoldable pub optional : Text → Fields → Outcome PyError (Option Text)
unfolding lookup
optional key fields = optional_in (lookup key fields)

-- `data.get(key, default)`
abbrev pub text_or : Option Value → Text → Outcome PyError Text
text_or none default = ok default
text_or (some v) default = text_of v

-- `int(data.get(key, default))`
abbrev pub int_or : Option Value → ℕ → Outcome PyError ℕ
int_or none default = ok default
int_or (some v) default = int_value v

abbrev port_of : Option Value → Outcome PyError (Option ℕ)
port_of none = ok none
port_of (some null) = ok none
port_of (some v) = int_value v >>= λ n. ok (some n)

unfoldable pub texts_of : Items → Outcome PyError (List Text)
texts_of nil = ok []
texts_of (cons v rest) = do t ← text_of v; ts ← texts_of rest; ok (t ∷ ts)

abbrev pub list_of : Option Value → Outcome PyError (List Text)
list_of none = ok []
list_of (some null) = ok []
list_of (some (array items)) = texts_of items
list_of (some _) = raised type_error

abbrev or_empty : Option Text → Text
or_empty none = []
or_empty (some t) = t

-- The dict of an endpoint as a record.
unfoldable pub read_endpoint : Fields → Outcome PyError Endpoint
unfolding optional texts_of
read_endpoint fields = do
  endpoint_id ← optional (codes "endpoint_id") fields
  ip ← optional (codes "ip") fields
  port ← port_of (lookup (codes "port") fields)
  transport ← optional (codes "transport") fields
  uri ← optional (codes "uri") fields
  server_name ← optional (codes "server_name") fields
  alpn ← list_of (lookup (codes "alpn") fields)
  ok (record {
    endpoint_id = endpoint_id;
    ip = ip;
    port = port;
    transport = or_empty transport;
    uri = uri;
    server_name = server_name;
    alpn = alpn;
  })

pub record Operator : Type 0 where
  pub operator_id : Text
  pub name : Text
  pub trust_domain : Option Text

abbrev pub fields_of : Value → Outcome PyError Fields
fields_of (object fields) = ok fields
fields_of _ = raised type_error

unfoldable pub operator_from_dict : Value → Outcome PyError Operator
unfolding required optional
operator_from_dict v = do
  data_fields ← fields_of v
  operator_id ← required (codes "operator_id") data_fields
  name ← required (codes "name") data_fields
  trust_domain ← optional (codes "trust_domain") data_fields
  ok (record { operator_id = operator_id; name = name; trust_domain = trust_domain })

pub record ResolverObject : Type 0 where
  pub resolver_id : Text
  pub resolver_type : Text
  pub operator : Operator
  pub endpoints : List Endpoint
  pub valid_from : Text
  pub valid_until : Text
  pub object_version : ℕ
  pub issuer : Text
  pub key_id : Text
  pub schema_version : Text
  pub canonical_version : ℕ
  pub status : Text
  pub attestation : Fields
  pub signature : Option Text

abbrev pub required_value : Option Value → Outcome PyError Value
required_value none = raised key_error
required_value (some v) = ok v

abbrev pub items_or : Option Value → Outcome PyError Items
items_or none = ok nil
items_or (some (array items)) = ok items
items_or (some _) = raised type_error

-- `dict(data.get("attestation") or {})`
abbrev pub fields_or : Option Value → Outcome PyError Fields
fields_or none = ok end
fields_or (some null) = ok end
fields_or (some v) = fields_of v

abbrev pub active_text : Text
active_text = codes "ACTIVE"

module _ (net : Net) where
  unfoldable pub endpoints_from : Items → Outcome PyError (List Endpoint)
  unfolding read_endpoint
  endpoints_from nil = ok []
  endpoints_from (cons v rest) = do
    fields ← fields_of v
    raw ← read_endpoint fields
    e ← from_dict net raw
    es ← endpoints_from rest
    ok (e ∷ es)

  unfoldable pub object_from_dict : Value → Outcome PyError ResolverObject
  unfolding endpoints_from operator_from_dict required optional
  object_from_dict v = do
    d ← fields_of v
    schema_version ← text_or (lookup (codes "schema_version") d) (codes "resolver-auth-object-v1")
    canonical_version ← int_or (lookup (codes "canonical_version") d) 1
    resolver_id ← required (codes "resolver_id") d
    resolver_type ← text_or (lookup (codes "resolver_type") d) (codes "recursive-forwarder")
    operator_value ← required_value (lookup (codes "operator") d)
    operator ← operator_from_dict operator_value
    items ← items_or (lookup (codes "endpoints") d)
    endpoints ← endpoints_from items
    attestation ← fields_or (lookup (codes "attestation") d)
    valid_from ← required (codes "valid_from") d
    valid_until ← required (codes "valid_until") d
    status ← text_or (lookup (codes "status") d) active_text
    object_version ← int_or (lookup (codes "object_version") d) 1
    issuer ← required (codes "issuer") d
    key_id ← required (codes "key_id") d
    signature ← optional (codes "signature") d
    ok (record {
      resolver_id = resolver_id;
      resolver_type = resolver_type;
      operator = operator;
      endpoints = endpoints;
      valid_from = valid_from;
      valid_until = valid_until;
      object_version = object_version;
      issuer = issuer;
      key_id = key_id;
      schema_version = schema_version;
      canonical_version = canonical_version;
      status = status;
      attestation = attestation;
      signature = signature;
    })
