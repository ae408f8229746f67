-- ===== src/Verifier/Keys.antt =====
-- crypto/keys.py and crypto/signatures.py: the issuers' keys, and the signature of an object.
use fanxiangdiguijiexi.Prelude.{
  Bool, true, false, ◌&&◌, Option, none, some, List, [], ◌∷◌, ◌++◌, ◌==◌, if◌then◌else◌, length,
  drop, Text, codes, text_eq, lower,
}
use fanxiangdiguijiexi.Json.{Value, Fields, text, object, canonical_json}
use fanxiangdiguijiexi.Verifier.Object.{lookup}

-- `hmac` and `cryptography`: a MAC in base64 by secret and message, and whether a public key and a
-- signature, both in base64, decode and verify a message.
pub record Signer : Type 0 where
  pub hmac_sha256 : Text → Text → Text
  pub ed25519_verify : Text → Text → Text → Bool

pub record IssuerPublicKey : Type 0 where
  pub issuer : Text
  pub key_id : Text
  pub algorithm : Text
  pub public_key : Text

-- `IssuerKeyRegistry`: the keys in the order in which they were added.
abbrev pub IssuerKeyRegistry : Type 0
IssuerKeyRegistry = List IssuerPublicKey

abbrev same_key : Text → Text → IssuerPublicKey → Bool
same_key issuer key_id key = text_eq key.issuer issuer && text_eq key.key_id key_id

abbrev last_key : Option IssuerPublicKey → Text → Text → IssuerKeyRegistry → Option IssuerPublicKey
last_key found issuer key_id [] = found
last_key found issuer key_id (key ∷ rest) =
    last_key (if same_key issuer key_id key then some key else found) issuer key_id rest

-- `get`, after every `add`: a later key of one issuer and id replaces an earlier one.
unfoldable pub get_key : Text → Text → IssuerKeyRegistry → Option IssuerPublicKey
get_key issuer key_id registry = last_key none issuer key_id registry

abbrev pub hmac_prefix : Text
hmac_prefix = codes "base64:hmac-sha256:"

abbrev pub ed25519_prefix : Text
ed25519_prefix = codes "base64:ed25519:"

-- `value.startswith(prefix)`
unfoldable pub starts_with : Text → Text → Bool
starts_with [] t = true
starts_with (c ∷ p) [] = false
starts_with (c ∷ p) (d ∷ t) = c == d && starts_with p t

abbrev text_in : Option Value → Option Text
text_in (some (text t)) = some t
text_in _ = none

-- `obj_dict.get(key)` where it is a string.
unfoldable pub text_at : Text → Fields → Option Text
unfolding lookup
text_at key fields = text_in (lookup key fields)

abbrev blank_or : Option Value → Option Text
blank_or none = some []
blank_or v = text_in v

module _ (signer : Signer) where
  -- `sign_object_hmac`
  unfoldable pub sign_object_hmac : Fields → Text → Text
  sign_object_hmac fields secret =
      hmac_prefix ++ signer.hmac_sha256 secret (canonical_json (object fields))

  abbrev hmac_matches : Option Text → Fields → Text → Bool
  hmac_matches none fields secret = false
  hmac_matches (some signature) fields secret =
      if starts_with hmac_prefix signature
      then text_eq signature (sign_object_hmac fields secret)
      else false

  unfoldable pub verify_object_signature : Fields → Text → Bool
  unfolding text_at starts_with
  verify_object_signature fields secret =
      hmac_matches (text_at (codes "signature") fields) fields secret

  abbrev ed25519_by : Option IssuerPublicKey → Text → Fields → Bool
  ed25519_by none signature fields = false
  ed25519_by (some key) signature fields =
      text_eq (lower key.algorithm) (codes "ed25519")
      && signer.ed25519_verify key.public_key (drop (length ed25519_prefix) signature)
          (canonical_json (object fields))

  abbrev key_for : Option Text → Option Text → IssuerKeyRegistry → Option IssuerPublicKey
  key_for (some issuer) (some key_id) registry = get_key issuer key_id registry
  key_for _ _ registry = none

  abbrev hmac_with : Option Text → Fields → Bool
  hmac_with none fields = false
  hmac_with (some secret) fields = verify_object_signature fields secret

  abbrev ed25519_with : Option IssuerKeyRegistry → Text → Fields → Bool
  ed25519_with none signature fields = false
  ed25519_with (some registry) signature fields =
      starts_with ed25519_prefix signature
      && ed25519_by
          (key_for (blank_or (lookup (codes "issuer") fields))
            (blank_or (lookup (codes "key_id") fields)) registry)
          signature fields

  abbrev verify_signature_text :
      Option Text → Fields → Option IssuerKeyRegistry → Option Text → Bool
  verify_signature_text none fields registry secret = false
  verify_signature_text (some signature) fields registry secret =
      if starts_with hmac_prefix signature
      then hmac_with secret fields
      else ed25519_with registry signature fields

  -- `verify_object_signature_with_registry`
  unfoldable pub verify_object_signature_with_registry :
      Value → Option IssuerKeyRegistry → Option Text → Bool
  unfolding text_at starts_with verify_object_signature get_key
  verify_object_signature_with_registry (object fields) registry secret =
      verify_signature_text (text_at (codes "signature") fields) fields registry secret
  verify_object_signature_with_registry _ registry secret = false
