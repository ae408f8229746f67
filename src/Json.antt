-- ===== src/Json.antt =====
-- src/resolver_identity/crypto/canonical_json.py: JSON values, `strip_signature` and the canonical
-- text. Numbers are the non-negative integers, which are all that the signed payloads hold.
pub mod Signature
mod Tests
use fanxiangdiguijiexi.Prelude.{
  truthy, not, ℕ, ◌+◌, ◌/◌, ◌%◌, Bool, true, false, Option, none, some, List, [], ◌∷◌, ◌++◌, map,
  ◌&&◌, ◌||◌, ltb, ◌==◌, if◌then◌else◌, Text, codes, text_eq, decimal,
}
use fanxiangdiguijiexi.Crypto.Hex.{hex_digit}

mutual
  pub data Value : Type 0 where
    null : Value
    bool : Bool → Value
    num : ℕ → Value
    text : Text → Value
    array : Items → Value
    object : Fields → Value

  pub data Items : Type 0 where
    nil : Items
    cons : Value → Items → Items

  pub data Fields : Type 0 where
    end : Fields
    field : Text → Value → Fields → Fields

abbrev signature_key : Text
signature_key = codes "signature"

-- One pair of the comprehension in `strip_signature`.
abbrev keep_field : Text → Value → Fields → Fields
keep_field k v rest = if text_eq k signature_key then rest else field k v rest

unfoldable mutual
  pub strip_signature : Value → Value
  strip_signature null = null
  strip_signature (bool b) = bool b
  strip_signature (num n) = num n
  strip_signature (text t) = text t
  strip_signature (array xs) = array (strip_items xs)
  strip_signature (object fs) = object (strip_fields fs)

  pub strip_items : Items → Items
  strip_items nil = nil
  strip_items (cons v xs) = cons (strip_signature v) (strip_items xs)

  pub strip_fields : Fields → Fields
  strip_fields end = end
  strip_fields (field k v fs) = keep_field k (strip_signature v) (strip_fields fs)

-- What `json.dumps` writes for one character inside a string, with `ensure_ascii=False`.
escape_code : ℕ → Text
unfolding hex_digit
escape_code c =
    if c == b'"'
    then codes "\\\""
    else if c == b'\\'
    then codes "\\\\"
    else if c == 10
    then codes "\\n"
    else if c == 13
    then codes "\\r"
    else if c == 9
    then codes "\\t"
    else if c == 12
    then codes "\\f"
    else if c == 8
    then codes "\\b"
    else if ltb c 32
    then codes "\\u00" ++ hex_digit (c / 16) ∷ hex_digit (c % 16) ∷ []
    else c ∷ []

escape : Text → Text
unfolding escape_code
escape [] = []
escape (c ∷ s) = escape_code c ++ escape s

unfoldable pub quote : Text → Text
unfolding escape
quote s = b'"' ∷ (escape s ++ b'"' ∷ [])

-- Python's order of strings: by code points.
unfoldable pub text_le : Text → Text → Bool
text_le [] t = true
text_le (b ∷ s) [] = false
text_le (b ∷ s) (c ∷ t) = ltb b c || (b == c && text_le s t)

-- `sort_keys=True`, on keys with the texts of their values.
unfoldable pub insert_sorted : Text × Text → List (Text × Text) → List (Text × Text)
insert_sorted p [] = p ∷ []
insert_sorted p (q ∷ l) = if text_le p.0 q.0 then p ∷ q ∷ l else q ∷ insert_sorted p l

unfoldable pub sort_keys : List (Text × Text) → List (Text × Text)
unfolding insert_sorted
sort_keys [] = []
sort_keys (p ∷ l) = insert_sorted p (sort_keys l)

-- `",".join(parts)`
unfoldable pub join : List Text → Text
join [] = []
join (t ∷ []) = t
join (t ∷ u ∷ rest) = t ++ b',' ∷ join (u ∷ rest)

unfoldable pub pair_text : Text × Text → Text
unfolding quote
pair_text (k, v) = quote k ++ b':' ∷ v

unfoldable mutual
  unfolding quote sort_keys join pair_text decimal

  pub dumps : Value → Text
  dumps null = codes "null"
  dumps (bool true) = codes "true"
  dumps (bool false) = codes "false"
  dumps (num n) = decimal n
  dumps (text t) = quote t
  dumps (array xs) = b'[' ∷ (join (dump_items xs) ++ b']' ∷ [])
  dumps (object fs) = b'{' ∷ (join (map pair_text (sort_keys (dump_fields fs))) ++ b'}' ∷ [])

  pub dump_items : Items → List Text
  dump_items nil = []
  dump_items (cons v xs) = dumps v ∷ dump_items xs

  pub dump_fields : Fields → List (Text × Text)
  dump_fields end = []
  dump_fields (field k v fs) = (k, dumps v) ∷ dump_fields fs

-- `canonical_json_bytes`, which on ASCII text are the code points of `canonical_json_text`.
unfoldable pub canonical_json : Value → Text
canonical_json v = dumps (strip_signature v)

-- `out[key] = v` for a key that `out` has not.
abbrev pub append_field : Fields → Text → Value → Fields
append_field end k v = field k v end
append_field (field j w fs) k v = field j w (append_field fs k v)

-- Python's truth of a JSON value.
abbrev pub is_true : Value → Bool
is_true null = false
is_true (bool b) = b
is_true (num n) = not (n == 0)
is_true (text t) = truthy t
is_true (array nil) = false
is_true (array (cons v rest)) = true
is_true (object end) = false
is_true (object (field k v rest)) = true
