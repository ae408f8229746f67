-- ===== src/Json/Tests.antt =====
-- Runs of canonical_json.py.
use fanxiangdiguijiexi.Prelude.{◌≡◌, refl, codes, decimal}
use fanxiangdiguijiexi.Json.{
  Value, object, array, text, num, field, end, cons, nil, Fields, strip_signature, canonical_json,
  dumps, quote, sort_keys, insert_sorted, join, pair_text, text_le,
}
use fanxiangdiguijiexi.Json.Signature.{
  Alike, same, in_array, in_object, no_items, items, no_fields, fields, signed_left, signed_right,
  canonical_json-unsigned,
}

abbrev inner : Fields
inner = field (codes "signature") (text (codes "y")) (field (codes "n") (num 12) end)

abbrev sample : Fields
sample =
    field (codes "b") (array (cons (object inner) nil)) (field (codes "a") (text (codes "q\"")) end)

-- Keys are sorted, quotes are escaped, and the inner signature goes.
sample_text : canonical_json (object sample) ≡ codes "{\"a\":\"q\\\"\",\"b\":[{\"n\":12}]}"
unfolding canonical_json dumps strip_signature quote sort_keys insert_sorted join pair_text text_le
    decimal
sample_text = refl

-- The sample with a signature of its own, and without the inner one.
abbrev resigned : Fields
resigned = field (codes "signature") (text (codes "x")) (
    field (codes "b") (array (cons (object (field (codes "n") (num 12) end)) nil))
      (field (codes "a") (text (codes "q\"")) end))

resigned-Alike : Alike (object sample) (object resigned)
resigned-Alike = in_object (
    signed_right (
      fields (in_array (items (in_object (signed_left (fields same no_fields))) no_items))
        (fields same no_fields)))

canonical_json-unsigned_example :
    (canonical_json (object sample) ≡ canonical_json (object resigned))
    × ((u : Value) × Alike (object sample) u × (canonical_json (object sample) ≡ dumps u))
canonical_json-unsigned_example =
    canonical_json-unsigned (object sample) (object resigned) resigned-Alike
