-- ===== src/Json/Signature.antt =====
-- A signature is made and checked over the same bytes, since the canonical text leaves out every
-- key "signature".
use fanxiangdiguijiexi.Prelude.{
  ◌≡◌, refl, ap, ap₂, sym, subst, Bool-cases, inl, inr, Text, codes, text_eq, text_eq→eq,
}
use fanxiangdiguijiexi.Json.{
  Value, null, bool, num, text, array, object, Items, nil, cons, Fields, end, field, keep_field,
  strip_signature, strip_items, strip_fields, canonical_json, dumps,
}

-- Two values that differ at most in fields named "signature", anywhere inside them.
mutual
  pub data Alike : Value → Value → Type 0 where
    same : {v : Value} → Alike v v
    in_array : {xs ys : Items} → AlikeItems xs ys → Alike (array xs) (array ys)
    in_object : {fs gs : Fields} → AlikeFields fs gs → Alike (object fs) (object gs)

  pub data AlikeItems : Items → Items → Type 0 where
    no_items : AlikeItems nil nil
    items :
        {v w : Value} {xs ys : Items}
        → Alike v w
        → AlikeItems xs ys
        → AlikeItems (cons v xs) (cons w ys)

  pub data AlikeFields : Fields → Fields → Type 0 where
    no_fields : AlikeFields end end
    fields :
        {k : Text} {v w : Value} {fs gs : Fields}
        → Alike v w
        → AlikeFields fs gs
        → AlikeFields (field k v fs) (field k w gs)
    signed_left :
        {v : Value} {fs gs : Fields}
        → AlikeFields fs gs
        → AlikeFields (field (codes "signature") v fs) gs
    signed_right :
        {v : Value} {fs gs : Fields}
        → AlikeFields fs gs
        → AlikeFields fs (field (codes "signature") v gs)

mutual
  unfolding strip_signature

  strip-Alike : (v w : Value) → Alike v w → strip_signature v ≡ strip_signature w
  strip-Alike v _ same = refl
  strip-Alike (array xs) (array ys) (in_array h) = ap array (strip_items-AlikeItems xs ys h)
  strip-Alike (object fs) (object gs) (in_object h) = ap object (strip_fields-AlikeFields fs gs h)

  strip_items-AlikeItems : (xs ys : Items) → AlikeItems xs ys → strip_items xs ≡ strip_items ys
  strip_items-AlikeItems _ _ no_items = refl
  strip_items-AlikeItems (cons v xs) (cons w ys) (items h hs) =
      ap₂ cons (strip-Alike v w h) (strip_items-AlikeItems xs ys hs)

  strip_fields-AlikeFields :
      (fs gs : Fields) → AlikeFields fs gs → strip_fields fs ≡ strip_fields gs
  strip_fields-AlikeFields _ _ no_fields = refl
  strip_fields-AlikeFields (field k v fs) (field _ w gs) (fields h hs) =
      ap₂ (keep_field k) (strip-Alike v w h) (strip_fields-AlikeFields fs gs hs)
  strip_fields-AlikeFields (field _ v fs) gs (signed_left hs) = strip_fields-AlikeFields fs gs hs
  strip_fields-AlikeFields fs (field _ v gs) (signed_right hs) = strip_fields-AlikeFields fs gs hs

keep-AlikeFields :
    (k : Text) (v w : Value) (fs gs : Fields)
    → Alike v w
    → AlikeFields fs gs
    → AlikeFields (field k v fs) (keep_field k w gs)
keep-AlikeFields k v w fs gs h hs = elim (Bool-cases (text_eq k (codes "signature"))) [
  | inl e ↦ rw e (
      subst (λ j. AlikeFields (field j v fs) gs) (sym (text_eq→eq k (codes "signature") e))
        (signed_left hs))
  | inr e ↦ rw e (fields h hs)
]

mutual
  unfolding strip_signature

  Alike-strip : (v : Value) → Alike v (strip_signature v)
  Alike-strip null = same
  Alike-strip (bool b) = same
  Alike-strip (num n) = same
  Alike-strip (text t) = same
  Alike-strip (array xs) = in_array (AlikeItems-strip xs)
  Alike-strip (object fs) = in_object (AlikeFields-strip fs)

  AlikeItems-strip : (xs : Items) → AlikeItems xs (strip_items xs)
  AlikeItems-strip nil = no_items
  AlikeItems-strip (cons v xs) = items (Alike-strip v) (AlikeItems-strip xs)

  AlikeFields-strip : (fs : Fields) → AlikeFields fs (strip_fields fs)
  AlikeFields-strip end = no_fields
  AlikeFields-strip (field k v fs) =
      keep-AlikeFields k v (strip_signature v) fs (strip_fields fs) (Alike-strip v)
        (AlikeFields-strip fs)

-- Two values that differ at most in fields named "signature", in objects at any depth, also inside
-- arrays, have the same canonical text; and that text is the JSON of a value that differs from the
-- given one at most in such fields.
pub canonical_json-unsigned :
    (v w : Value)
    → Alike v w
    → (canonical_json v ≡ canonical_json w)
      × ((u : Value) × Alike v u × (canonical_json v ≡ dumps u))
unfolding canonical_json
canonical_json-unsigned v w h =
    (ap dumps (strip-Alike v w h), (strip_signature v, Alike-strip v, refl))
