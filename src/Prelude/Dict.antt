-- ===== src/Prelude/Dict.antt =====
-- A Python dict with text keys, in insertion order.
use mathlib.Core.Path.{◌≡◌, refl}
use mathlib.Core.Bool.{Bool, true, false}
use mathlib.Core.Option.{Option, none, some}
use mathlib.Core.List.{List, [], ◌∷◌}
use Prim.Native.Nat.{◌+◌, ◌≤◌}
use native.Mathlib.Omega.{arith}
use fanxiangdiguijiexi.Prelude.Tests.{if◌then◌else◌}
use fanxiangdiguijiexi.Prelude.Lists.{length}
use fanxiangdiguijiexi.Prelude.Strings.{Text, text_eq, text_eq_iff, text_eq_refl}

abbrev pub Dict {ℓ} : Type ℓ → Type ℓ
Dict V = List (Text × V)

module _ {ℓ} {V : Type ℓ} where
  -- `d.get(k)`
  unfoldable pub get : Text → Dict V → Option V
  get k [] = none
  get k ((j, v) ∷ d) = if text_eq j k then some v else get k d

  -- `d[k] = v`: an old key keeps its place.
  unfoldable pub put : Text → V → Dict V → Dict V
  put k v [] = (k, v) ∷ []
  put k v ((j, w) ∷ d) = if text_eq j k then (k, v) ∷ d else (j, w) ∷ put k v d

  -- `d.pop(k, None)`
  unfoldable pub remove : Text → Dict V → Dict V
  remove k [] = []
  remove k ((j, w) ∷ d) = let rest = remove k d in if text_eq j k then rest else (j, w) ∷ rest

  -- `k in d`
  abbrev pub contains : Text → Dict V → Bool
  contains k d = elim (get k d) [ none ↦ false | some _ ↦ true ]

  -- The values changed in place.
  unfoldable pub map_values : (V → V) → Dict V → Dict V
  map_values f [] = []
  map_values f ((j, w) ∷ d) = (j, f w) ∷ map_values f d

  pub get-put :
      (k j : Text) (v : V) (d : Dict V)
      → get j (put k v d) ≡ (if text_eq k j then some v else get j d)
  unfolding get put
  get-put k j v [] = refl
  get-put k j v ((i, w) ∷ d) =
      ground (arith, text_eq_iff k j, text_eq_iff i k, text_eq_iff i j, get-put k j v d)

  pub get-put_same : (k : Text) (v : V) (d : Dict V) → get k (put k v d) ≡ some v
  get-put_same k v d = ground (arith, get-put k k v d, text_eq_refl k)

  pub get-remove :
      (k j : Text) (d : Dict V) → get j (remove k d) ≡ (if text_eq k j then none else get j d)
  unfolding get remove
  get-remove k j [] = ground arith
  get-remove k j ((i, w) ∷ d) =
      ground (arith, text_eq_iff k j, text_eq_iff i k, text_eq_iff i j, get-remove k j d)

  pub length-put : (k : Text) (v : V) (d : Dict V) → length (put k v d) ≤ length d + 1
  unfolding put
  length-put k v [] = omega arith
  length-put k v ((i, w) ∷ d) = ground (arith, length-put k v d)

  abbrev pub map_found : (V → V) → Option V → Option V
  map_found f none = none
  map_found f (some v) = some (f v)

  pub get-map_values :
      (f : V → V) (k : Text) (d : Dict V) → get k (map_values f d) ≡ map_found f (get k d)
  unfolding get map_values
  get-map_values f k [] = refl
  get-map_values f k ((i, w) ∷ d) = ground (arith, get-map_values f k d)

pub ruleset dict_laws = (get-put, get-remove, get-map_values)
