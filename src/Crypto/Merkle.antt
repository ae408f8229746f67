-- ===== src/Crypto/Merkle.antt =====
-- src/resolver_identity/crypto/merkle.py: leaves, roots, proofs and their verification.
pub mod Complete
pub mod Hashed
pub mod Sound
pub mod Total
mod Tests
use fanxiangdiguijiexi.Prelude.{
  ℕ, zero, suc, ◌+◌, ◌-◌, ◌/◌, ◌%◌, Bool, true, false, not, ◌&&◌, Option, none, some, List, [], ◌∷◌,
  ◌++◌, map, ltb, leb, ◌==◌, if◌then◌else◌, length, get_or, get_elem?, Text, codes, text_eq, lower,
  decimal, upper, Outcome, ok, raised, PyError, key_error, index_error, diverged, ◌>>=◌,
}
use fanxiangdiguijiexi.Crypto.Hex.{hex_to_bytes, bytes_to_hex}
use fanxiangdiguijiexi.Crypto.Sha.{Sha256, sha256_hex}

-- One entry of a proof's "siblings". A key that the JSON lacks is `none`.
pub record Sibling : Type 0 where
  pub position : Option Text
  pub hash : Option Text

pub record Proof : Type 0 where
  pub leaf_hash : Option Text
  pub siblings : Option (List Sibling)
  pub root : Option Text

abbrev left_text : Text
left_text = codes "left"

abbrev right_text : Text
right_text = codes "right"

abbrev node_prefix : List ℕ
node_prefix = codes "node-v1"

-- `index ^ 1`, or the index itself where that is outside the level.
unfoldable pub sibling_index : ℕ → ℕ → ℕ
sibling_index index size =
    let other = if index % 2 == 0 then index + 1 else index - 1 in
    if leb size other then index else other

unfoldable pub sibling_at : ℕ → List Text → Sibling
unfolding sibling_index
sibling_at index level =
    let other = sibling_index index (length level) in
    record {
      position = some (if ltb other index then left_text else right_text);
      hash = some (get_or level other []);
    }

unfoldable pub is_left : Sibling → Bool
is_left item = elim item.position [ none ↦ false | some p ↦ text_eq p left_text ]

-- `item["hash"].lower()`
unfoldable pub sibling_hash : Sibling → Outcome PyError Text
sibling_hash item = elim item.hash [ none ↦ raised key_error | some h ↦ ok (lower h) ]

abbrev pub or_else : Option Text → Text → Text
or_else none default = default
or_else (some v) default = v

abbrev pub or_nil : Option (List Sibling) → List Sibling
or_nil none = []
or_nil (some l) = l

-- `merkle_leaf`: the five parts joined by "|".
abbrev leaf_payload : Text → Text → ℕ → Text → Text
leaf_payload resolver_id_key object_hash object_version status =
    codes "resolver-leaf-v1|"
    ++ (lower resolver_id_key
        ++ b'|' ∷ (lower object_hash ++ b'|' ∷ (decimal object_version ++ b'|' ∷ upper status)))

module _ (s : Sha256) where
  unfoldable pub merkle_leaf : Text → Text → ℕ → Text → Text
  merkle_leaf resolver_id_key object_hash object_version status =
      sha256_hex s (leaf_payload resolver_id_key object_hash object_version status)

  unfoldable pub merkle_parent : Text → Text → Outcome PyError Text
  merkle_parent left right = do
    l ← hex_to_bytes left
    r ← hex_to_bytes right
    ok (bytes_to_hex (s.digest (node_prefix ++ l ++ r)))

  -- The inner `for idx in range(0, len(level), 2)`: a last node without a partner is its own.
  unfoldable pub next_level : List Text → Outcome PyError (List Text)
  next_level [] = ok []
  next_level (left ∷ []) = do parent ← merkle_parent left left; ok (parent ∷ [])
  next_level (left ∷ right ∷ rest) = do
    parent ← merkle_parent left right
    parents ← next_level rest
    ok (parent ∷ parents)

  -- `while len(level) > 1`, then `level[0]`. The fuel is the number of leaves.
  unfoldable pub root_loop : ℕ → List Text → Outcome PyError Text
  root_loop zero level = raised diverged
  root_loop (suc fuel) [] = raised index_error
  root_loop (suc fuel) (x ∷ []) = ok x
  root_loop (suc fuel) (x ∷ y ∷ rest) = do next ← next_level (x ∷ y ∷ rest); root_loop fuel next

  unfoldable pub merkle_root : List Text → Outcome PyError Text
  merkle_root [] = ok (sha256_hex s (codes "empty-root-v1"))
  merkle_root (x ∷ rest) = root_loop (length (x ∷ rest)) (map lower (x ∷ rest))

  -- The loop of `build_merkle_proof`: the siblings from the bottom up, and the last level's node.
  unfoldable pub proof_loop : ℕ → ℕ → List Text → Outcome PyError (List Sibling × Text)
  proof_loop zero index level = raised diverged
  proof_loop (suc fuel) index [] = raised index_error
  proof_loop (suc fuel) index (x ∷ []) = ok ([], x)
  proof_loop (suc fuel) index (x ∷ y ∷ rest) = do
    next ← next_level (x ∷ y ∷ rest)
    (above, root) ← proof_loop fuel (index / 2) next
    ok (sibling_at index (x ∷ y ∷ rest) ∷ above, root)

  unfoldable pub build_merkle_proof : List Text → ℕ → Outcome PyError Proof
  build_merkle_proof leaves target_index =
      if leb (length leaves) target_index then raised index_error else do
        (siblings, root) ← proof_loop (length leaves) target_index (map lower leaves)
        ok (record {
          leaf_hash = some (lower (get_or leaves target_index []));
          siblings = some siblings;
          root = some root;
        })

  unfoldable pub verify_step : Text → Sibling → Outcome PyError Text
  unfolding is_left sibling_hash
  verify_step current item = do
    sibling ← sibling_hash item
    if is_left item then merkle_parent sibling current else merkle_parent current sibling

  unfoldable pub verify_loop : Text → List Sibling → Outcome PyError Text
  verify_loop current [] = ok current
  verify_loop current (item ∷ rest) = do next ← verify_step current item; verify_loop next rest

  unfoldable pub verify_merkle_proof : Text → Proof → Text → Outcome PyError Bool
  verify_merkle_proof leaf_hash proof expected_root = do
    current ← verify_loop (lower leaf_hash) (or_nil proof.siblings)
    ok (
        text_eq (lower current) (lower expected_root)
        && text_eq (lower (or_else proof.root expected_root)) (lower expected_root))
