-- ===== src/Crypto/Merkle/Tests.antt =====
-- Runs of merkle.py's functions on small trees, and the theorems at concrete inputs.
use fanxiangdiguijiexi.Prelude.{
  ℕ, ◌≡◌, refl, true, false, ◌⊎◌, some, none, List, [], ◌∷◌, ◌++◌, map, arith, All, ◌<◌, ◌≤◌, Text,
  codes, lower, decimal, Outcome, ok, raised, PyError, index_error, value_error,
}
use fanxiangdiguijiexi.Crypto.Hex.{fromhex, hex, hex_to_bytes, bytes_to_hex}
use fanxiangdiguijiexi.Crypto.Toy.{toy_sha, copies, All-copies}
use fanxiangdiguijiexi.Crypto.Merkle.{
  Proof, sibling_index, sibling_hash, is_left, or_nil, merkle_leaf, merkle_root, build_merkle_proof,
  verify_merkle_proof, merkle_parent, next_level, root_loop, proof_loop, sibling_at, verify_loop,
  verify_step,
}
use fanxiangdiguijiexi.Crypto.Merkle.Complete.{verify-build}
use fanxiangdiguijiexi.Crypto.Merkle.Sound.{accepted-leaf_unique}
use fanxiangdiguijiexi.Crypto.Merkle.Hashed.{IsDigest, Clash}
use fanxiangdiguijiexi.Crypto.Merkle.Total.{build-returns, IsHex}

abbrev leaf_of : Text → ℕ → Text
leaf_of key version = merkle_leaf toy_sha key (codes "0xAB") version (codes "active")

abbrev leaf_a : Text
leaf_a = codes "0x0101010101010101010101010101010101010101010101010101010101010101"

abbrev leaf_b : Text
leaf_b = codes "0x02020202020202020202020202020202020202020202020202020202020202fF"

abbrev leaf_c : Text
leaf_c = codes "0x0303030303030303030303030303030303030303030303030303030303030303"

abbrev leaves : List Text
leaves = leaf_a ∷ leaf_b ∷ leaf_c ∷ []

decimal_run : decimal 1048576 ≡ codes "1048576"
unfolding decimal
decimal_run = refl

fromhex_run :
    (hex_to_bytes (codes "0xAb 0f") ≡ ok (171 ∷ 15 ∷ []))
    × (hex_to_bytes (codes "0xab0") ≡ raised value_error)
unfolding hex_to_bytes fromhex
fromhex_run = (refl, refl)

abbrev no_proof : Proof
no_proof = record { leaf_hash = none; siblings = none; root = none }

abbrev proof_or_none : Outcome PyError Proof → Proof
proof_or_none (ok proof) = proof
proof_or_none (raised _) = no_proof

abbrev text_or_nil : Outcome PyError Text → Text
text_or_nil (ok t) = t
text_or_nil (raised _) = []

-- The proof of the third leaf, whose sibling on the lowest level is itself.
abbrev proof_c : Proof
proof_c = proof_or_none (build_merkle_proof toy_sha leaves 2)

abbrev root_abc : Text
root_abc = text_or_nil (merkle_root toy_sha leaves)

built_c : build_merkle_proof toy_sha leaves 2 ≡ ok proof_c
unfolding build_merkle_proof proof_loop next_level merkle_parent sibling_at sibling_index
    hex_to_bytes fromhex bytes_to_hex hex lower
built_c = refl

verify-build_example :
    (root : Text) × (merkle_root toy_sha leaves ≡ ok root)
    × (proof_c.root ≡ some root)
    × (proof_c.leaf_hash ≡ some (lower leaf_c))
    × (verify_merkle_proof toy_sha leaf_c proof_c root ≡ ok true)
verify-build_example = verify-build toy_sha leaves 2 leaf_c proof_c refl built_c

sides_c : map is_left (or_nil proof_c.siblings) ≡ false ∷ true ∷ []
unfolding build_merkle_proof proof_loop next_level merkle_parent sibling_at sibling_index
    hex_to_bytes fromhex bytes_to_hex hex lower is_left
sides_c = refl

leaf_c-IsDigest : IsDigest leaf_c
unfolding bytes_to_hex hex
leaf_c-IsDigest = (copies 32 3, refl, All-copies 32 3 (omega arith), refl)

accepted_c : verify_merkle_proof toy_sha leaf_c proof_c root_abc ≡ ok true
unfolding build_merkle_proof proof_loop next_level merkle_parent sibling_at sibling_index
    hex_to_bytes fromhex bytes_to_hex hex lower is_left merkle_root root_loop verify_merkle_proof
    verify_loop verify_step sibling_hash
accepted_c = refl

accepted-leaf_unique_example :
    (leaf_c ≡ leaf_c)
    ⊎ Clash toy_sha leaf_c (or_nil proof_c.siblings) leaf_c (or_nil proof_c.siblings)
accepted-leaf_unique_example =
    accepted-leaf_unique toy_sha leaf_c leaf_c root_abc proof_c proof_c leaf_c-IsDigest
      leaf_c-IsDigest refl accepted_c accepted_c

leaves-IsHex : All IsHex (map lower leaves)
unfolding lower hex_to_bytes fromhex
leaves-IsHex = ((copies 32 1, refl), ((copies 31 2 ++ 255 ∷ [], refl), ((copies 32 3, refl), tt)))

build-returns_example :
    (1 < 3 → (proof : Proof) × (build_merkle_proof toy_sha leaves 1 ≡ ok proof))
    × (3 ≤ 1 → build_merkle_proof toy_sha leaves 1 ≡ raised index_error)
    × ((root : Text) × (merkle_root toy_sha leaves ≡ ok root))
build-returns_example = build-returns toy_sha leaves 1 leaves-IsHex

-- An index outside the leaves.
out_of_range : build_merkle_proof toy_sha leaves 3 ≡ raised index_error
unfolding build_merkle_proof
out_of_range = refl

-- A proof whose sibling is no hexadecimal raises, and is not accepted.
bad_sibling :
    verify_merkle_proof toy_sha leaf_c
      (record {
        leaf_hash = none;
        siblings = some (record { position = none; hash = some (codes "0xzz") } ∷ []);
        root = none;
      })
      root_abc
    ≡ raised value_error
unfolding verify_merkle_proof verify_loop verify_step sibling_hash is_left merkle_parent
    hex_to_bytes fromhex lower
bad_sibling = refl
