-- ===== src/Crypto/Merkle/Total.antt =====
-- `build_merkle_proof` and `merkle_root` return on every list of leaves in hexadecimal: no parent
-- raises, and the number of leaves is enough fuel for the loops.
use fanxiangdiguijiexi.Prelude.{
  ℕ, zero, suc, ◌+◌, ◌/◌, ◌≤◌, ◌<◌, ◌≡◌, refl, false, List, [], ◌∷◌, ◌++◌, map, arith, leb, length,
  All, Text, codes, get_or, some, le→leb, lower, ok, raised, index_error,
}
use fanxiangdiguijiexi.Crypto.Hex.{hex_to_bytes, bytes_to_hex, hex_to_bytes-bytes_to_hex}
use fanxiangdiguijiexi.Crypto.Sha.{Sha256, sha256_hex}
use fanxiangdiguijiexi.Crypto.Merkle.{
  Sibling, Proof, sibling_at, merkle_parent, next_level, root_loop, merkle_root, proof_loop,
  build_merkle_proof,
}

-- A text that `bytes.fromhex` accepts, behind an optional "0x".
abbrev pub IsHex : Text → Type 0
IsHex t = (bs : List ℕ) × (hex_to_bytes t ≡ ok bs)

module _ (s : Sha256) where
  parent_returns :
      (l r : Text) → IsHex l → IsHex r → (p : Text) × (merkle_parent s l r ≡ ok p) × IsHex p
  unfolding merkle_parent
  parent_returns l r (a, e) (b, e') =
      let m = codes "node-v1" ++ a ++ b in
      (
        bytes_to_hex (s.digest m),
        rw (e, e'),
        (s.digest m, hex_to_bytes-bytes_to_hex (s.digest m) (s.digest_bytes m)),
      )

  -- A level is halved, rounded up.
  next_level_returns :
      (level : List Text)
      → All IsHex level
      → (next : List Text) × (next_level s level ≡ ok next)
        × (length next ≡ (length level + 1) / 2)
        × All IsHex next
  unfolding next_level
  next_level_returns [] h = ([], refl, omega arith, tt)
  next_level_returns (l ∷ []) h =
      let (p, e, hp) = parent_returns l l h.0 h.0 in (p ∷ [], rw e, omega arith, (hp, tt))
  next_level_returns (l ∷ r ∷ rest) h =
      let (p, e, hp) = parent_returns l r h.0 h.1.0 in
      let (ps, e', n, hps) = next_level_returns rest h.1.1 in
      (p ∷ ps, rw (e, e'), omega arith, (hp, hps))

  root_loop_returns :
      (fuel : ℕ) (level : List Text)
      → All IsHex level
      → length level ≤ fuel
      → 0 < length level
      → (root : Text) × (root_loop s fuel level ≡ ok root) × IsHex root
  unfolding root_loop
  root_loop_returns fuel [] h le pos = absurd (omega arith)
  root_loop_returns zero (x ∷ rest) h le pos = absurd (omega arith)
  root_loop_returns (suc fuel) (x ∷ []) h le pos = (x, refl, h.0)
  root_loop_returns (suc fuel) (x ∷ y ∷ rest) h le pos =
      let (next, e, n, hn) = next_level_returns (x ∷ y ∷ rest) h in
      let (root, e', hr) = root_loop_returns fuel next hn (omega arith) (omega arith) in
      (root, rw (e, e'), hr)

  proof_loop_returns :
      (fuel i : ℕ) (level : List Text)
      → All IsHex level
      → length level ≤ fuel
      → 0 < length level
      → (siblings : List Sibling) × (root : Text) × (proof_loop s fuel i level
          ≡ ok (siblings, root))
  unfolding proof_loop
  proof_loop_returns fuel i [] h le pos = absurd (omega arith)
  proof_loop_returns zero i (x ∷ rest) h le pos = absurd (omega arith)
  proof_loop_returns (suc fuel) i (x ∷ []) h le pos = ([], x, refl)
  proof_loop_returns (suc fuel) i (x ∷ y ∷ rest) h le pos =
      let (next, e, n, hn) = next_level_returns (x ∷ y ∷ rest) h in
      let (above, root, e') = proof_loop_returns fuel (i / 2) next hn (omega arith) (omega arith) in
      (sibling_at i (x ∷ y ∷ rest) ∷ above, root, rw (e, e'))

  length-lower : (leaves : List Text) → length (map lower leaves) ≡ length leaves
  length-lower [] = refl
  length-lower (x ∷ xs) = omega (arith, length-lower xs)

  build_in_range :
      (leaves : List Text) (i : ℕ)
      → All IsHex (map lower leaves)
      → i < length leaves
      → (proof : Proof) × (build_merkle_proof s leaves i ≡ ok proof)
  unfolding build_merkle_proof
  build_in_range leaves i h lt =
      let n = length-lower leaves in
      let (siblings, root, e) =
        proof_loop_returns (length leaves) i (map lower leaves) h (omega arith) (omega arith) in
      let inside : leb (length leaves) i ≡ false = ground arith in
      (
        record {
          leaf_hash = some (lower (get_or leaves i []));
          siblings = some siblings;
          root = some root;
        },
        rw (inside, e),
      )

  build_out_of_range :
      (leaves : List Text) (i : ℕ)
      → length leaves ≤ i
      → build_merkle_proof s leaves i ≡ raised index_error
  unfolding build_merkle_proof
  build_out_of_range leaves i le = rw (le→leb (length leaves) i le)

  root_returns :
      (leaves : List Text)
      → All IsHex (map lower leaves)
      → (root : Text) × (merkle_root s leaves ≡ ok root)
  unfolding merkle_root sha256_hex
  root_returns [] h = (bytes_to_hex (s.digest (codes "empty-root-v1")), refl)
  root_returns (x ∷ rest) h =
      let n = length-lower (x ∷ rest) in
      let (root, e, _) =
        root_loop_returns (length (x ∷ rest)) (map lower (x ∷ rest)) h (omega arith)
          (omega arith) in
      (root, e)

  -- Over leaves that are hexadecimal once in lower case, `build_merkle_proof` returns a proof for
  -- every index that is in range and raises IndexError for every other; `merkle_root` returns.
  pub build-returns :
      (leaves : List Text) (i : ℕ)
      → All IsHex (map lower leaves)
      → (i < length leaves → (proof : Proof) × (build_merkle_proof s leaves i ≡ ok proof))
        × (length leaves ≤ i → build_merkle_proof s leaves i ≡ raised index_error)
        × ((root : Text) × (merkle_root s leaves ≡ ok root))
  build-returns leaves i h =
      (build_in_range leaves i h, build_out_of_range leaves i, root_returns leaves h)
