-- ===== src/Crypto/Merkle/Complete.antt =====
-- A proof built by `build_merkle_proof` is accepted by `verify_merkle_proof`.
use fanxiangdiguijiexi.Prelude.{
  ℕ, zero, suc, ◌/◌, ◌≡◌, refl, true, some, List, [], ◌∷◌, map, arith, length, get_or, get_elem?,
  get_elem?-get_or, All, Text, text_eq_refl, lower, lower-lower, ok, >>=-eq-ok, ◌++◌, ◌∙◌, ap,
  Bool-cases, inl, inr, leb, codes,
}
use fanxiangdiguijiexi.Crypto.Hex.{hex_to_bytes, lower-bytes_to_hex}
use fanxiangdiguijiexi.Crypto.Sha.{Sha256}
use fanxiangdiguijiexi.Crypto.Merkle.{
  Sibling, Proof, sibling_index, sibling_at, merkle_parent, next_level, root_loop, merkle_root,
  proof_loop, build_merkle_proof, verify_step, verify_loop, verify_merkle_proof,
}

abbrev IsLower : Text → Type 0
IsLower t = lower t ≡ t

sibling_index_skip :
    (j n : ℕ) → sibling_index (suc (suc j)) (suc (suc n)) ≡ suc (suc (sibling_index j n))
unfolding sibling_index
sibling_index_skip j n = ground arith

-- Two nodes further along, the sibling is that of the rest of the level.
sibling_at_skip :
    (j : ℕ) (l r : Text) (rest : List Text)
    → sibling_at (suc (suc j)) (l ∷ r ∷ rest) ≡ sibling_at j rest
unfolding sibling_at
sibling_at_skip j l r rest = rw sibling_index_skip (ground arith)

sibling_index_left : (n : ℕ) → sibling_index 0 (suc (suc n)) ≡ 1
unfolding sibling_index
sibling_index_left n = ground arith

sibling_index_right : (n : ℕ) → sibling_index 1 (suc (suc n)) ≡ 0
unfolding sibling_index
sibling_index_right n = ground arith

sibling_at_left :
    (l r : Text) (rest : List Text)
    → sibling_at 0 (l ∷ r ∷ rest) ≡ record { position = some (codes "right"); hash = some r }
unfolding sibling_at
sibling_at_left l r rest = rw sibling_index_left

sibling_at_right :
    (l r : Text) (rest : List Text)
    → sibling_at 1 (l ∷ r ∷ rest) ≡ record { position = some (codes "left"); hash = some l }
unfolding sibling_at
sibling_at_right l r rest = rw sibling_index_right

module _ (s : Sha256) where
  parent-IsLower : (l r : Text) {p : Text} → merkle_parent s l r ≡ ok p → IsLower p
  unfolding merkle_parent
  parent-IsLower l r h =
      let (a, _, h') = >>=-eq-ok (hex_to_bytes l) _ h in
      let (b, _, e) = >>=-eq-ok (hex_to_bytes r) _ h' in
      let m = codes "node-v1" ++ a ++ b in
      cc (e, lower-bytes_to_hex (s.digest m) (s.digest_bytes m))

  -- What a level of two or more nodes became.
  next_level-pair :
      (l r : Text) (rest : List Text) {next : List Text}
      → next_level s (l ∷ r ∷ rest) ≡ ok next
      → (p : Text) × (ps : List Text) × (merkle_parent s l r ≡ ok p)
        × (next_level s rest ≡ ok ps)
        × (next ≡ p ∷ ps)
  unfolding next_level
  next_level-pair l r rest h =
      let (p, e, h') = >>=-eq-ok (merkle_parent s l r) _ h in
      let (ps, e', h'') = >>=-eq-ok (next_level s rest) _ h' in (p, ps, e, e', cc)

  next_level-one :
      (l : Text) {next : List Text}
      → next_level s (l ∷ []) ≡ ok next
      → (p : Text) × (merkle_parent s l l ≡ ok p) × (next ≡ p ∷ [])
  unfolding next_level
  next_level-one l h = let (p, e, h') = >>=-eq-ok (merkle_parent s l l) _ h in (p, e, cc)

  next_level-nil : {next : List Text} → next_level s [] ≡ ok next → next ≡ []
  unfolding next_level
  next_level-nil h = cc

  pub next_level-IsLower :
      (level : List Text) {next : List Text} → next_level s level ≡ ok next → All IsLower next
  next_level-IsLower [] h = rw (next_level-nil h) tt
  next_level-IsLower (l ∷ []) h =
      let (p, e, q) = next_level-one l h in rw q (parent-IsLower l l e, tt)
  next_level-IsLower (l ∷ r ∷ rest) h =
      let (p, ps, e, e', q) = next_level-pair l r rest h in
      rw q (parent-IsLower l r e, next_level-IsLower rest e')

  step_right :
      (x y : Text) {item : Sibling}
      → item ≡ record { position = some (codes "right"); hash = some y }
      → IsLower y
      → verify_step s x item ≡ merkle_parent s x y
  unfolding verify_step
  step_right x y e low = rw (e, low)

  step_left :
      (x y : Text) {item : Sibling}
      → item ≡ record { position = some (codes "left"); hash = some y }
      → IsLower y
      → verify_step s x item ≡ merkle_parent s y x
  unfolding verify_step
  step_left x y e low = rw (e, low)

  -- One level: the step with the sibling leads from a node to its parent.
  next_level-step :
      (level : List Text) (i : ℕ) {next : List Text} {x : Text}
      → next_level s level ≡ ok next
      → All IsLower level
      → get_elem? level i ≡ some x
      → (p : Text) × (get_elem? next (i / 2) ≡ some p)
        × (verify_step s x (sibling_at i level) ≡ ok p)
  next_level-step [] i h low e = absurd (cc)
  next_level-step (l ∷ []) zero {x = x} h low e =
      let (p, e', q) = next_level-one l h in
      (p, rw q refl, step_right x l (unfold sibling_at sibling_index in refl) low.0 ∙ cc (e, e'))
  next_level-step (l ∷ []) (suc i) h low e = absurd (cc)
  next_level-step (l ∷ r ∷ rest) zero {x = x} h low e =
      let (p, ps, e', _, q) = next_level-pair l r rest h in
      (p, rw q refl, step_right x r (sibling_at_left l r rest) low.1.0 ∙ cc (e, e'))
  next_level-step (l ∷ r ∷ rest) (suc zero) {x = x} h low e =
      let (p, ps, e', _, q) = next_level-pair l r rest h in
      (p, rw q refl, step_left x l (sibling_at_right l r rest) low.0 ∙ cc (e, e'))
  next_level-step (l ∷ r ∷ rest) (suc (suc i)) {x = x} h low e =
      let (p, ps, _, e', q) = next_level-pair l r rest h in
      let (p', g, st) = next_level-step rest i e' low.1.1 e in
      let half : suc (suc i) / 2 ≡ suc (i / 2) = omega arith in
      (p', rw (q, half) g, rw sibling_at_skip st)

  proof_loop-pair :
      (fuel i : ℕ) (y z : Text) (rest : List Text) {siblings : List Sibling} {root : Text}
      → proof_loop s (suc fuel) i (y ∷ z ∷ rest) ≡ ok (siblings, root)
      → (next : List Text) × (above : List Sibling) × (next_level s (y ∷ z ∷ rest) ≡ ok next)
        × (proof_loop s fuel (i / 2) next ≡ ok (above, root))
        × (siblings ≡ sibling_at i (y ∷ z ∷ rest) ∷ above)
  unfolding proof_loop
  proof_loop-pair fuel i y z rest h =
      let (next, n, h') = >>=-eq-ok (next_level s (y ∷ z ∷ rest)) _ h in
      let ((above, top), a, h'') = >>=-eq-ok (proof_loop s fuel (i / 2) next) _ h' in
      (next, above, n, cc (a, h''), cc h'')

  verify_loop-cons :
      (x p root : Text) (item : Sibling) (rest : List Sibling)
      → verify_step s x item ≡ ok p
      → verify_loop s p rest ≡ ok root
      → verify_loop s x (item ∷ rest) ≡ ok root
  unfolding verify_loop
  verify_loop-cons x p root item rest h e = rw (h, e)

  root_loop-pair :
      (fuel : ℕ) (y z : Text) (rest next : List Text) (root : Text)
      → next_level s (y ∷ z ∷ rest) ≡ ok next
      → root_loop s fuel next ≡ ok root
      → root_loop s (suc fuel) (y ∷ z ∷ rest) ≡ ok root
  unfolding root_loop
  root_loop-pair fuel y z rest next root h e = rw (h, e)

  -- The loops of the two functions end in one node, and the siblings lead there.
  proof_loop-verify :
      (fuel i : ℕ) (level : List Text) {x root : Text} {siblings : List Sibling}
      → proof_loop s fuel i level ≡ ok (siblings, root)
      → All IsLower level
      → get_elem? level i ≡ some x
      → (verify_loop s x siblings ≡ ok root) × (root_loop s fuel level ≡ ok root) × IsLower root
  proof_loop-verify zero i level h low e = absurd (unfold proof_loop in cc h)
  proof_loop-verify (suc fuel) i [] h low e = absurd (unfold proof_loop in cc h)
  proof_loop-verify (suc fuel) zero (y ∷ []) h low e =
      unfold proof_loop verify_loop root_loop in ground (arith, low.0)
  proof_loop-verify (suc fuel) (suc i) (y ∷ []) h low e = absurd (cc e)
  proof_loop-verify (suc fuel) i (y ∷ z ∷ rest) {x = x} {root = root} h low e =
      let (next, above, n, a, q) = proof_loop-pair fuel i y z rest h in
      let (p, g, st) = next_level-step (y ∷ z ∷ rest) i n low e in
      let (v, r, w) =
        proof_loop-verify fuel (i / 2) next a (next_level-IsLower (y ∷ z ∷ rest) n) g in
      (
        rw q (verify_loop-cons x p root (sibling_at i (y ∷ z ∷ rest)) above st v),
        root_loop-pair fuel y z rest next root n r,
        w,
      )

  lower_level-IsLower : (leaves : List Text) → All IsLower (map lower leaves)
  lower_level-IsLower [] = tt
  lower_level-IsLower (x ∷ xs) = (lower-lower x, lower_level-IsLower xs)

  get_elem?-lower :
      (leaves : List Text) (i : ℕ) {x : Text}
      → get_elem? leaves i ≡ some x
      → get_elem? (map lower leaves) i ≡ some (lower x)
  get_elem?-lower [] i h = absurd (cc h)
  get_elem?-lower (y ∷ ys) zero h = ground arith
  get_elem?-lower (y ∷ ys) (suc i) h = get_elem?-lower ys i h

  built_parts :
      (leaves : List Text) (i : ℕ) {proof : Proof}
      → build_merkle_proof s leaves i ≡ ok proof
      → (siblings : List Sibling) × (root : Text) × (proof_loop s
            (length leaves)
            i
            (map lower leaves)
          ≡ ok (siblings, root))
        × (proof.siblings ≡ some siblings)
        × (proof.root ≡ some root)
        × (proof.leaf_hash ≡ some (lower (get_or leaves i [])))
  unfolding build_merkle_proof
  built_parts leaves i h = elim (Bool-cases (leb (length leaves) i)) [
    | inl out ↦ absurd (cc (rw out at h))
    | inr inside ↦
        let h' = rw inside at h in
        let ((siblings, root), a, e) =
          >>=-eq-ok (proof_loop s (length leaves) i (map lower leaves)) _ h' in
        (siblings, root, a, ground arith, ground arith, ground arith)
  ]

  merkle_root-loop :
      (leaves : List Text) (i : ℕ) {x : Text}
      → get_elem? leaves i ≡ some x
      → merkle_root s leaves ≡ root_loop s (length leaves) (map lower leaves)
  unfolding merkle_root
  merkle_root-loop [] i h = absurd (cc h)
  merkle_root-loop (y ∷ ys) i h = refl

  verify-accepts :
      (leaf root : Text) (siblings : List Sibling) (proof : Proof)
      → proof.siblings ≡ some siblings
      → proof.root ≡ some root
      → verify_loop s (lower leaf) siblings ≡ ok root
      → verify_merkle_proof s leaf proof root ≡ ok true
  unfolding verify_merkle_proof
  verify-accepts leaf root siblings proof e r v = rw (e, r, v, text_eq_refl (lower root))

  -- Whenever `build_merkle_proof` returns a proof for a position, the proof names the root that
  -- `merkle_root` computes of the same leaves, it names the leaf at that position, and
  -- `verify_merkle_proof` accepts it for that leaf and that root.
  pub verify-build :
      (leaves : List Text) (i : ℕ) (leaf : Text) (proof : Proof)
      → get_elem? leaves i ≡ some leaf
      → build_merkle_proof s leaves i ≡ ok proof
      → (root : Text) × (merkle_root s leaves ≡ ok root)
        × (proof.root ≡ some root)
        × (proof.leaf_hash ≡ some (lower leaf))
        × (verify_merkle_proof s leaf proof root ≡ ok true)
  verify-build leaves i leaf proof at_i built =
      let (siblings, root, a, e, r, l) = built_parts leaves i built in
      let (v, rl, _) =
        proof_loop-verify (length leaves) i (map lower leaves) a (lower_level-IsLower leaves)
          (get_elem?-lower leaves i at_i) in
      (
        root,
        merkle_root-loop leaves i at_i ∙ rl,
        r,
        l ∙ ap (λ t. some (lower t)) (get_elem?-get_or leaves i [] at_i),
        verify-accepts leaf root siblings proof e r v,
      )
