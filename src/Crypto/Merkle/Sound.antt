-- ===== src/Crypto/Merkle/Sound.antt =====
-- Two leaves that are proved at the same place of one tree, and the messages that the proofs hash.
use fanxiangdiguijiexi.Prelude.{
  ◌≡◌, Bool, true, ◌⊎◌, inl, inr, List, [], ◌∷◌, map, Text, text_eq→eq, lower, Outcome, ok, PyError,
  subst, >>=-eq-ok, &&-left, if◌then◌else◌,
}
use fanxiangdiguijiexi.Crypto.Hex.{lower-bytes_to_hex}
use fanxiangdiguijiexi.Crypto.Sha.{Sha256}
use fanxiangdiguijiexi.Crypto.Merkle.{
  Sibling, Proof, is_left, sibling_hash, or_nil, merkle_parent, verify_step, verify_loop,
  verify_merkle_proof,
}
use fanxiangdiguijiexi.Crypto.Merkle.Hashed.{
  IsDigest, Sided, Clash, hashed_now, hashed_later, side_inj, side-IsDigest, verify_step_parts,
}

module _ (s : Sha256) where
  verify_loop-cons :
      (x : Text) (item : Sibling) (rest : List Sibling) {top : Text}
      → verify_loop s x (item ∷ rest) ≡ ok top
      → (n : Text) × (y : Text) × ((if is_left item
            then merkle_parent s y x
            else merkle_parent s x y)
          ≡ ok n)
        × (verify_loop s n rest ≡ ok top)
        × (sibling_hash item ≡ ok y)
        × (verify_step s x item ≡ ok n)
  unfolding verify_loop
  verify_loop-cons x item rest h =
      let (n, e, h') = >>=-eq-ok (verify_step s x item) _ h in
      let (y, g, e') = verify_step_parts s x item e in (n, y, e', h', g, e)

  -- Along the same sides, equal tops come from equal bottoms.
  verify_loop_inj :
      (xs xs' : List Sibling) (x x' : Text) {top : Text}
      → map is_left xs ≡ map is_left xs'
      → IsDigest x
      → IsDigest x'
      → verify_loop s x xs ≡ ok top
      → verify_loop s x' xs' ≡ ok top
      → (x ≡ x') ⊎ Clash s x xs x' xs'
  verify_loop_inj [] [] x x' m d d' h h' = inl (unfold verify_loop in cc (h, h'))
  verify_loop_inj [] (i' ∷ xs') x x' m d d' h h' = absurd (cc m)
  verify_loop_inj (i ∷ xs) [] x x' m d d' h h' = absurd (cc m)
  verify_loop_inj (i ∷ xs) (i' ∷ xs') x x' m d d' h h' =
      let (n, y, e, v, g, t) = verify_loop-cons x i xs h in
      let (n', y', e', v', g', t') = verify_loop-cons x' i' xs' h' in
      let sides : is_left i ≡ is_left i' = cc m in
      let dn = side-IsDigest s (is_left i) x y e in
      let dn' = side-IsDigest s (is_left i') x' y' e' in
      elim (verify_loop_inj xs xs' n n' (cc m) dn dn' v v') [
        | inl same ↦ elim (side_inj s (is_left i) x x' y y' d d' e (rw (sides, same) e')) [
          | inl it ↦ inl it
          | inr (m1, m2, w, w', c) ↦ inr (record {
            message = m1;
            message' = m2;
            hashed = hashed_now y g w;
            hashed' = hashed_now y' g' (subst (λ b. Sided b x' y' m2) sides w');
            collide = c;
          })
        ]
        | inr c ↦ inr (record {
          message = c.message;
          message' = c.message';
          hashed = hashed_later n t c.hashed;
          hashed' = hashed_later n' t' c.hashed';
          collide = c.collide;
        })
      ]

  verify_loop-IsDigest :
      (xs : List Sibling) (x : Text) {top : Text}
      → IsDigest x
      → verify_loop s x xs ≡ ok top
      → IsDigest top
  verify_loop-IsDigest [] x {top = top} d h =
      let e : x ≡ top = unfold verify_loop in cc h in subst IsDigest e d
  verify_loop-IsDigest (i ∷ xs) x d h =
      let (n, y, e, v, _, _) = verify_loop-cons x i xs h in
      verify_loop-IsDigest xs n (side-IsDigest s (is_left i) x y e) v

  lower-IsDigest : (x : Text) → IsDigest x → lower x ≡ x
  lower-IsDigest x d = rw d.1 (lower-bytes_to_hex d.0 d.2)

  ok_inj : {b c : Bool} → ◌≡◌ {A = Outcome PyError Bool} (ok b) (ok c) → b ≡ c
  ok_inj h = cc h

  accepted_parts :
      (leaf root : Text) (proof : Proof)
      → IsDigest leaf
      → verify_merkle_proof s leaf proof root ≡ ok true
      → verify_loop s leaf (or_nil proof.siblings) ≡ ok (lower root)
  unfolding verify_merkle_proof
  accepted_parts leaf root proof d h =
      let (top, e, h') = >>=-eq-ok (verify_loop s (lower leaf) (or_nil proof.siblings)) _ h in
      let v : verify_loop s leaf (or_nil proof.siblings) ≡ ok top =
        rw (lower-IsDigest leaf d) at e in
      let low = lower-IsDigest top (verify_loop-IsDigest (or_nil proof.siblings) leaf d v) in
      let same = text_eq→eq (lower top) (lower root) (&&-left _ _ (ok_inj h')) in cc (v, low, same)

  -- Two leaf digests that `verify_merkle_proof` accepts against one root, with proofs that turn
  -- left and right in the same order, are equal; if not, a message that the first run hashes and
  -- a message that the second run hashes are different and have the same digest. The siblings need not be digests: they may be any texts an attacker chose.
  pub accepted-leaf_unique :
      (leaf leaf' root : Text) (proof proof' : Proof)
      → IsDigest leaf
      → IsDigest leaf'
      → map is_left (or_nil proof.siblings) ≡ map is_left (or_nil proof'.siblings)
      → verify_merkle_proof s leaf proof root ≡ ok true
      → verify_merkle_proof s leaf' proof' root ≡ ok true
      → (leaf ≡ leaf') ⊎ Clash s leaf (or_nil proof.siblings) leaf' (or_nil proof'.siblings)
  accepted-leaf_unique leaf leaf' root proof proof' d d' m h h' =
      verify_loop_inj (or_nil proof.siblings) (or_nil proof'.siblings) leaf leaf' m d d'
        (accepted_parts leaf root proof d h) (accepted_parts leaf' root proof' d' h')
