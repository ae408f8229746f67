-- ===== src/Crypto/Merkle/Hashed.antt =====
-- The messages that a run of `verify_loop` of crypto/merkle.py hashes, and what one parent says of
-- the nodes below it.
use fanxiangdiguijiexi.Prelude.{
  ℕ, ◌≡◌, ◌≢◌, refl, sym, ap, ◌∙◌, Bool, true, false, ◌⊎◌, inl, inr, List, [], ◌∷◌, ◌++◌, arith,
  length, length-append, Text, codes, text_eq, text_eq_iff, text_eq→eq, ok, >>=-eq-ok, Bool-cases,
  if◌then◌else◌,
}
use fanxiangdiguijiexi.Crypto.Hex.{IsBytes, hex_to_bytes, bytes_to_hex, hex_to_bytes-bytes_to_hex}
use fanxiangdiguijiexi.Crypto.Sha.{Sha256}
use fanxiangdiguijiexi.Crypto.Merkle.{Sibling, is_left, sibling_hash, merkle_parent, verify_step}

-- A text that writes out a digest of 32 bytes.
abbrev pub IsDigest : Text → Type 0
IsDigest t = (bs : List ℕ) × (t ≡ bytes_to_hex bs) × IsBytes bs × (length bs ≡ 32)

append_inj :
    (xs xs' ys ys' : List ℕ)
    → xs ++ ys ≡ xs' ++ ys'
    → length xs ≡ length xs'
    → (xs ≡ xs') × (ys ≡ ys')
append_inj [] [] ys ys' h n = (refl, h)
append_inj [] (x ∷ xs') ys ys' h n = absurd (omega arith)
append_inj (x ∷ xs) [] ys ys' h n = absurd (omega arith)
append_inj (x ∷ xs) (x' ∷ xs') ys ys' h n =
    let (e, e') = append_inj xs xs' ys ys' (cc h) (omega arith) in (cc (e, h), e')

append_inj_right :
    (xs xs' ys ys' : List ℕ)
    → xs ++ ys ≡ xs' ++ ys'
    → length ys ≡ length ys'
    → (xs ≡ xs') × (ys ≡ ys')
append_inj_right xs xs' ys ys' h n =
    append_inj xs xs' ys ys' h
      (omega (arith, ap length h, length-append xs ys, length-append xs' ys'))

IsDigest-decode : (t : Text) (d : IsDigest t) → hex_to_bytes t ≡ ok d.0
IsDigest-decode t d = rw d.1 (hex_to_bytes-bytes_to_hex d.0 d.2)

bytes_to_hex_inj : (a b : List ℕ) → IsBytes a → IsBytes b → bytes_to_hex a ≡ bytes_to_hex b → a ≡ b
bytes_to_hex_inj a b p q e =
    cc (hex_to_bytes-bytes_to_hex a p, hex_to_bytes-bytes_to_hex b q, ap hex_to_bytes e)

-- The message that is hashed for the parent of two nodes.
pub record Preimage (l r : Text) (m : List ℕ) : Type 0 where
  pub left : List ℕ
  pub right : List ℕ
  pub of_left : hex_to_bytes l ≡ ok left
  pub of_right : hex_to_bytes r ≡ ok right
  pub is_message : m ≡ codes "node-v1" ++ left ++ right

-- The same for a node and its sibling, which is on the left if `side` is true.
abbrev pub Sided : Bool → Text → Text → List ℕ → Type 0
Sided true x y m = Preimage y x m
Sided false x y m = Preimage x y m

module _ (s : Sha256) where
  -- The messages that a run of `verify_loop` from the node `x` along the siblings hashes.
  pub data Hashed : Text → List Sibling → List ℕ → Type 0 where
    hashed_now :
        {x : Text} {item : Sibling} {rest : List Sibling} {m : List ℕ} (y : Text)
        → sibling_hash item ≡ ok y
        → Sided (is_left item) x y m
        → Hashed x (item ∷ rest) m
    hashed_later :
        {x : Text} {item : Sibling} {rest : List Sibling} {m : List ℕ} (n : Text)
        → verify_step s x item ≡ ok n
        → Hashed n rest m
        → Hashed x (item ∷ rest) m

  -- Two different messages of one digest.
  abbrev pub Collide : List ℕ → List ℕ → Type 0
  Collide m m' = (m ≢ m') × (s.digest m ≡ s.digest m')

  -- One run hashes a message, another run another one, and the digests are the same.
  pub record Clash (x : Text) (xs : List Sibling) (x' : Text) (xs' : List Sibling) : Type 0 where
    pub message : List ℕ
    pub message' : List ℕ
    pub hashed : Hashed x xs message
    pub hashed' : Hashed x' xs' message'
    pub collide : Collide message message'

  -- Equal digests are of equal messages, or there is a collision.
  digest_cases :
      (m m' : List ℕ)
      → bytes_to_hex (s.digest m) ≡ bytes_to_hex (s.digest m')
      → (m ≡ m') ⊎ Collide m m'
  digest_cases m m' e = elim (Bool-cases (text_eq m m')) [
    | inl same ↦ inl (text_eq→eq m m' same)
    | inr differ ↦ inr (
      λ p. cc (differ, (text_eq_iff m m').1 p),
      bytes_to_hex_inj (s.digest m) (s.digest m') (s.digest_bytes m) (s.digest_bytes m') e,
    )
  ]

  merkle_parent_parts :
      (l r : Text) {p : Text}
      → merkle_parent s l r ≡ ok p
      → (a : List ℕ) × (b : List ℕ) × (hex_to_bytes l ≡ ok a)
        × (hex_to_bytes r ≡ ok b)
        × (p ≡ bytes_to_hex (s.digest (codes "node-v1" ++ a ++ b)))
  unfolding merkle_parent
  merkle_parent_parts l r h =
      let (a, ea, h') = >>=-eq-ok (hex_to_bytes l) _ h in
      let (b, eb, e) = >>=-eq-ok (hex_to_bytes r) _ h' in (a, b, ea, eb, cc e)

  parent-IsDigest : (l r : Text) {p : Text} → merkle_parent s l r ≡ ok p → IsDigest p
  parent-IsDigest l r h =
      let (a, b, _, _, e) = merkle_parent_parts l r h in
      let m = codes "node-v1" ++ a ++ b in (s.digest m, e, s.digest_bytes m, s.digest_length m)

  pub verify_step_parts :
      (x : Text) (item : Sibling) {p : Text}
      → verify_step s x item ≡ ok p
      → (y : Text) × (sibling_hash item ≡ ok y)
        × ((if is_left item then merkle_parent s y x else merkle_parent s x y) ≡ ok p)
  unfolding verify_step
  verify_step_parts x item h = let (y, e, h') = >>=-eq-ok (sibling_hash item) _ h in (y, e, h')

  same_digest :
      (x x' : Text) (d : IsDigest x) (d' : IsDigest x') {b b' : List ℕ}
      → hex_to_bytes x ≡ ok b
      → hex_to_bytes x' ≡ ok b'
      → b ≡ b'
      → x ≡ x'
  same_digest x x' d d' e e' p =
      cc (d.1, d'.1, IsDigest-decode x d, IsDigest-decode x' d', e, e', p)

  digest_size : (x : Text) (d : IsDigest x) {b : List ℕ} → hex_to_bytes x ≡ ok b → length b ≡ 32
  digest_size x d {b} e = let p : b ≡ d.0 = cc (IsDigest-decode x d, e) in rw p d.3

  parent_cases :
      (a b a' b' : List ℕ) {p : Text}
      → p ≡ bytes_to_hex (s.digest (codes "node-v1" ++ a ++ b))
      → p ≡ bytes_to_hex (s.digest (codes "node-v1" ++ a' ++ b'))
      → (a ++ b ≡ a' ++ b') ⊎ Collide (codes "node-v1" ++ a ++ b) (codes "node-v1" ++ a' ++ b')
  parent_cases a b a' b' e e' =
      elim (digest_cases (codes "node-v1" ++ a ++ b) (codes "node-v1" ++ a' ++ b') (sym e ∙ e')) [
        | inl same ↦
            inl (append_inj (codes "node-v1") (codes "node-v1") (a ++ b) (a' ++ b') same refl).1
        | inr c ↦ inr c
      ]

  preimage :
      (l r : Text) (a b : List ℕ)
      → hex_to_bytes l ≡ ok a
      → hex_to_bytes r ≡ ok b
      → Preimage l r (codes "node-v1" ++ a ++ b)
  preimage l r a b e e' = record {
    left = a;
    right = b;
    of_left = e;
    of_right = e';
    is_message = refl;
  }

  -- The messages of two parents collide.
  abbrev pub Collided : Bool → Text → Text → Text → Text → Type 0
  Collided side x y x' y' =
      (m : List ℕ) × (m' : List ℕ) × Sided side x y m × Sided side x' y' m' × Collide m m'

  -- Under one parent, two nodes on the left are the same, whatever stands on the right.
  parent_left_inj :
      (x x' y y' : Text) {p : Text}
      → IsDigest x
      → IsDigest x'
      → merkle_parent s x y ≡ ok p
      → merkle_parent s x' y' ≡ ok p
      → (x ≡ x') ⊎ Collided false x y x' y'
  parent_left_inj x x' y y' d d' h h' =
      let (a, b, ea, eb, e) = merkle_parent_parts x y h in
      let (a', b', ea', eb', e') = merkle_parent_parts x' y' h' in
      let sizes : length a ≡ length a' = digest_size x d ea ∙ sym (digest_size x' d' ea') in
      elim (parent_cases a b a' b' e e') [
        | inl same ↦ inl (same_digest x x' d d' ea ea' (append_inj a a' b b' same sizes).0)
        | inr c ↦ inr (_, _, preimage x y a b ea eb, preimage x' y' a' b' ea' eb', c)
      ]

  parent_right_inj :
      (x x' y y' : Text) {p : Text}
      → IsDigest x
      → IsDigest x'
      → merkle_parent s y x ≡ ok p
      → merkle_parent s y' x' ≡ ok p
      → (x ≡ x') ⊎ Collided true x y x' y'
  parent_right_inj x x' y y' d d' h h' =
      let (a, b, ea, eb, e) = merkle_parent_parts y x h in
      let (a', b', ea', eb', e') = merkle_parent_parts y' x' h' in
      let sizes : length b ≡ length b' = digest_size x d eb ∙ sym (digest_size x' d' eb') in
      elim (parent_cases a b a' b' e e') [
        | inl same ↦ inl (same_digest x x' d d' eb eb' (append_inj_right a a' b b' same sizes).1)
        | inr c ↦ inr (_, _, preimage y x a b ea eb, preimage y' x' a' b' ea' eb', c)
      ]

  pub side_inj :
      (side : Bool) (x x' y y' : Text) {p : Text}
      → IsDigest x
      → IsDigest x'
      → (if side then merkle_parent s y x else merkle_parent s x y) ≡ ok p
      → (if side then merkle_parent s y' x' else merkle_parent s x' y') ≡ ok p
      → (x ≡ x') ⊎ Collided side x y x' y'
  side_inj true x x' y y' d d' h h' = parent_right_inj x x' y y' d d' h h'
  side_inj false x x' y y' d d' h h' = parent_left_inj x x' y y' d d' h h'

  pub side-IsDigest :
      (side : Bool) (x y : Text) {p : Text}
      → (if side then merkle_parent s y x else merkle_parent s x y) ≡ ok p
      → IsDigest p
  side-IsDigest true x y h = parent-IsDigest y x h
  side-IsDigest false x y h = parent-IsDigest x y h
