-- ===== src/Verifier/Proof.antt =====
-- verifier/proof_verifier.py: membership proofs of the indexer, bound to the root and the leaf.
use fanxiangdiguijiexi.Prelude.{
  ◌≡◌, refl, Bool, true, false, not, ◌&&◌, Option, none, some, arith, if◌then◌else◌, Text, text_eq,
  text_eq_iff, lower, truthy, given, or_blank, Outcome, PyError, key_error, type_error, value_error,
  ok, raised, ◌>>=◌, >>=-eq-ok,
}
use fanxiangdiguijiexi.Crypto.Sha.{Sha256}
use fanxiangdiguijiexi.Crypto.Merkle.{Proof, verify_merkle_proof}
use fanxiangdiguijiexi.Models.Verification.{
  Reason, root_status_invalid, merkle_proof_missing, merkle_proof_missing_leaf,
  merkle_proof_invalid, merkle_proof_root_mismatch, merkle_leaf_binding_mismatch,
}
use fanxiangdiguijiexi.Chain.Backend.{ChainStatus, is_active}

-- A row of the indexer: `proof` is none where it is missing or empty, and then the row itself is
-- read as the proof. The row as a dict is never empty.
pub record ProofRow : Type 0 where
  pub proof : Option Proof
  pub own : Proof
  pub state_root : Option Text

-- `proof_row.get("proof") or proof_row`
abbrev proof_or_row : Option Proof → Proof → Proof
proof_or_row none own = own
proof_or_row (some proof) own = proof

abbrev pub row_proof : ProofRow → Proof
row_proof row = proof_or_row row.proof row.own

abbrev pub root_active : Option ChainStatus → Bool
root_active none = false
root_active (some status) = is_active status

-- `a or b` on optional texts.
abbrev or_text : Option Text → Option Text → Text
or_text a b = if given a then or_blank a else or_blank b

-- `except (KeyError, TypeError, ValueError)`
abbrev invalid_if : PyError → Outcome PyError (Option Reason)
invalid_if key_error = ok (some merkle_proof_invalid)
invalid_if type_error = ok (some merkle_proof_invalid)
invalid_if value_error = ok (some merkle_proof_invalid)
invalid_if e = raised e

abbrev checked_proof : Outcome PyError Bool → Outcome PyError (Option Reason)
checked_proof (ok true) = ok none
checked_proof (ok false) = ok (some merkle_proof_invalid)
checked_proof (raised e) = invalid_if e

-- `a and a.lower() != b.lower()`
abbrev pub differs : Option Text → Text → Bool
differs a b = given a && not (text_eq (lower (or_blank a)) (lower b))

-- A value that is missing or empty, or the expected one, letter case aside.
abbrev pub Says : Option Text → Text → Type 0
Says stated expected = given stated ≡ true → lower (or_blank stated) ≡ lower expected

Says-of : (a : Option Text) (b : Text) → differs a b ≡ false → Says a b
Says-of a b h g = ground (arith, text_eq_iff (lower (or_blank a)) (lower b))

module _ (s : Sha256) where
  abbrev failure_of_row : ProofRow → Text → Outcome PyError (Option Reason)
  failure_of_row row root =
      let proof = row_proof row in
      let leaf = or_text row.own.leaf_hash proof.leaf_hash in
      if not (truthy leaf)
      then ok (some merkle_proof_missing_leaf)
      else checked_proof (verify_merkle_proof s leaf proof root)

  unfoldable pub failure_reason :
      Option ProofRow → Option ChainStatus → Text → Outcome PyError (Option Reason)
  failure_reason none root_status root =
      if not (root_active root_status)
      then ok (some root_status_invalid)
      else ok (some merkle_proof_missing)
  failure_reason (some row) root_status root =
      if not (root_active root_status)
      then ok (some root_status_invalid)
      else if not (truthy root)
      then ok (some merkle_proof_missing)
      else failure_of_row row root

  -- What the bound check adds, in its order.
  unfoldable pub binding_reason : ProofRow → Text → Text → Outcome PyError (Option Reason)
  binding_reason row root leaf =
      let proof = row_proof row in
      if differs row.state_root root
      then ok (some merkle_proof_root_mismatch)
      else if differs proof.root root
      then ok (some merkle_proof_root_mismatch)
      else if differs row.own.leaf_hash leaf
      then ok (some merkle_leaf_binding_mismatch)
      else if differs proof.leaf_hash leaf
      then ok (some merkle_leaf_binding_mismatch)
      else if given row.own.leaf_hash && differs proof.leaf_hash (or_blank row.own.leaf_hash)
      then ok (some merkle_leaf_binding_mismatch)
      else checked_proof (verify_merkle_proof s leaf proof root)

  abbrev pub bound_or :
      Option Reason → Option ProofRow → Text → Text → Outcome PyError (Option Reason)
  bound_or (some reason) row root leaf = ok (some reason)
  bound_or none none root leaf = ok none
  bound_or none (some row) root leaf = binding_reason row root leaf

  unfoldable pub bound_failure_reason :
      Option ProofRow → Option ChainStatus → Text → Text → Outcome PyError (Option Reason)
  bound_failure_reason row root_status root leaf =
      failure_reason row root_status root >>= λ base. bound_or base row root leaf

  -- What a bound proof shows.
  pub record IsProven (row : Option ProofRow) (root_status : Option ChainStatus) (root leaf : Text)
      : Type 0 where
    pub found : ProofRow
    pub is_found : row ≡ some found
    pub active : root_active root_status ≡ true
    pub same_root : Says (row_proof found).root root
    pub same_state_root : Says found.state_root root
    pub same_leaf : Says found.own.leaf_hash leaf
    pub same_proof_leaf : Says (row_proof found).leaf_hash leaf
    pub verified : verify_merkle_proof s leaf (row_proof found) root ≡ ok true

  checked_proof-none : (m : Outcome PyError Bool) → checked_proof m ≡ ok none → m ≡ ok true
  checked_proof-none (ok true) h = refl
  checked_proof-none (ok false) h = absurd (cc h)
  checked_proof-none (raised e) h = ground arith

  binding_reason-none :
      (row : ProofRow) (root leaf : Text)
      → binding_reason row root leaf ≡ ok none
      → (differs (row_proof row).root root ≡ false)
        × (differs row.state_root root ≡ false)
        × (differs row.own.leaf_hash leaf ≡ false)
        × (differs (row_proof row).leaf_hash leaf ≡ false)
        × (checked_proof (verify_merkle_proof s leaf (row_proof row) root) ≡ ok none)
  unfolding binding_reason
  binding_reason-none row root leaf h = ground arith

  failure_reason-none :
      (row : Option ProofRow) (root_status : Option ChainStatus) (root : Text)
      → failure_reason row root_status root ≡ ok none
      → (found : ProofRow) × (row ≡ some found) × (root_active root_status ≡ true)
  unfolding failure_reason
  failure_reason-none none root_status root h = absurd (ground arith)
  failure_reason-none (some row) root_status root h = (row, refl, ground arith)

  bound_or-none :
      (base : Option Reason) (row : Option ProofRow) (root leaf : Text)
      → bound_or base row root leaf ≡ ok none
      → base ≡ none
  bound_or-none none row root leaf h = refl
  bound_or-none (some reason) row root leaf h = absurd (cc h)

  -- When `bound_failure_reason` returns no reason, the root is ACTIVE, there is a row, each
  -- root and each leaf hash that the row or its proof states is the expected one, letter case aside,
  -- and the expected leaf itself has a valid proof to the root.
  pub bound_failure_reason-IsProven :
      (row : Option ProofRow) (root_status : Option ChainStatus) (root leaf : Text)
      → bound_failure_reason row root_status root leaf ≡ ok none
      → IsProven row root_status root leaf
  unfolding bound_failure_reason
  bound_failure_reason-IsProven row root_status root leaf h =
      let (base, e, h') = >>=-eq-ok (failure_reason row root_status root) _ h in
      let no_base = bound_or-none base row root leaf h' in
      let (found, is_found, active) = failure_reason-none row root_status root (cc (e, no_base)) in
      let (r, r', l, l', p) = binding_reason-none found root leaf (rw (no_base, is_found) at h') in
      record {
        found = found;
        is_found = is_found;
        active = active;
        same_root = Says-of _ root r;
        same_state_root = Says-of _ root r';
        same_leaf = Says-of _ leaf l;
        same_proof_leaf = Says-of _ leaf l';
        verified = checked_proof-none (verify_merkle_proof s leaf (row_proof found) root) p;
      }
