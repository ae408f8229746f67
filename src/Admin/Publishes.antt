-- ===== src/Admin/Publishes.antt =====
-- The registry after the calls that `publish` of admin/publisher.py makes of it.
use fanxiangdiguijiexi.Prelude.{
  same_ok, ◌≤◌, ◌≡◌, refl, Bool, true, false, Option, some, List, any, option_eq, option_eq_iff,
  Text, text_eq, text_eq_refl, Outcome, PyError, ok, raised, ◌>>=◌, Bool-cases, inl, inr, subst, ap,
}
use fanxiangdiguijiexi.Prelude.Dict
use fanxiangdiguijiexi.Prelude.Dict.{get-put}
use fanxiangdiguijiexi.Json.{Value}
use fanxiangdiguijiexi.Crypto.Sha.{Sha256}
use fanxiangdiguijiexi.Models.Endpoint.{Net}
use fanxiangdiguijiexi.Verifier.Object.{Clock, ResolverObject}
use fanxiangdiguijiexi.Admin.Registry.{
  AnchorRow, RegistryRepository, active_status, revoked_status, get_anchor_row, get_binding,
  publish_root, get_root,
}
use fanxiangdiguijiexi.Admin.Publisher.{
  Prepared, rebound, same_content, anchor_object, open_root, publish_prepared, prepare,
  prepared_result, publish_to_registry,
}
use fanxiangdiguijiexi.Admin.Published.{rebind-bound, rebind-SameAnchors, anchor_object-IsAnchored}

open_root-active :
    (root : Text) (r : RegistryRepository) → get_root root (open_root root r) ≡ some active_status
unfolding publish_root
open_root-active root r = elim (Bool-cases (option_eq (get_root root r) (some active_status))) [
  | inl e ↦ rw e ((option_eq_iff (get_root root r) (some active_status)).0 e)
  | inr e ↦ rw (e, get-put root root active_status r.roots, text_eq_refl root) refl
]

open_root-anchors : (root : Text) (r : RegistryRepository) → (open_root root r).anchors ≡ r.anchors
unfolding publish_root
open_root-anchors root r = elim (Bool-cases (option_eq (get_root root r) (some active_status))) [
  | inl e ↦ rw e refl
  | inr e ↦ rw e refl
]

paired : {A B : Type 0} {x : A × B} {a : A} {b : B} → x.0 ≡ a → x.1 ≡ b → x ≡ (a, b)
paired e f = λ k. (e k, f k)

-- The registry `r'` in which the prepared object was published, and `r` before it.
pub record IsPublished (p : Prepared) (r r' : RegistryRepository) : Type 0 where
  pub anchored :
      (a : AnchorRow) × (get_anchor_row p.rid_key r' ≡ some a)
      × (same_content a p.anchor ≡ true)
      × (a.object_version ≡ p.anchor.object_version)
  pub newer :
      (old : AnchorRow)
      → get_anchor_row p.rid_key r ≡ some old
      → old.object_version ≤ p.anchor.object_version
  pub not_revoked : option_eq (get_root p.anchor.state_root r) (some revoked_status) ≡ false
  pub root_active : get_root p.anchor.state_root r' ≡ some active_status
  pub bound :
      (key : Text) → any (text_eq key) p.endpoint_keys ≡ true → get_binding key r' ≡ some p.rid_key

rebound-IsPublished :
    (p : Prepared) (previous : List Text) (r r' : RegistryRepository) (i : Bool)
    (m : Outcome PyError Bool × RegistryRepository)
    → option_eq (get_root p.anchor.state_root r) (some revoked_status) ≡ false
    → anchor_object
        (get_anchor_row p.rid_key (open_root p.anchor.state_root r))
        p
        (open_root p.anchor.state_root r)
      ≡ m
    → rebound p previous m ≡ (ok i, r')
    → IsPublished p r r'
rebound-IsPublished p previous r r' i (raised e, r1) free q h = absurd (cc (ap (λ x. x.0) h))
rebound-IsPublished p previous r r' i (ok j, r1) free q h =
    let it = anchor_object-IsAnchored p _ (open_root p.anchor.state_root r) r1 j refl q in
    let same = rebind-SameAnchors p previous r1 in
    let old = open_root-anchors p.anchor.state_root r in
    let (a, found, content, version) = it.anchored in
    subst (IsPublished p r) (ap (λ x. x.1) h) (record {
      anchored = (a, cc (found, ap (Dict.get p.rid_key) same.anchors), content, version);
      newer = λ b e. it.newer b (cc (e, ap (Dict.get p.rid_key) old));
      not_revoked = free;
      root_active = cc (
        ap (Dict.get p.anchor.state_root) same.roots,
        ap (Dict.get p.anchor.state_root) it.roots,
        open_root-active p.anchor.state_root r,
      );
      bound = λ key k. rebind-bound p previous key r1 k;
    })

publish_prepared-IsPublished :
    (p : Prepared) (previous : List Text) (r r' : RegistryRepository) (i : Bool)
    → publish_prepared p previous r ≡ (ok i, r')
    → IsPublished p r r'
unfolding publish_prepared
publish_prepared-IsPublished p previous r r' i h =
    elim (Bool-cases (option_eq (get_root p.anchor.state_root r) (some revoked_status))) [
      | inl e ↦ absurd (cc (ap (λ x. x.0) (rw e at h)))
      | inr e ↦ rebound-IsPublished p previous r r' i _ e refl (rw e at h)
    ]

handed :
    (q p : Prepared) (x : Outcome PyError Bool × RegistryRepository) (r' : RegistryRepository)
    (i : Bool)
    → ◌≡◌ {A = Outcome PyError (Prepared × Bool) × RegistryRepository}
        (x.0 >>= λ j. ok (q, j), x.1)
        (ok (p, i), r')
    → (q ≡ p) × (x ≡ (ok i, r'))
handed q p (raised e, r1) r' i h = absurd (cc (ap (λ y. y.0) h))
handed q p (ok j, r1) r' i h =
    let same : ◌≡◌ {A = Prepared × Bool} (q, j) (p, i) = same_ok (ap (λ y. y.0) h) in
    (ap (λ y. y.0) same, paired (ap (λ y. ok y.1) same) (ap (λ y. y.1) h))

result-IsPublished :
    (m : Outcome PyError Prepared) (previous : List Text) (r r' : RegistryRepository) (p : Prepared)
    (i : Bool)
    → prepared_result m previous r ≡ (ok (p, i), r')
    → (m ≡ ok p) × IsPublished p r r'
result-IsPublished (raised e) previous r r' p i h = absurd (cc (ap (λ x. x.0) h))
result-IsPublished (ok q) previous r r' p i h =
    let (same, e) = handed q p (publish_prepared q previous r) r' i h in
    (
      ap ok same,
      subst (λ x. IsPublished x r r') same (publish_prepared-IsPublished q previous r r' i e),
    )

module _ (net : Net) (s : Sha256) (clock : Clock) (sign_object : Value → Text) where
  -- When `publish` has written to the registry without an exception, the root that it published under was not REVOKED and is ACTIVE; the
  -- resolver's anchor has the hash, the root, the status and the version of the object that was
  -- prepared, and any earlier anchor of it had no higher version; and each of the object's endpoint
  -- keys is bound to the resolver.
  pub publish_to_registry-IsPublished :
      (obj : ResolverObject) (state_root : Option Text) (previous : List Text)
      (r r' : RegistryRepository) (p : Prepared) (i : Bool)
      → publish_to_registry net s clock sign_object obj state_root previous r ≡ (ok (p, i), r')
      → (prepare net s clock sign_object obj state_root ≡ ok p) × IsPublished p r r'
  unfolding publish_to_registry
  publish_to_registry-IsPublished obj state_root previous r r' p i h =
      result-IsPublished (prepare net s clock sign_object obj state_root) previous r r' p i h
