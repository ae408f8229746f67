-- ===== src/Admin/Published.antt =====
-- What `publish` of admin/publisher.py leaves in the registry.
use fanxiangdiguijiexi.Prelude.{
  ◌≤◌, ◌≡◌, refl, Bool, true, Option, none, some, List, [], ◌∷◌, arith, ltb, ◌==◌, any, option_eq,
  Text, text_eq, text_eq_iff, text_eq_refl, ok, Bool-cases, inl, inr, subst, ap,
}
use fanxiangdiguijiexi.Prelude.Dict.{get-put, get-remove}
use fanxiangdiguijiexi.Admin.Registry.{
  AnchorRow, RegistryRepository, get_anchor_row, publish_anchor, get_binding, bind_endpoint,
  unbind_endpoint,
}
use fanxiangdiguijiexi.Admin.Publisher.{
  Prepared, bind_all, unbind_removed, unbind_all, rebind, same_content, anchor_object,
}

-- The anchors and the roots of two registries are the same.
pub record SameAnchors (a b : RegistryRepository) : Type 0 where
  pub anchors : a.anchors ≡ b.anchors
  pub roots : a.roots ≡ b.roots

bind_all-SameAnchors :
    (keys : List Text) (rid : Text) (r : RegistryRepository) → SameAnchors (bind_all keys rid r) r
unfolding bind_all bind_endpoint
bind_all-SameAnchors [] rid r = record { anchors = refl; roots = refl }
bind_all-SameAnchors (key ∷ keys) rid r =
    let same = bind_all-SameAnchors keys rid (bind_endpoint key rid r) in
    record { anchors = same.anchors; roots = same.roots }

unbind_removed-SameAnchors :
    (new : List Text) (rid key : Text) (r : RegistryRepository)
    → SameAnchors (unbind_removed new rid key r) r
unfolding unbind_endpoint
unbind_removed-SameAnchors new rid key r = elim (Bool-cases (any (text_eq key) new)) [
  | inl e ↦ record { anchors = rw e refl; roots = rw e refl }
  | inr e ↦ elim (Bool-cases (option_eq (get_binding key r) (some rid))) [
    | inl f ↦ record { anchors = rw (e, f) refl; roots = rw (e, f) refl }
    | inr f ↦ record { anchors = rw (e, f) refl; roots = rw (e, f) refl }
  ]
]

unbind_all-SameAnchors :
    (previous new : List Text) (rid : Text) (r : RegistryRepository)
    → SameAnchors (unbind_all previous new rid r) r
unfolding unbind_all
unbind_all-SameAnchors [] new rid r = record { anchors = refl; roots = refl }
unbind_all-SameAnchors (key ∷ previous) new rid r =
    let this = unbind_removed-SameAnchors new rid key r in
    let rest = unbind_all-SameAnchors previous new rid (unbind_removed new rid key r) in
    record { anchors = cc (rest.anchors, this.anchors); roots = cc (rest.roots, this.roots) }

bind_all-kept :
    (keys : List Text) (rid key : Text) (r : RegistryRepository)
    → get_binding key r ≡ some rid
    → get_binding key (bind_all keys rid r) ≡ some rid
unfolding bind_all bind_endpoint
bind_all-kept [] rid key r h = h
bind_all-kept (k ∷ keys) rid key r h =
    bind_all-kept keys rid key (bind_endpoint k rid r) (elim (Bool-cases (text_eq k key)) [
      | inl e ↦ rw (get-put k key rid r.bindings, e) refl
      | inr e ↦ rw (get-put k key rid r.bindings, e) h
    ])

bind_all-bound :
    (keys : List Text) (rid key : Text) (r : RegistryRepository)
    → any (text_eq key) keys ≡ true
    → get_binding key (bind_all keys rid r) ≡ some rid
unfolding bind_all bind_endpoint
bind_all-bound [] rid key r h = absurd (cc h)
bind_all-bound (k ∷ keys) rid key r h = elim (Bool-cases (text_eq key k)) [
  | inl e ↦ bind_all-kept keys rid key (bind_endpoint k rid r) (
      let same : key ≡ k = (text_eq_iff key k).0 e in
      rw (get-put k key rid r.bindings, same, text_eq_refl k) refl)
  | inr e ↦ bind_all-bound keys rid key (bind_endpoint k rid r) (rw e at h)
]

unbind_removed-kept :
    (new : List Text) (rid k key : Text) (r : RegistryRepository)
    → any (text_eq key) new ≡ true
    → get_binding key (unbind_removed new rid k r) ≡ get_binding key r
unfolding unbind_endpoint
unbind_removed-kept new rid k key r h = elim (Bool-cases (any (text_eq k) new)) [
  | inl e ↦ rw e refl
  | inr e ↦ elim (Bool-cases (option_eq (get_binding k r) (some rid))) [
    | inr f ↦ rw (e, f) refl
    | inl f ↦ elim (Bool-cases (text_eq k key)) [
      | inl g ↦ absurd (let same : k ≡ key = (text_eq_iff k key).0 g in cc (e, h, same))
      | inr g ↦ rw (e, f, get-remove k key r.bindings, g) refl
    ]
  ]
]

unbind_all-kept :
    (previous new : List Text) (rid key : Text) (r : RegistryRepository)
    → any (text_eq key) new ≡ true
    → get_binding key (unbind_all previous new rid r) ≡ get_binding key r
unfolding unbind_all
unbind_all-kept [] new rid key r h = refl
unbind_all-kept (k ∷ previous) new rid key r h = cc (
  unbind_all-kept previous new rid key (unbind_removed new rid k r) h,
  unbind_removed-kept new rid k key r h,
)

pub rebind-bound :
    (p : Prepared) (previous : List Text) (key : Text) (r : RegistryRepository)
    → any (text_eq key) p.endpoint_keys ≡ true
    → get_binding key (rebind p previous r) ≡ some p.rid_key
rebind-bound p previous key r h = cc (
  unbind_all-kept previous p.endpoint_keys p.rid_key key (bind_all p.endpoint_keys p.rid_key r) h,
  bind_all-bound p.endpoint_keys p.rid_key key r h,
)

pub rebind-SameAnchors :
    (p : Prepared) (previous : List Text) (r : RegistryRepository)
    → SameAnchors (rebind p previous r) r
rebind-SameAnchors p previous r =
    let a =
      unbind_all-SameAnchors previous p.endpoint_keys p.rid_key
        (bind_all p.endpoint_keys p.rid_key r) in
    let b = bind_all-SameAnchors p.endpoint_keys p.rid_key r in
    record { anchors = cc (a.anchors, b.anchors); roots = cc (a.roots, b.roots) }

-- The anchor of a resolver after it was anchored for `p` in `r`.
pub record IsAnchored (p : Prepared) (current : Option AnchorRow) (r r' : RegistryRepository)
    : Type 0 where
  pub anchored :
      (a : AnchorRow) × (get_anchor_row p.rid_key r' ≡ some a)
      × (same_content a p.anchor ≡ true)
      × (a.object_version ≡ p.anchor.object_version)
  pub newer : (old : AnchorRow) → current ≡ some old → old.object_version ≤ p.anchor.object_version
  pub roots : r'.roots ≡ r.roots

same_content_refl : (a : AnchorRow) → same_content a a ≡ true
same_content_refl a =
    rw (text_eq_refl a.object_hash, text_eq_refl a.state_root, text_eq_refl a.status) refl

written :
    (p : Prepared) (current : Option AnchorRow) (r : RegistryRepository)
    → ((old : AnchorRow) → current ≡ some old → old.object_version ≤ p.anchor.object_version)
    → IsAnchored p current r (publish_anchor p.rid_key p.anchor r)
unfolding publish_anchor
written p current r newer = record {
  anchored = (
    p.anchor,
    rw (get-put p.rid_key p.rid_key p.anchor r.anchors, text_eq_refl p.rid_key) refl,
    same_content_refl p.anchor,
    refl,
  );
  newer = newer;
  roots = refl;
}

pub anchor_object-IsAnchored :
    (p : Prepared) (current : Option AnchorRow) (r r' : RegistryRepository) (i : Bool)
    → get_anchor_row p.rid_key r ≡ current
    → anchor_object current p r ≡ (ok i, r')
    → IsAnchored p current r r'
unfolding anchor_object
anchor_object-IsAnchored p none r r' i g h =
    subst (IsAnchored p none r) (ap (λ x. x.1) h) (written p none r (λ old e. absurd (cc e)))
anchor_object-IsAnchored p (some c) r r' i g h =
    elim (Bool-cases (c.object_version == p.anchor.object_version)) [
      | inl e ↦ elim (Bool-cases (same_content c p.anchor)) [
        | inl f ↦ subst (IsAnchored p (some c) r) (ap (λ x. x.1) (rw (e, f) at h)) (record {
          anchored = (c, g, f, ground (arith, e));
          newer = λ old q. ground (arith, e, q);
          roots = refl;
        })
        | inr f ↦ absurd (cc (ap (λ x. x.0) (rw (e, f) at h)))
      ]
      | inr e ↦ elim (Bool-cases (ltb p.anchor.object_version c.object_version)) [
        | inl f ↦ absurd (cc (ap (λ x. x.0) (rw (e, f) at h)))
        | inr f ↦
            subst (IsAnchored p (some c) r) (ap (λ x. x.1) (rw (e, f) at h))
              (written p (some c) r (λ old q. ground (arith, f, q)))
      ]
    ]
