-- ===== src/Discovery/Refines.antt =====
-- The context of the provider in wrapper/resolver_chain.py, as an abstract record of the version that
-- each key has reached.
use fanxiangdiguijiexi.Prelude.{
  ◌≡◌, ◌∙◌, refl, sym, ap, ap₂, subst, Option, none, some, inl, inr, if◌then◌else◌, Bool-cases,
  Text, text_eq, text_eq→eq, runtime_error, ok, raised,
}
use fanxiangdiguijiexi.Prelude.Dict
use fanxiangdiguijiexi.Prelude.Dict.{Dict, get-put_same}
use fanxiangdiguijiexi.Discovery.Context.{
  Context, Provider, high_water_key, persisted_version, version_before, set_context, rolls_back,
  update_context,
}
use fanxiangdiguijiexi.Discovery.Kept.{restarted, persisted-set, cached-set}

-- The abstract view: the version that each key has reached.
abbrev pub Water : Type 0
Water = Text → Option Text

-- An update is refused, or raises the key to its version.
unfoldable pub raise_water : Text → Text → Water → Option Water
raise_water key version water =
    if rolls_back (water key) version
    then none
    else some (λ k. if text_eq key k then some version else water k)

-- The view of a provider.
unfoldable pub water_of : Provider → Water
water_of p k = version_before (Dict.get k p.context_cache) (persisted_version p.state_repository k)

-- A provider with a repository, which holds the version of each context.
pub record IsSettled (p : Provider) : Type 0 where
  pub repository : Dict Text
  pub is_there : p.state_repository ≡ some repository
  pub written :
      (k : Text) (context : Context)
      → Dict.get k p.context_cache ≡ some context
      → persisted_version p.state_repository k ≡ some context.config_version

-- How an update ended, in the provider and in the abstract view.
pub data Refined (key : Text) (context : Context) (p : Provider) : Type 0 where
  refused :
      update_context key context p ≡ raised runtime_error
      → raise_water key context.config_version (water_of p) ≡ none
      → Refined key context p
  raised_to :
      (q : Provider) (water : Water)
      → update_context key context p ≡ ok q
      → IsSettled q
      → raise_water key context.config_version (water_of p) ≡ some water
      → ((k : Text) → water_of q k ≡ water k)
      → Refined key context p

-- The key that was set, in the context and in the repository.
set-here :
    (key : Text) (context : Context) (previous : Option Context) (p : Provider) (s : IsSettled p)
    → (Dict.get key (set_context key context previous p).context_cache ≡ some context)
      × (persisted_version (set_context key context previous p).state_repository key
          ≡ some context.config_version)
set-here key context previous p s = (
  get-put_same key context _,
  rw s.is_there (get-put_same (high_water_key key) context.config_version s.repository),
)

set-written :
    (key : Text) (context : Context) (previous : Option Context) (p : Provider) (s : IsSettled p)
    (k : Text) (there : Context)
    → Dict.get k (set_context key context previous p).context_cache ≡ some there
    → persisted_version (set_context key context previous p).state_repository k
      ≡ some there.config_version
set-written key context previous p s k there h = elim (Bool-cases (text_eq key k)) [
  | inr other ↦
      persisted-set k key context.config_version p.state_repository other
      ∙ s.written k there (sym (cached-set k key context _ p.context_cache other) ∙ h)
  | inl same ↦
      let (cached, persisted) = set-here key context previous p s in
      let at_key = text_eq→eq key k same in
      let q = set_context key context previous p in
      let found : some context ≡ some there =
        sym (subst (λ j. Dict.get j q.context_cache ≡ some context) at_key cached) ∙ h in
      subst (λ j. persisted_version q.state_repository j ≡ some context.config_version) at_key
        persisted
      ∙ ap (λ o. version_before o none) found
]

set-water :
    (key : Text) (context : Context) (previous : Option Context) (p : Provider) (k : Text)
    → water_of (set_context key context previous p) k
      ≡ (if text_eq key k then some context.config_version else water_of p k)
unfolding water_of
set-water key context previous p k = elim (Bool-cases (text_eq key k)) [
  | inr other ↦
      let kept =
        ap₂ version_before (cached-set k key context _ p.context_cache other)
          (persisted-set k key context.config_version p.state_repository other) in
      rw other kept
  | inl same ↦
      let q = set_context key context previous p in
      let here : water_of q key ≡ some context.config_version =
        ap (λ found. version_before found (persisted_version q.state_repository key))
          (get-put_same key context _) in
      rw same (subst (λ j. water_of q j ≡ some context.config_version) (text_eq→eq key k same) here)
]

set_context-IsSettled :
    (key : Text) (context : Context) (previous : Option Context) (p : Provider)
    → IsSettled p
    → IsSettled (set_context key context previous p)
set_context-IsSettled key context previous p s = record {
  repository = Dict.put (high_water_key key) context.config_version s.repository;
  is_there = rw s.is_there refl;
  written = set-written key context previous p s;
}

update_context-Refined :
    (key : Text) (context : Context) (p : Provider) → IsSettled p → Refined key context p
unfolding update_context raise_water water_of
update_context-Refined key context p s =
    let previous = Dict.get key p.context_cache in
    elim (Bool-cases (rolls_back (water_of p key) context.config_version)) [
      | inl back ↦ refused (rw back refl) (rw back refl)
      | inr fresh ↦
          raised_to (set_context key context previous p) _ (rw fresh refl)
            (set_context-IsSettled key context previous p s) (rw fresh refl)
            (set-water key context previous p)
    ]

settled_version :
    (p : Provider) (k : Text) (found : Option Context)
    → IsSettled p
    → Dict.get k p.context_cache ≡ found
    → persisted_version p.state_repository k
      ≡ version_before found (persisted_version p.state_repository k)
settled_version p k none s e = refl
settled_version p k (some context) s e = s.written k context e

restarted-water :
    (p : Provider) → IsSettled p → (k : Text) → water_of (restarted p) k ≡ water_of p k
unfolding water_of Dict.get
restarted-water p s k = settled_version p k (Dict.get k p.context_cache) s refl

restarted-IsSettled : (p : Provider) → IsSettled p → IsSettled (restarted p)
unfolding Dict.get
restarted-IsSettled p s = record {
  repository = s.repository;
  is_there = s.is_there;
  written = λ k context h. absurd (cc h);
}

-- A provider with a repository, which holds the version of each of its contexts, refines the record of
-- the version that each key has reached: `_update_context` raises exactly where the record refuses the
-- update, and else leaves a provider of that kind whose view is the record's; and a process that
-- starts again with the repository alone is of that kind and has the same view.
pub provider-refines :
    (p : Provider)
    → IsSettled p
    → ((key : Text) (context : Context) → Refined key context p)
      × IsSettled (restarted p)
      × ((k : Text) → water_of (restarted p) k ≡ water_of p k)
provider-refines p s = (
  λ key context. update_context-Refined key context p s,
  restarted-IsSettled p s,
  restarted-water p s,
)
