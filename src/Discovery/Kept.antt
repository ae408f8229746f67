-- ===== src/Discovery/Kept.antt =====
-- The parts of a provider that `_update_context` of wrapper/resolver_chain.py and a restart change.
use fanxiangdiguijiexi.Prelude.{
  ◌≡◌, ◌∙◌, refl, Bool, true, false, Option, none, some, [], inl, inr, if◌then◌else◌, Bool-cases,
  Text, text_eq, ok, same_ok,
}
use fanxiangdiguijiexi.Prelude.Dict
use fanxiangdiguijiexi.Prelude.Dict.{Dict, get-put, get-put_same, get-remove}
use fanxiangdiguijiexi.Discovery.Context.{
  Context, Provider, high_water_key, persisted_version, version_before, persist, set_context,
  rolls_back, update_context,
}

-- A process that starts again keeps the repository alone.
abbrev pub restarted : Provider → Provider
restarted p = record {
  context_cache = [];
  invalidated_endpoints = [];
  state_repository = p.state_repository;
}

pub high_water_key-text_eq :
    (a b : Text) → text_eq (high_water_key a) (high_water_key b) ≡ text_eq a b
high_water_key-text_eq a b = refl

pub update_context-ok :
    (key : Text) (context : Context) (p q : Provider)
    → update_context key context p ≡ ok q
    → (rolls_back
          (version_before (Dict.get key p.context_cache) (persisted_version p.state_repository key))
          context.config_version
        ≡ false)
      × (set_context key context (Dict.get key p.context_cache) p ≡ q)
unfolding update_context
update_context-ok key context p q h =
    let previous =
      version_before (Dict.get key p.context_cache) (persisted_version p.state_repository key) in
    elim (Bool-cases (rolls_back previous context.config_version)) [
      | inl on ↦ absurd (cc (rw on at h))
      | inr off ↦ (off, same_ok (rw off at h))
    ]

pub get_other :
    {V : Type 0} (other key : Text) (v : V) (d : Dict V)
    → text_eq other key ≡ false
    → Dict.get key (Dict.put other v d) ≡ Dict.get key d
get_other other key v d h = let e = get-put other key v d in rw h at e

pub persisted-set :
    (key other version : Text) (repository : Option (Dict Text))
    → text_eq other key ≡ false
    → persisted_version (persist other version repository) key ≡ persisted_version repository key
persisted-set key other version none h = refl
persisted-set key other version (some d) h =
    get_other (high_water_key other) (high_water_key key) version d
      (high_water_key-text_eq other key ∙ h)

pub cached-set :
    (key other : Text) (context : Context) (changed : Bool) (cache : Dict Context)
    → text_eq other key ≡ false
    → Dict.get key (Dict.put other context (if changed then Dict.remove other cache else cache))
      ≡ Dict.get key cache
cached-set key other context false cache h = get_other other key context cache h
cached-set key other context true cache h =
    get_other other key context (Dict.remove other cache) h
    ∙ (let e = get-remove other key cache in rw h at e)
