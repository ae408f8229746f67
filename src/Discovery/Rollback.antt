-- ===== src/Discovery/Rollback.antt =====
-- Configuration versions that roll back, in `_update_context` of wrapper/resolver_chain.py.
use fanxiangdiguijiexi.Prelude.{
  ◌≡◌, ◌∙◌, refl, ap, Bool, true, false, Option, none, some, List, [], ◌∷◌, ◌⊎◌, inl, inr,
  if◌then◌else◌, Bool-cases, Text, text_eq, text_eq→eq, given, runtime_error, ok, raised, same_ok,
  >>=-eq-ok, subst,
}
use fanxiangdiguijiexi.Prelude.Dict
use fanxiangdiguijiexi.Prelude.Dict.{Dict, get-put, get-put_same, get-remove}
use fanxiangdiguijiexi.Models.Endpoint.{Endpoint, Net}
use fanxiangdiguijiexi.Agent.Keys.{unique_endpoints}
use fanxiangdiguijiexi.Discovery.Versions.{
  is_config_rollback, any_older, older_now, parse_chain_versions, is_older,
}
use fanxiangdiguijiexi.Discovery.Context.{
  Context, Provider, high_water_key, persisted_version, version_before, set_context, rolls_back,
  update_context, consume_invalidated_endpoints,
}
use fanxiangdiguijiexi.Discovery.Kept.{restarted, update_context-ok, persisted-set, cached-set}

-- What may happen to a provider without an update of a key: updates of other keys, the endpoints being
-- consumed, and restarts.
pub data Since (net : Net) (key : Text) (p : Provider) : Provider → Type 0 where
  unchanged : Since net key p p
  updated_other :
      {q r : Provider} (other : Text) (context : Context)
      → Since net key p q
      → text_eq other key ≡ false
      → update_context other context q ≡ ok r
      → Since net key p r
  consumed :
      {q r : Provider} (endpoints : List Endpoint)
      → Since net key p q
      → consume_invalidated_endpoints net q ≡ ok (endpoints, r)
      → Since net key p r
  started_again : {q : Provider} → Since net key p q → Since net key p (restarted q)

-- The version of a key, in the repository and in the context where there is one.
record Holds (key version : Text) (p : Provider) : Type 0 where
  persisted : persisted_version p.state_repository key ≡ some version
  cached :
      (Dict.get key p.context_cache ≡ none)
      ⊎ ((context : Context) × (Dict.get key p.context_cache ≡ some context)
          × (context.config_version ≡ version))

-- Right after its own update.
set-Holds :
    (key : Text) (context : Context) (previous : Option Context) (p : Provider)
    (repository : Dict Text)
    → p.state_repository ≡ some repository
    → Holds key context.config_version (set_context key context previous p)
set-Holds key context previous p repository e = record {
  persisted = rw e (get-put_same (high_water_key key) context.config_version repository);
  cached = inr (context, get-put_same key context _, refl);
}

other-Holds :
    (key version other : Text) (context : Context) (p q : Provider)
    → text_eq other key ≡ false
    → update_context other context p ≡ ok q
    → Holds key version p
    → Holds key version q
other-Holds key version other context p q h e holds =
    let (_, same) = update_context-ok other context p q e in
    subst (Holds key version) same (record {
      persisted =
          persisted-set key other context.config_version p.state_repository h ∙ holds.persisted;
      cached = elim holds.cached [
        | inl none_there ↦ inl (cached-set key other context _ p.context_cache h ∙ none_there)
        | inr (there, found, same_version) ↦
            inr (there, cached-set key other context _ p.context_cache h ∙ found, same_version)
      ];
    })

consumed-same :
    (net : Net) (p q : Provider) (endpoints : List Endpoint)
    → consume_invalidated_endpoints net p ≡ ok (endpoints, q)
    → (p.state_repository ≡ q.state_repository) × (p.context_cache ≡ q.context_cache)
unfolding consume_invalidated_endpoints
consumed-same net p q endpoints h =
    let (found, e1, h1) = >>=-eq-ok (unique_endpoints net p.invalidated_endpoints) _ h in
    (
      ap (λ r. Provider.state_repository r.1) (same_ok h1),
      ap (λ r. Provider.context_cache r.1) (same_ok h1),
    )

since-Holds :
    (net : Net) (key version : Text) {p q : Provider}
    → Holds key version p
    → Since net key p q
    → Holds key version q
unfolding Dict.get
since-Holds net key version holds unchanged = holds
since-Holds net key version holds (updated_other {q} {r} other context since h e) =
    other-Holds key version other context q r h e (since-Holds net key version holds since)
since-Holds net key version holds (consumed {q} {r} endpoints since e) =
    let before = since-Holds net key version holds since in
    let (same_repository, same_cache) = consumed-same net q r endpoints e in
    record {
      persisted = rw same_repository at before.persisted;
      cached = rw same_cache at before.cached;
    }
since-Holds net key version holds (started_again since) =
    let before = since-Holds net key version holds since in
    record { persisted = before.persisted; cached = inl refl }

Holds-version :
    (key version : Text) (p : Provider)
    → Holds key version p
    → version_before (Dict.get key p.context_cache) (persisted_version p.state_repository key)
      ≡ some version
Holds-version key version p holds = elim holds.cached [
  | inl none_there ↦ rw none_there holds.persisted
  | inr (there, found, same_version) ↦ rw found (ap some same_version)
]

-- The context of a key whose update returned, with a repository, is the one that the next update of
-- the key is held against.
next_version :
    (net : Net) (key : Text) (context : Context) (p q r : Provider) (repository : Dict Text)
    → p.state_repository ≡ some repository
    → update_context key context p ≡ ok q
    → Since net key q r
    → version_before (Dict.get key r.context_cache) (persisted_version r.state_repository key)
      ≡ some context.config_version
next_version net key context p q r repository e h since =
    let (_, same) = update_context-ok key context p q h in
    Holds-version key context.config_version r (
      since-Holds net key context.config_version
        (subst (Holds key context.config_version) same (set-Holds key context _ p repository e))
        since)

-- With a repository for the state, once an update of a key to a version that is not empty has
-- returned, an update of the key to a version that rolls it back raises ChainDiscoveryError, whatever
-- other keys were updated, endpoints consumed and processes restarted in between.
pub update_context-refuses :
    (net : Net) (key : Text) (context later : Context) (p q r : Provider) (repository : Dict Text)
    → p.state_repository ≡ some repository
    → update_context key context p ≡ ok q
    → Since net key q r
    → given (some context.config_version) ≡ true
    → is_config_rollback context.config_version later.config_version ≡ true
    → update_context key later r ≡ raised runtime_error
unfolding update_context rolls_back
update_context-refuses net key context later p q r repository e h since t back =
    rw (next_version net key context p q r repository e h since, t, back) refl

both_false : (a b : Bool) → (if a then true else b) ≡ false → (a ≡ false) × (b ≡ false)
both_false true b h = absurd (cc h)
both_false false b h = (refl, h)

any_older-false :
    (current previous : Dict Text) (id : Text) {old new : Text}
    → any_older current previous ≡ false
    → Dict.get id previous ≡ some old
    → Dict.get id current ≡ some new
    → is_older new old ≡ false
unfolding any_older Dict.get
any_older-false current [] id h e1 e2 = absurd (cc e1)
any_older-false current ((name, version) ∷ rest) id {old} {new} h e1 e2 =
    let (this, others) = both_false (older_now (Dict.get name current) version) _ h in
    elim (Bool-cases (text_eq name id)) [
      | inr other ↦ any_older-false current rest id others (rw other at e1) e2
      | inl same ↦
          let same_version : some version ≡ some old = rw same at e1 in
          let found : Dict.get name current ≡ some new =
            ap (λ n. Dict.get n current) (text_eq→eq name id same) ∙ e2 in
          let older : is_older new version ≡ false = rw found at this in
          subst (λ v. is_older new v ≡ false) (cc same_version) older
    ]

-- With a repository for the state, when two updates of a key return one after the other, with no
-- other of the key between them but with any of other keys, consumed endpoints and restarts, and the
-- first version is not empty, then no resolver that both versions name has an older version in the
-- second.
pub update_context-NoneOlder :
    (net : Net) (key : Text) (context later : Context) (p q r u : Provider) (repository : Dict Text)
    → p.state_repository ≡ some repository
    → update_context key context p ≡ ok q
    → Since net key q r
    → given (some context.config_version) ≡ true
    → update_context key later r ≡ ok u
    → (id old new : Text) → Dict.get id (parse_chain_versions context.config_version) ≡ some old
    → Dict.get id (parse_chain_versions later.config_version) ≡ some new
    → is_older new old ≡ false
unfolding is_config_rollback rolls_back
update_context-NoneOlder net key context later p q r u repository e h since t h' id old new e1 e2 =
    let (fresh, _) = update_context-ok key later r u h' in
    let kept : rolls_back (some context.config_version) later.config_version ≡ false =
      rw (next_version net key context p q r repository e h since) at fresh in
    any_older-false (parse_chain_versions later.config_version)
      (parse_chain_versions context.config_version) id (rw t at kept) e1 e2
