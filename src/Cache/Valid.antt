-- ===== src/Cache/Valid.antt =====
-- What an accepted answer of `get_valid` rests on.
use fanxiangdiguijiexi.Prelude.{
  ℕ, ◌<◌, ◌≡◌, refl, true, none, some, arith, leb, if◌then◌else◌, ◌==◌, Text, codes, text_eq_iff,
  text_eq_refl, ok, >>=-eq-ok, Bool-cases, Option-cases, inl, inr,
}
use fanxiangdiguijiexi.Prelude.Dict
use fanxiangdiguijiexi.Prelude.Dict.{get-put}
use fanxiangdiguijiexi.Json.{num, text}
use fanxiangdiguijiexi.Crypto.Sha.{Sha256}
use fanxiangdiguijiexi.Models.Endpoint.{Endpoint, Net, from_dict, matches}
use fanxiangdiguijiexi.Models.Verification.{VerificationResult, accept, reject}
use fanxiangdiguijiexi.Cache.Rows.{
  CacheRow, Repository, RowStatus, refreshing, verified, update_status, get_by_endpoint_lookup_key,
  trusted_cache_key,
}
use fanxiangdiguijiexi.Cache.Manager.{
  Others, Cache, Answer, or_row, is_live, accept_with, hit_evidence, binding_failure, serve_row,
  get_valid_row, get_valid,
}
use fanxiangdiguijiexi.Cache.Store.{result_is_current}

owner-hit_evidence :
    (row : CacheRow) (status : RowStatus) (generation : ℕ) (owner : Text)
    → Dict.get (codes "cache_generation_owner") (hit_evidence row status generation owner)
      ≡ some (text owner)
unfolding hit_evidence
owner-hit_evidence row status generation owner = simp get-put

generation-hit_evidence :
    (row : CacheRow) (status : RowStatus) (generation : ℕ) (owner : Text)
    → Dict.get (codes "cache_generation") (hit_evidence row status generation owner)
      ≡ some (num generation)
unfolding hit_evidence
generation-hit_evidence row status generation owner = simp get-put

-- Evidence of a hit is current exactly while the generation is the one it names.
hit_evidence-current :
    (row : CacheRow) (status : RowStatus) (generation : ℕ) (owner : Text) (c : Cache)
    (r : VerificationResult)
    → r.evidence ≡ hit_evidence row status generation owner
    → c.generation_owner ≡ owner
    → result_is_current r c ≡ ok (generation == c.repository.generation)
unfolding result_is_current
hit_evidence-current row status generation owner c r e o =
    rw (e, owner-hit_evidence, generation-hit_evidence, o, text_eq_refl owner) refl

-- The repository when `get_valid` reads the row, at its second read of the generation, and when
-- it updates the table.
abbrev pub at_row : Others → Cache → Repository
at_row others c = others.before_row c.repository

abbrev pub at_check : Others → Cache → Repository
at_check others c = others.before_check (at_row others c)

abbrev pub at_update : Others → Cache → Repository
at_update others c = others.before_update (at_check others c)

module _ (net : Net) (s : Sha256) where
  -- The row is for the observed endpoint, and its key binds what it says.
  pub record IsBound (row : CacheRow) (observed : Endpoint) : Type 0 where
    pub cached : Endpoint
    pub read : from_dict net row.endpoint ≡ ok cached
    pub matched : matches net cached observed ≡ ok true
    pub bound : trusted_cache_key net s cached row.resolver_id row.object_version ≡ ok row.cache_key

  binding_failure-IsBound :
      (row : CacheRow) (observed : Endpoint)
      → binding_failure net s row observed ≡ ok none
      → IsBound row observed
  unfolding binding_failure
  binding_failure-IsBound row observed h =
      let (cached, e, h') = >>=-eq-ok (from_dict net row.endpoint) _ h in
      let (matched, e', h'') = >>=-eq-ok (matches net cached observed) _ h' in
      elim (Bool-cases matched) [
        | inr no_match ↦ absurd (cc (rw no_match at h''))
        | inl a_match ↦
            let (key, e'', q) =
              >>=-eq-ok (trusted_cache_key net s cached row.resolver_id row.object_version) _
                (rw a_match at h'') in
            let same : row.cache_key ≡ key = ground (arith, text_eq_iff row.cache_key key) in
            record { cached = cached; read = e; matched = cc (e', a_match); bound = cc (e'', same) }
      ]

  record Served (key : Text) (row : CacheRow) (g : ℕ) (c : Cache) (a : Answer × Cache)
      (r : VerificationResult) : Type 0 where
    resolver : r.resolver_id ≡ some row.resolver_id
    status : RowStatus
    evidence : r.evidence ≡ hit_evidence row status g c.generation_owner
    generation : a.1.repository.generation ≡ c.repository.generation
    owner : a.1.generation_owner ≡ c.generation_owner

  serve_row-Served :
      (key : Text) (row : CacheRow) (g now : ℕ) (c : Cache) (r : VerificationResult)
      → (serve_row net s key row g now c).0 ≡ ok (some r)
      → Served key row g c (serve_row net s key row g now c) r
  unfolding serve_row accept_with accept update_status hit_evidence
  serve_row-Served key row g now c r h = record {
    resolver = ground arith;
    status = if leb row.soft_expire_at now then refreshing else verified;
    evidence = ground arith;
    generation = ground arith;
    owner = refl;
  }

  -- What an accepted answer says of the row that it came from, of the generation `g` at which the
  -- row was read, and of the cache that the call leaves.
  pub record Accepted (row : CacheRow) (observed : Endpoint) (g now : ℕ) (c : Cache)
      (r : VerificationResult) : Type 0 where
    pub live : is_live row.status ≡ true
    pub fresh : now < row.hard_expire_at
    pub binding : IsBound row observed
    pub resolver : r.resolver_id ≡ some row.resolver_id
    pub current : result_is_current r c ≡ ok (g == c.repository.generation)
    pub owner :
        Dict.get (codes "cache_generation_owner") r.evidence ≡ some (text c.generation_owner)
    pub stamp : Dict.get (codes "cache_generation") r.evidence ≡ some (num g)

  get_valid_row-path :
      (key : Text) (observed : Endpoint) (row : CacheRow) (g now : ℕ) (c : Cache)
      (r : VerificationResult)
      → (get_valid_row net s key observed row g now c).0 ≡ ok (some r)
      → r.accepted ≡ true
      → (is_live row.status ≡ true)
        × (now < row.hard_expire_at)
        × (binding_failure net s row observed ≡ ok none)
        × (get_valid_row net s key observed row g now c ≡ serve_row net s key row g now c)
  unfolding get_valid_row reject
  get_valid_row-path key observed row g now c r h a = ground arith

  get_valid_row-Accepted :
      (key : Text) (observed : Endpoint) (row : CacheRow) (g now : ℕ) (c : Cache)
      (r : VerificationResult)
      → (get_valid_row net s key observed row g now c).0 ≡ ok (some r)
      → r.accepted ≡ true
      → Accepted row observed g now (get_valid_row net s key observed row g now c).1 r
        × ((get_valid_row net s key observed row g now c).1.repository.generation
            ≡ c.repository.generation)
  get_valid_row-Accepted key observed row g now c r h a =
      let (live, fresh, bound, same) = get_valid_row-path key observed row g now c r h a in
      let served = serve_row-Served key row g now c r (rw same at h) in
      (
        record {
          live = live;
          fresh = fresh;
          binding = binding_failure-IsBound row observed bound;
          resolver = served.resolver;
          current = rw same (
              hit_evidence-current row served.status g c.generation_owner
                (serve_row net s key row g now c).1 r served.evidence served.owner);
          owner =
              rw (served.evidence, same, served.owner)
                (owner-hit_evidence row served.status g c.generation_owner);
          stamp =
              rw served.evidence (generation-hit_evidence row served.status g c.generation_owner);
        },
        rw same served.generation,
      )

  -- An answer comes from a row, and the generation had not moved.
  get_valid-row :
      (others : Others) (key : Text) (observed : Endpoint) (now : ℕ) (c : Cache)
      (r : VerificationResult)
      → (get_valid net s others key observed now c).0 ≡ ok (some r)
      → (row : CacheRow) × (or_row
            (get_by_endpoint_lookup_key key (at_row others c))
            (Dict.get key c.memory)
          ≡ some row)
        × ((at_check others c).generation ≡ c.repository.generation)
        × (get_valid net s others key observed now c
            ≡ get_valid_row net s key observed row c.repository.generation now
                (record c { repository = at_update others c }))
  unfolding get_valid
  get_valid-row others key observed now c r h =
      elim (Option-cases
        (or_row (get_by_endpoint_lookup_key key (at_row others c)) (Dict.get key c.memory))) [
          | inl e ↦ absurd (ground arith)
          | inr (row, e) ↦ (row, e, ground arith, ground arith)
        ]

  -- An accepted answer of `get_valid` comes from a row that the repository or the memory had for
  -- the endpoint key when it was read. The row was VERIFIED or REFRESHING, its hard deadline lies
  -- ahead, its endpoint matches the observed one and its key binds its resolver, endpoint and
  -- version. The answer names that resolver and carries the cache's owner and the generation at
  -- which the call began, which was the generation again after the row was read; and it is
  -- current in the cache that the call leaves if and only if no one moved the generation after
  -- that.
  pub get_valid-Accepted :
      (others : Others) (key : Text) (observed : Endpoint) (now : ℕ) (c : Cache)
      (r : VerificationResult)
      → (get_valid net s others key observed now c).0 ≡ ok (some r)
      → r.accepted ≡ true
      → (row : CacheRow) × (or_row
            (get_by_endpoint_lookup_key key (at_row others c))
            (Dict.get key c.memory)
          ≡ some row)
        × ((at_check others c).generation ≡ c.repository.generation)
        × ((get_valid net s others key observed now c).1.repository.generation
            ≡ (at_update others c).generation)
        × Accepted row observed c.repository.generation now
            (get_valid net s others key observed now c).1
            r
  get_valid-Accepted others key observed now c r h a =
      let (row, found, still, same) = get_valid-row others key observed now c r h in
      let c' = record c { repository = at_update others c } in
      let (taken, kept) =
        get_valid_row-Accepted key observed row c.repository.generation now c' r (rw same at h) a in
      (row, found, still, rw same kept, rw same taken)
