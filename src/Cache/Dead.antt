-- ===== src/Cache/Dead.antt =====
-- Rows out of service, in the lists and dicts of verifier/cache_manager.py.
use fanxiangdiguijiexi.Prelude.{
  ◌≡◌, refl, Bool, true, false, Option, none, some, List, [], ◌∷◌, ◌++◌, ltb, if◌then◌else◌, keep,
  All, Text, text_eq, Bool-cases, Option-cases, inl, inr, ◌⊎◌, subst,
}
use fanxiangdiguijiexi.Prelude.Dict
use fanxiangdiguijiexi.Prelude.Dict.{Dict}
use fanxiangdiguijiexi.Cache.Rows.{
  RowStatus, CacheRow, mark_rows, newer, latest, get_by_endpoint_lookup_key,
}
use fanxiangdiguijiexi.Cache.Manager.{Cache, or_row, is_live, mark_if}

-- The row is out of service if it passes the test.
abbrev pub Dead : (CacheRow → Bool) → CacheRow → Type 0
Dead test row = test row ≡ true → is_live row.status ≡ false

abbrev pub AllDead : (CacheRow → Bool) → List CacheRow → Type 0
AllDead test rows = All (Dead test) rows

abbrev pub MemoryDead : (CacheRow → Bool) → Dict CacheRow → Type 0
MemoryDead test memory = All (λ e. Dead test e.1) memory

-- No row that passes the test is in service, in the table or in the memory.
pub record IsWithdrawn (test : CacheRow → Bool) (c : Cache) : Type 0 where
  pub rows : AllDead test c.repository.rows
  pub memory : MemoryDead test c.memory

pub mark_rows-AllDead :
    (test mark : CacheRow → Bool) (status : RowStatus) (rows : List CacheRow)
    → is_live status ≡ false
    → AllDead test rows
    → AllDead test (mark_rows mark status rows)
unfolding mark_rows
mark_rows-AllDead test mark status [] h d = tt
mark_rows-AllDead test mark status (row ∷ rest) h (d, ds) = (
  elim (Bool-cases (mark row)) [ inl e ↦ λ t. rw e h | inr e ↦ rw e d ],
  mark_rows-AllDead test mark status rest h ds,
)

pub map_values-MemoryDead :
    (test mark : CacheRow → Bool) (status : RowStatus) (memory : Dict CacheRow)
    → is_live status ≡ false
    → MemoryDead test memory
    → MemoryDead test (Dict.map_values (mark_if mark status) memory)
unfolding Dict.map_values
map_values-MemoryDead test mark status [] h d = tt
map_values-MemoryDead test mark status ((key, row) ∷ rest) h (d, ds) = (
  elim (Bool-cases (mark row)) [ inl e ↦ λ t. rw e h | inr e ↦ rw e d ],
  map_values-MemoryDead test mark status rest h ds,
)

-- Marking the rows that pass the test puts them all out of service.
pub mark_rows-all :
    (test : CacheRow → Bool) (status : RowStatus) (rows : List CacheRow)
    → is_live status ≡ false
    → AllDead test (mark_rows test status rows)
unfolding mark_rows
mark_rows-all test status [] h = tt
mark_rows-all test status (row ∷ rest) h = (
  elim (Bool-cases (test row)) [ inl e ↦ λ t. rw e h | inr e ↦ rw e (λ t. absurd (cc (e, t))) ],
  mark_rows-all test status rest h,
)

pub map_values-all :
    (test : CacheRow → Bool) (status : RowStatus) (memory : Dict CacheRow)
    → is_live status ≡ false
    → MemoryDead test (Dict.map_values (mark_if test status) memory)
unfolding Dict.map_values
map_values-all test status [] h = tt
map_values-all test status ((key, row) ∷ rest) h = (
  elim (Bool-cases (test row)) [ inl e ↦ λ t. rw e h | inr e ↦ rw e (λ t. absurd (cc (e, t))) ],
  map_values-all test status rest h,
)

next_best :
    (hit : Bool) (best : Option CacheRow) (first : CacheRow)
    → ((if hit then newer best first else best) ≡ some first)
      ⊎ ((if hit then newer best first else best) ≡ best)
next_best false best first = inr refl
next_best true none first = inl refl
next_best true (some b) first = elim (Bool-cases (ltb b.verified_at first.verified_at)) [
  | inl e ↦ inl (rw e refl)
  | inr e ↦ inr (rw e refl)
]

next_best-Dead :
    (test : CacheRow → Bool) (hit : Bool) (best : Option CacheRow) (first : CacheRow)
    → ((b : CacheRow) → best ≡ some b → Dead test b)
    → Dead test first
    → (b : CacheRow) → (if hit then newer best first else best) ≡ some b
    → Dead test b
next_best-Dead test hit best first hb d b h = elim (next_best hit best first) [
  | inl e ↦ let same : first ≡ b = cc (e, h) in subst (λ r. Dead test r) same d
  | inr e ↦ hb b (cc (e, h))
]

latest-Dead :
    (test : CacheRow → Bool) (key : Text) (best : Option CacheRow) (rows : List CacheRow)
    (row : CacheRow)
    → ((b : CacheRow) → best ≡ some b → Dead test b)
    → AllDead test rows
    → latest key best rows ≡ some row
    → Dead test row
unfolding latest
latest-Dead test key best [] row hb d h = hb row h
latest-Dead test key best (first ∷ rest) row hb (d, ds) h =
    latest-Dead test key (if text_eq first.endpoint_lookup_key key then newer best first else best)
      rest row (next_best-Dead test (text_eq first.endpoint_lookup_key key) best first hb d) ds h

get-Dead :
    (test : CacheRow → Bool) (key : Text) (memory : Dict CacheRow) (row : CacheRow)
    → MemoryDead test memory
    → Dict.get key memory ≡ some row
    → Dead test row
unfolding Dict.get
get-Dead test key [] row d h = absurd (cc h)
get-Dead test key ((k, first) ∷ rest) row (d, ds) h = elim (Bool-cases (text_eq k key)) [
  | inl e ↦ let same : first ≡ row = cc (rw e at h) in subst (λ r. Dead test r) same d
  | inr e ↦ get-Dead test key rest row ds (rw e at h)
]

pub found-Dead :
    (test : CacheRow → Bool) (key : Text) (c : Cache) (row : CacheRow)
    → IsWithdrawn test c
    → or_row (get_by_endpoint_lookup_key key c.repository) (Dict.get key c.memory) ≡ some row
    → Dead test row
unfolding get_by_endpoint_lookup_key
found-Dead test key c row w h = elim (Option-cases (latest key none c.repository.rows)) [
  | inl e ↦ get-Dead test key c.memory row w.memory (rw e at h)
  | inr (r, e) ↦
      latest-Dead test key none c.repository.rows row (λ b n. absurd (cc n)) w.rows
        (cc (e, rw e at h))
]

pub remove-MemoryDead :
    (test : CacheRow → Bool) (key : Text) (memory : Dict CacheRow)
    → MemoryDead test memory
    → MemoryDead test (Dict.remove key memory)
unfolding Dict.remove
remove-MemoryDead test key [] d = tt
remove-MemoryDead test key ((k, r) ∷ rest) (d, ds) =
    let ds' = remove-MemoryDead test key rest ds in
    elim (Bool-cases (text_eq k key)) [ inl e ↦ rw e ds' | inr e ↦ rw e (d, ds') ]

pub keep-AllDead :
    (test p : CacheRow → Bool) (rows : List CacheRow)
    → AllDead test rows
    → AllDead test (keep p rows)
keep-AllDead test p [] d = tt
keep-AllDead test p (row ∷ rest) (d, ds) =
    let ds' = keep-AllDead test p rest ds in
    elim (Bool-cases (p row)) [ inl e ↦ rw e (d, ds') | inr e ↦ rw e ds' ]

pub append-AllDead :
    (test : CacheRow → Bool) (rows : List CacheRow) (row : CacheRow)
    → AllDead test rows
    → Dead test row
    → AllDead test (rows ++ row ∷ [])
append-AllDead test [] row d h = (h, tt)
append-AllDead test (r ∷ rest) row (d, ds) h = (d, append-AllDead test rest row ds h)

pub put-MemoryDead :
    (test : CacheRow → Bool) (key : Text) (row : CacheRow) (memory : Dict CacheRow)
    → Dead test row
    → MemoryDead test memory
    → MemoryDead test (Dict.put key row memory)
unfolding Dict.put
put-MemoryDead test key row [] h d = (h, tt)
put-MemoryDead test key row ((k, r) ∷ rest) h (d, ds) =
    let ds' = put-MemoryDead test key row rest h ds in
    elim (Bool-cases (text_eq k key)) [ inl e ↦ rw e (h, ds) | inr e ↦ rw e (d, ds') ]
