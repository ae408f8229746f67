-- ===== src/Prelude/Raises.antt =====
-- What a call returns: a value, or the exception that it raises.
use mathlib.Core.Path.{◌≡◌, refl}
use mathlib.Core.Bool.{Bool, true, false}
use mathlib.Core.Logic.{◌⊎◌, inl, inr}

pub data Outcome {ℓ} (E : Type ℓ) (A : Type ℓ) : Type ℓ where
  ok : A → Outcome E A
  raised : E → Outcome E A

-- The exceptions that the program tells apart. `diverged` is no exception of Python's: a loop of
-- the model that is given too little fuel ends in it.
pub data PyError : Type 0 where
  value_error key_error index_error type_error runtime_error diverged : PyError

infixl 5 ◌>>=◌ ◌>>◌
abbrev pub ◌>>=◌ {ℓ} : {E A B : Type ℓ} → Outcome E A → (A → Outcome E B) → Outcome E B
raised e >>= _ = raised e
ok value >>= next = next value

abbrev pub ◌>>◌ {ℓ} : {E A B : Type ℓ} → Outcome E A → Outcome E B → Outcome E B
m >> k = m >>= λ _. k

-- `if test: raise e`.
abbrev pub raise_if : {E : Type 0} → Bool → E → Outcome E Unit
raise_if true e = raised e
raise_if false e = ok tt

pub Outcome-cases {ℓ} :
    {E A : Type ℓ} (m : Outcome E A) → ((a : A) × (m ≡ ok a)) ⊎ ((e : E) × (m ≡ raised e))
Outcome-cases (ok a) = inl (a, refl)
Outcome-cases (raised e) = inr (e, refl)

-- When a chain returned, its first call did, and so did what follows it.
pub >>=-eq-ok {ℓ} :
    {E A B : Type ℓ} (call : Outcome E A) (next : A → Outcome E B) {value : B}
    → (call >>= next) ≡ ok value
    → (first : A) × (call ≡ ok first) × (next first ≡ ok value)
>>=-eq-ok (raised _) next e = cc
>>=-eq-ok (ok first) next e = (first, refl, e)

pub raise_if-eq-ok : {E : Type 0} (b : Bool) (e : E) {u : Unit} → raise_if b e ≡ ok u → b ≡ false
raise_if-eq-ok true e h = cc
raise_if-eq-ok false e h = refl

-- Two calls that returned and are equal returned the same.
pub same_ok {ℓ} : {E A : Type ℓ} {a b : A} → ◌≡◌ {A = Outcome E A} (ok a) (ok b) → a ≡ b
same_ok h = cc h
