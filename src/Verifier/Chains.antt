-- ===== src/Verifier/Chains.antt =====
-- How a chain of checks of verifier/resolver_verifier.py that went through is taken apart.
use fanxiangdiguijiexi.Prelude.{
  ◌≡◌, refl, Bool, true, false, Option, none, some, List, [], ◌∷◌, Text, Outcome, PyError, ok,
  raised, ◌>>=◌, ◌>>◌, >>=-eq-ok, Bool-cases, inl, inr,
}
use fanxiangdiguijiexi.Models.Endpoint.{Endpoint, Net, matches}
use fanxiangdiguijiexi.Models.Verification.{Reason, Evidence}
use fanxiangdiguijiexi.Verifier.Judge.{Stop, lift, need, demand, no_reason, any_matches}

lift-eq-ok : {A : Type 0} (m : Outcome PyError A) {a : A} → lift m ≡ ok a → m ≡ ok a
unfolding lift
lift-eq-ok (ok a) h = cc h
lift-eq-ok (raised e) h = absurd (cc h)

need-eq-ok :
    {A : Type 0} (o : Option A) (r : Reason) (t : Option Text) (e : Evidence) {a : A}
    → need o r t e ≡ ok a
    → o ≡ some a
unfolding need
need-eq-ok none r t e h = absurd (cc h)
need-eq-ok (some a) r t e h = cc h

pub demand-eq-ok :
    (b : Bool) (r : Reason) (t : Option Text) (e : Evidence) {u : Unit}
    → demand b r t e ≡ ok u
    → b ≡ true
unfolding demand
demand-eq-ok true r t e h = refl
demand-eq-ok false r t e h = absurd (cc h)

no_reason-eq-ok :
    (o : Option Reason) (t : Text) (e : Evidence) {u : Unit} → no_reason o t e ≡ ok u → o ≡ none
unfolding no_reason
no_reason-eq-ok none t e h = refl
no_reason-eq-ok (some r) t e h = absurd (cc h)

-- A chain that returned, taken apart at its first call: the rest of a proof is given what that call
-- returned, and that the chain's rest returned.
pub lifted :
    {A B C : Type 0} (m : Outcome PyError A) (f : A → Outcome Stop B) {b : B}
    → (lift m >>= f) ≡ ok b
    → ((a : A) → m ≡ ok a → f a ≡ ok b → C)
    → C
lifted m f h k = let (a, e, h') = >>=-eq-ok (lift m) f h in k a (lift-eq-ok m e) h'

pub needed :
    {A B C : Type 0} (o : Option A) (r : Reason) (t : Option Text) (v : Evidence)
    (f : A → Outcome Stop B) {b : B}
    → (need o r t v >>= f) ≡ ok b
    → ((a : A) → o ≡ some a → f a ≡ ok b → C)
    → C
needed o r t v f h k =
    let (a, e, h') = >>=-eq-ok (need o r t v) f h in k a (need-eq-ok o r t v e) h'

pub demanded :
    {B C : Type 0} (t : Bool) (r : Reason) (i : Option Text) (v : Evidence) (m : Outcome Stop B)
    {b : B}
    → (demand t r i v >> m) ≡ ok b
    → (t ≡ true → m ≡ ok b → C)
    → C
demanded t r i v m h k =
    let (u, e, h') = >>=-eq-ok (demand t r i v) _ h in k (demand-eq-ok t r i v e) h'

pub unreasoned :
    {B C : Type 0} (o : Option Reason) (t : Text) (e : Evidence) (m : Outcome Stop B) {b : B}
    → (no_reason o t e >> m) ≡ ok b
    → (o ≡ none → m ≡ ok b → C)
    → C
unreasoned o t e m h k =
    let (u, q, h') = >>=-eq-ok (no_reason o t e) _ h in k (no_reason-eq-ok o t e q) h'

-- Some endpoint of the list matches the observed one.
pub data SomeMatches (net : Net) (observed : Endpoint) : List Endpoint → Type 0 where
  this_matches :
      {e : Endpoint} {es : List Endpoint}
      → matches net e observed ≡ ok true
      → SomeMatches net observed (e ∷ es)
  later_matches :
      {e : Endpoint} {es : List Endpoint}
      → SomeMatches net observed es
      → SomeMatches net observed (e ∷ es)

pub any_matches-SomeMatches :
    (net : Net) (es : List Endpoint) (observed : Endpoint)
    → any_matches net es observed ≡ ok true
    → SomeMatches net observed es
unfolding any_matches
any_matches-SomeMatches net [] observed h = absurd (cc h)
any_matches-SomeMatches net (e ∷ es) observed h =
    let (m, q, h') = >>=-eq-ok (matches net e observed) _ h in
    elim (Bool-cases m) [
      | inl hit ↦ this_matches (cc (q, hit))
      | inr miss ↦ later_matches (any_matches-SomeMatches net es observed (rw miss at h'))
    ]

-- The same of a chain of the model's own.
pub chained :
    {A B C : Type 0} (m : Outcome Stop A) (f : A → Outcome Stop B) {b : B}
    → (m >>= f) ≡ ok b
    → ((a : A) → m ≡ ok a → f a ≡ ok b → C)
    → C
chained m f h k = let (a, e, h') = >>=-eq-ok m f h in k a e h'
