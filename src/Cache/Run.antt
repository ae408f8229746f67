-- ===== src/Cache/Run.antt =====
-- A call that may change the cache of verifier/cache_manager.py: what it returns or raises, and the
-- cache after it.
use fanxiangdiguijiexi.Prelude.{◌≡◌, refl, Outcome, PyError, ok, raised}
use fanxiangdiguijiexi.Cache.Manager.{Cache}

abbrev pub Run : Type 0 → Type 0
Run A = Outcome PyError A × Cache

abbrev pub after : {A B : Type 0} → Run A → (A → Cache → Run B) → Run B
after (raised e, c) f = (raised e, c)
after (ok a, c) f = f a c

-- A chain of calls that returned, taken apart at its first.
pub split_after :
    {A B : Type 0} (m : Run A) (f : A → Cache → Run B) {b : B}
    → (after m f).0 ≡ ok b
    → (a : A) × (m.0 ≡ ok a) × ((f a m.1).0 ≡ ok b) × (after m f ≡ f a m.1)
split_after (raised e, c) f h = absurd (cc h)
split_after (ok a, c) f h = (a, refl, h, refl)

-- The same, for a proof that goes on with the parts.
pub ran :
    {A B C : Type 0} (m : Run A) (f : A → Cache → Run B) {b : B}
    → (after m f).0 ≡ ok b
    → ((a : A) → m.0 ≡ ok a → (f a m.1).0 ≡ ok b → C)
    → C
ran m f h k = let (a, e, h', _) = split_after m f h in k a e h'
