-- ===== src/Prelude/Strings.antt =====
-- Texts as lists of code points. Identifiers, digests and addresses of the program are ASCII, and
-- `lower`, `upper` and `strip` are written out for ASCII.
use Prim.Native.Nat.{ℕ, zero, suc, ◌+◌, ◌-◌, ◌/◌, ◌%◌}
use Prim.Native.Char.{code}
use Prim.Native.String.{String}
use mathlib.Core.Path.{◌≡◌, refl}
use mathlib.Core.Logic.{◌↔◌, ◌≢◌}
use mathlib.Core.Bool.{Bool, true, false, ◌&&◌, ◌||◌}
use mathlib.Core.Option.{Option, none, some}
use mathlib.Core.List.{List, [], ◌∷◌}
use native.Mathlib.Omega.{arith}
use fanxiangdiguijiexi.Prelude.Tests.{ltb, leb, ◌==◌, if◌then◌else◌}

abbrev pub Text : Type 0
Text = List ℕ

-- A literal of the source.
abbrev pub codes : String → Text
codes String.[] = []
codes (String.◌∷◌ c s) = code c ∷ codes s

-- Python's `==` on two strings.
abbrev pub text_eq : Text → Text → Bool
text_eq [] [] = true
text_eq [] (c ∷ t) = false
text_eq (b ∷ s) [] = false
text_eq (b ∷ s) (c ∷ t) = b == c && text_eq s t

pub text_eq_iff : (s t : Text) → (text_eq s t ≡ true) ↔ (s ≡ t)
text_eq_iff [] [] = (λ h. refl, λ h. refl)
text_eq_iff [] (c ∷ t) = (λ h. cc, λ h. cc)
text_eq_iff (b ∷ s) [] = (λ h. cc, λ h. cc)
text_eq_iff (b ∷ s) (c ∷ t) =
    (λ h. ground (arith, text_eq_iff s t), λ h. ground (arith, text_eq_iff s t))

pub text_eq_refl : (s : Text) → text_eq s s ≡ true
text_eq_refl s = (text_eq_iff s s).1 refl

pub text_eq→eq : (s t : Text) → text_eq s t ≡ true → s ≡ t
text_eq→eq s t = (text_eq_iff s t).0

pub text_eq-false : (s t : Text) → s ≢ t → text_eq s t ≡ false
text_eq-false s t h = ground (arith, text_eq_iff s t)

abbrev pub lower_code : ℕ → ℕ
lower_code c = if leb b'A' c && leb c b'Z' then c + 32 else c

abbrev pub upper_code : ℕ → ℕ
upper_code c = if leb b'a' c && leb c b'z' then c - 32 else c

-- `str.lower` and `str.upper` on ASCII text.
unfoldable pub lower : Text → Text
lower [] = []
lower (c ∷ s) = lower_code c ∷ lower s

unfoldable pub upper : Text → Text
upper [] = []
upper (c ∷ s) = upper_code c ∷ upper s

pub lower-lower : (s : Text) → lower (lower s) ≡ lower s
unfolding lower
lower-lower [] = refl
lower-lower (c ∷ s) = ground (arith, lower-lower s)

-- Python's truth of a string: it is not empty.
abbrev pub truthy : Text → Bool
truthy [] = false
truthy (c ∷ s) = true

-- `str` of a number: its digits, the last one first in the recursion. The fuel is the number + 1.
unfoldable pub decimal_fuel : ℕ → ℕ → Text → Text
decimal_fuel zero n rest = rest
decimal_fuel (suc f) n rest =
    let more = decimal_fuel f (n / 10) ((n % 10 + 48) ∷ rest) in
    if ltb n 10 then (n + 48) ∷ rest else more

unfoldable pub decimal : ℕ → Text
unfolding decimal_fuel
decimal n = decimal_fuel (n + 1) n []

-- The white space of `str.strip`, below 128.
abbrev pub is_blank : ℕ → Bool
is_blank c = (leb 9 c && leb c 13) || (leb 28 c && leb c 32)

-- `lstrip` and `rstrip` of the characters that pass a test.
unfoldable pub lstrip : (ℕ → Bool) → Text → Text
lstrip p [] = []
lstrip p (c ∷ s) = let rest = lstrip p s in if p c then rest else c ∷ s

unfoldable pub rstrip : (ℕ → Bool) → Text → Text
rstrip p [] = []
rstrip p (c ∷ s) = elim (rstrip p s) [ [] ↦ if p c then [] else c ∷ [] | d ∷ rest ↦ c ∷ d ∷ rest ]

unfoldable pub strip : Text → Text
unfolding lstrip rstrip
strip s = rstrip is_blank (lstrip is_blank s)

-- Python's truth of a value that may be `None` or a string.
abbrev pub given : Option Text → Bool
given none = false
given (some t) = truthy t

-- `value or ""`
abbrev pub or_blank : Option Text → Text
or_blank none = []
or_blank (some t) = t

-- Python's `==` on two values that may be `None`.
abbrev pub option_eq : Option Text → Option Text → Bool
option_eq none none = true
option_eq none (some t) = false
option_eq (some s) none = false
option_eq (some s) (some t) = text_eq s t

pub option_eq_iff : (s t : Option Text) → (option_eq s t ≡ true) ↔ (s ≡ t)
option_eq_iff none none = (λ h. refl, λ h. refl)
option_eq_iff none (some t) = (λ h. cc, λ h. cc)
option_eq_iff (some s) none = (λ h. cc, λ h. cc)
option_eq_iff (some s) (some t) =
    (λ h. ground (arith, text_eq_iff s t), λ h. ground (arith, text_eq_iff s t))

pub text_eq_comm : (s t : Text) → text_eq s t ≡ text_eq t s
text_eq_comm [] [] = refl
text_eq_comm [] (c ∷ t) = refl
text_eq_comm (b ∷ s) [] = refl
text_eq_comm (b ∷ s) (c ∷ t) = ground (arith, text_eq_comm s t)
