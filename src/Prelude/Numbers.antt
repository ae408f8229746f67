-- ===== src/Prelude/Numbers.antt =====
-- `int` of a text: the digits of a non-negative number, with white space around them. Signs and
-- underscores are not read.
use mathlib.Core.Bool.{Bool, true, false, ◌&&◌}
use mathlib.Core.List.{[], ◌∷◌}
use Prim.Native.Nat.{ℕ, ◌+◌, ◌-◌, ◌*◌}
use fanxiangdiguijiexi.Prelude.Tests.{leb}
use fanxiangdiguijiexi.Prelude.Strings.{Text, strip}
use fanxiangdiguijiexi.Prelude.Raises.{Outcome, ok, raised, PyError, value_error}

abbrev pub is_digit : ℕ → Bool
is_digit c = leb b'0' c && leb c b'9'

unfoldable pub digits_value : ℕ → Text → Outcome PyError ℕ
digits_value n [] = ok n
digits_value n (c ∷ rest) = elim (is_digit c) [
  | true ↦ digits_value (n * 10 + (c - 48)) rest
  | false ↦ raised value_error
]

abbrev not_empty : Text → Outcome PyError ℕ
not_empty [] = raised value_error
not_empty (c ∷ rest) = digits_value 0 (c ∷ rest)

unfoldable pub parse_int : Text → Outcome PyError ℕ
unfolding digits_value strip
parse_int t = not_empty (strip t)
