-- ===== src/Discovery/Versions.antt =====
-- wrapper/resolver_chain.py: the configuration version of a chain, and whether one rolls back another.
use fanxiangdiguijiexi.Prelude.{
  ℕ, ◌+◌, ◌-◌, ◌*◌, Bool, true, false, not, ◌&&◌, Option, none, some, List, [], ◌∷◌, ◌++◌, ltb,
  ◌==◌, if◌then◌else◌, Text, strip,
}
use fanxiangdiguijiexi.Prelude.Dict
use fanxiangdiguijiexi.Prelude.Dict.{Dict}
use fanxiangdiguijiexi.Prelude.{is_digit}
use fanxiangdiguijiexi.Json.{text_le}
use fanxiangdiguijiexi.Agent.Chain.{Node, Chain, Chains, chain, no_chains, and_chain}

-- `chain_config_version`: the parts of the nodes, with ">" between them.
abbrev pub part_of : Node → Text
part_of node = node.resolver_id ++ b':' ∷ node.config_version

unfoldable mutual
  pub chain_config_version : Chain → Text
  chain_config_version (chain node downstream) = part_of node ++ versions_below downstream

  pub versions_below : Chains → Text
  versions_below no_chains = []
  versions_below (and_chain c rest) = b'>' ∷ (chain_config_version c ++ versions_below rest)

abbrev onto_first : ℕ → List Text → List Text
onto_first c [] = (c ∷ []) ∷ []
onto_first c (part ∷ parts) = (c ∷ part) ∷ parts

-- `value.split(separator)`, of one character.
unfoldable pub split : ℕ → Text → List Text
split separator [] = [] ∷ []
split separator (c ∷ rest) =
    let parts = split separator rest in if c == separator then [] ∷ parts else onto_first c parts

-- `part.rsplit(":", 1)`, where the part holds the separator.
unfoldable pub rsplit_once : ℕ → Text → Option (Text × Text)
rsplit_once separator [] = none
rsplit_once separator (c ∷ rest) = elim (rsplit_once separator rest) [
  | some (before, behind) ↦ some (c ∷ before, behind)
  | none ↦ if c == separator then some ([], rest) else none
]

abbrev pub put_version : Option (Text × Text) → Dict Text → Dict Text
put_version none versions = versions
put_version (some (resolver_id, config_version)) versions =
    Dict.put resolver_id config_version versions

unfoldable pub versions_from : List Text → Dict Text → Dict Text
unfolding rsplit_once
versions_from [] versions = versions
versions_from (part ∷ parts) versions =
    versions_from parts (put_version (rsplit_once b':' part) versions)

unfoldable pub parse_chain_versions : Text → Dict Text
unfolding split versions_from
parse_chain_versions value = versions_from (split b'>' value) []

-- `int` of an ASCII text: white space around it, a sign, and single underscores between digits.
-- `after_digit` says whether the text may end here.
unfoldable pub int_digits : Bool → ℕ → Text → Option ℕ
int_digits after_digit n [] = if after_digit then some n else none
int_digits after_digit n (c ∷ rest) = elim (is_digit c) [
  | true ↦ int_digits true (n * 10 + (c - 48)) rest
  | false ↦ elim (after_digit && (c == b'_')) [ true ↦ int_digits false n rest | false ↦ none ]
]

-- Whether a number is below zero, and its absolute value.
abbrev signed : Bool → Option ℕ → Option (Bool × ℕ)
signed minus none = none
signed minus (some n) = some (minus, n)

abbrev int_signed : Text → Option (Bool × ℕ)
int_signed [] = none
int_signed (c ∷ rest) =
    if c == b'-'
    then signed true (int_digits false 0 rest)
    else if c == b'+'
    then signed false (int_digits false 0 rest)
    else signed false (int_digits false 0 (c ∷ rest))

unfoldable pub to_int : Text → Option (Bool × ℕ)
unfolding int_digits strip
to_int t = int_signed (strip t)

abbrev int_less : Bool × ℕ → Bool × ℕ → Bool
int_less (false, a) (false, b) = ltb a b
int_less (true, a) (true, b) = ltb b a
int_less (true, a) (false, b) = not ((a == 0) && (b == 0))
int_less (false, a) (true, b) = false

-- `int(new) < int(old)`, or `new < old` where one of them is no number.
abbrev version_less : Option (Bool × ℕ) → Option (Bool × ℕ) → Text → Text → Bool
version_less (some a) (some b) new old = int_less a b
version_less _ _ new old = not (text_le old new)

unfoldable pub is_older : Text → Text → Bool
unfolding to_int text_le
is_older new old = version_less (to_int new) (to_int old) new old

-- A resolver that the current chain leaves out is passed over.
abbrev pub older_now : Option Text → Text → Bool
older_now none old = false
older_now (some new) old = is_older new old

unfoldable pub any_older : Dict Text → Dict Text → Bool
any_older current [] = false
any_older current ((resolver_id, old) ∷ rest) =
    if older_now (Dict.get resolver_id current) old then true else any_older current rest

unfoldable pub is_config_rollback : Text → Text → Bool
unfolding parse_chain_versions any_older
is_config_rollback previous current =
    any_older (parse_chain_versions current) (parse_chain_versions previous)
