-- ===== src/Discovery/Printed.antt =====
-- `parse_chain_versions` of wrapper/resolver_chain.py on the texts of `chain_config_version`.
use fanxiangdiguijiexi.Prelude.{
  ℕ, ◌≡◌, ◌∙◌, refl, ap, sym, arith, Bool, false, ◌||◌, none, some, List, [], ◌∷◌, ◌++◌, append-nil,
  append_assoc, map, any, ◌==◌, Text, All,
}
use fanxiangdiguijiexi.Prelude.Dict
use fanxiangdiguijiexi.Prelude.Dict.{Dict}
use fanxiangdiguijiexi.Agent.Chain.{Node, Chain, Chains, chain, no_chains, and_chain}
use fanxiangdiguijiexi.Discovery.Versions.{
  chain_config_version, versions_below, part_of, split, rsplit_once, versions_from, put_version,
  parse_chain_versions,
}

-- The nodes of a chain, each before those below it.
unfoldable mutual
  pub nodes : Chain → List Node
  nodes (chain node downstream) = node ∷ nodes_below downstream

  pub nodes_below : Chains → List Node
  nodes_below no_chains = []
  nodes_below (and_chain c rest) = nodes c ++ nodes_below rest

-- The versions of the nodes, where a later one of the same resolver takes the place of an earlier.
unfoldable pub versions_of : List Node → Dict Text → Dict Text
versions_of [] versions = versions
versions_of (node ∷ rest) versions =
    versions_of rest (Dict.put node.resolver_id node.config_version versions)

abbrev pub has : ℕ → Text → Bool
has c t = any (λ d. d == c) t

-- A node whose id and version can be told apart in the text.
pub record IsPlain (node : Node) : Type 0 where
  pub resolver_id : has b'>' node.resolver_id ≡ false
  pub version : has b'>' node.config_version ≡ false
  pub no_colon : has b':' node.config_version ≡ false

split-free : (c : ℕ) (a : Text) → has c a ≡ false → split c a ≡ a ∷ []
unfolding split
split-free c [] h = refl
split-free c (x ∷ a) h = ground (arith, split-free c a)

split-append : (c : ℕ) (a b : Text) → has c a ≡ false → split c (a ++ c ∷ b) ≡ a ∷ split c b
unfolding split
split-append c [] b h = ground arith
split-append c (x ∷ a) b h = ground (arith, split-append c a b)

rsplit_once-free : (c : ℕ) (a : Text) → has c a ≡ false → rsplit_once c a ≡ none
unfolding rsplit_once
rsplit_once-free c [] h = refl
rsplit_once-free c (x ∷ a) h = ground (arith, rsplit_once-free c a)

rsplit_once-append :
    (c : ℕ) (a b : Text) → has c b ≡ false → rsplit_once c (a ++ c ∷ b) ≡ some (a, b)
unfolding rsplit_once
rsplit_once-append c [] b h = ground (arith, rsplit_once-free c b h)
rsplit_once-append c (x ∷ a) b h = ground (arith, rsplit_once-append c a b h)

-- The parts of some nodes, each behind a ">".
tails : List Node → Text
tails [] = []
tails (node ∷ rest) = b'>' ∷ (part_of node ++ tails rest)

tails-append : (a b : List Node) → tails (a ++ b) ≡ tails a ++ tails b
unfolding tails
tails-append [] b = refl
tails-append (node ∷ a) b =
    ap (λ t. b'>' ∷ t)
      (ap (λ t. part_of node ++ t) (tails-append a b)
        ∙ sym (append_assoc (part_of node) (tails a) (tails b)))

mutual
  unfolding chain_config_version versions_below nodes nodes_below tails

  below-tails : (cs : Chains) → versions_below cs ≡ tails (nodes_below cs)
  below-tails no_chains = refl
  below-tails (and_chain c rest) =
      ap (λ t. b'>' ∷ (chain_config_version c ++ t)) (below-tails rest)
      ∙ ap (λ t. t ++ tails (nodes_below rest)) (chain-tails c)
      ∙ sym (tails-append (nodes c) (nodes_below rest))

  chain-tails : (c : Chain) → b'>' ∷ chain_config_version c ≡ tails (nodes c)
  chain-tails (chain node downstream) =
      ap (λ t. b'>' ∷ (part_of node ++ t)) (below-tails downstream)

-- A part holds no ">", and is taken apart at its colon.
has-append : (c : ℕ) (a b : Text) → has c (a ++ b) ≡ has c a || has c b
has-append c [] b = refl
has-append c (x ∷ a) b = ground (arith, has-append c a b)

part-free : (node : Node) → IsPlain node → has b'>' (part_of node) ≡ false
part-free node plain = ground (
  arith,
  has-append b'>' node.resolver_id (b':' ∷ node.config_version),
  plain.resolver_id,
  plain.version,
)

split-parts :
    (node : Node) (rest : List Node)
    → All IsPlain (node ∷ rest)
    → split b'>' (part_of node ++ tails rest) ≡ map part_of (node ∷ rest)
unfolding tails
split-parts node [] (plain, others) =
    ap (split b'>') (append-nil (part_of node))
    ∙ split-free b'>' (part_of node) (part-free node plain)
split-parts node (next ∷ rest) (plain, others) =
    split-append b'>' (part_of node) (part_of next ++ tails rest) (part-free node plain)
    ∙ ap (λ l. part_of node ∷ l) (split-parts next rest others)

versions_from-parts :
    (ns : List Node) (d : Dict Text)
    → All IsPlain ns
    → versions_from (map part_of ns) d ≡ versions_of ns d
unfolding versions_from versions_of
versions_from-parts [] d all = refl
versions_from-parts (node ∷ rest) d (plain, others) =
    ap (λ o. versions_from (map part_of rest) (put_version o d))
      (rsplit_once-append b':' node.resolver_id node.config_version plain.no_colon)
    ∙ versions_from-parts rest _ others

-- Where no resolver id and no version holds a ">", and no version a colon, `parse_chain_versions` reads
-- from what `chain_config_version` writes for a chain the versions of all its nodes, from the first
-- node down.
pub parse_chain_versions-chain_config_version :
    (c : Chain)
    → All IsPlain (nodes c)
    → parse_chain_versions (chain_config_version c) ≡ versions_of (nodes c) []
unfolding parse_chain_versions chain_config_version nodes
parse_chain_versions-chain_config_version (chain node downstream) all =
    ap (λ t. versions_from (split b'>' (part_of node ++ t)) []) (below-tails downstream)
    ∙ ap (λ parts. versions_from parts []) (split-parts node (nodes_below downstream) all)
    ∙ versions_from-parts (node ∷ nodes_below downstream) [] all
