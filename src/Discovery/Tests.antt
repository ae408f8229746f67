-- ===== src/Discovery/Tests.antt =====
-- Updates of what the provider remembers, and the texts of versions and URLs.
use fanxiangdiguijiexi.Prelude.{
  ◌≡◌, refl, true, false, none, some, [], ◌∷◌, Text, codes, Outcome, PyError, ok, raised,
  runtime_error, strip,
}
use fanxiangdiguijiexi.Prelude.Dict
use fanxiangdiguijiexi.Prelude.Dict.{Dict}
use fanxiangdiguijiexi.Models.Endpoint.Toy.{toy_net, udp_endpoint, address_53}
use fanxiangdiguijiexi.Agent.Identity.{AgentIdentity, agent_schema}
use fanxiangdiguijiexi.Discovery.Versions.{
  is_config_rollback, is_older, parse_chain_versions, to_int, int_digits, split, rsplit_once,
  versions_from, any_older,
}
use fanxiangdiguijiexi.Discovery.Context.{Context, Provider, update_context, rolls_back}
use fanxiangdiguijiexi.Discovery.Rollback.{
  Since, unchanged, updated_other, started_again, update_context-refuses, update_context-NoneOlder,
}
use fanxiangdiguijiexi.Prelude.{ap, Option, text_eq, Bool-cases, inl, inr, All}
use fanxiangdiguijiexi.Discovery.Versions.{chain_config_version}
use fanxiangdiguijiexi.Discovery.Context.{high_water_key, persisted_version}
use fanxiangdiguijiexi.Discovery.Kept.{restarted}
use fanxiangdiguijiexi.Discovery.Refines.{Refined, IsSettled, water_of, provider-refines}
use fanxiangdiguijiexi.Discovery.Printed.{
  IsPlain, nodes, versions_of, parse_chain_versions-chain_config_version,
}
use fanxiangdiguijiexi.Models.Endpoint.{normalized, canonical_ip}
use fanxiangdiguijiexi.Prelude.{lower, decimal}
use fanxiangdiguijiexi.Discovery.Urls.{parse_agent_base_urls, urls_from, split_once, key_of_parts}
use fanxiangdiguijiexi.Discovery.Sample.{chain_a}

abbrev identity : AgentIdentity
identity = record {
  resolver_id = codes "a";
  endpoint = udp_endpoint address_53;
  upstreams = [];
  config_version = codes "1";
  health = codes "ok";
  issued_at = 100;
  expires_at = some 130;
  issuer = codes "resolver-agent";
  key_id = codes "agent-key-01";
  schema_version = agent_schema;
  signature = none;
}

abbrev context : Text → Context
context version = record {
  first_hop = udp_endpoint address_53;
  agent_identity = identity;
  observed_resolvers = udp_endpoint address_53 ∷ [];
  config_version = version;
  agent_identities = identity ∷ [];
  verification_chain = none;
}

abbrev fresh : Provider
fresh = record { context_cache = []; invalidated_endpoints = []; state_repository = some [] }

abbrev provider_or : Outcome PyError Provider → Provider
provider_or (ok p) = p
provider_or (raised e) = fresh

abbrev updated : Text → Text → Provider → Provider
updated key version p = provider_or (update_context key (context version) p)

updated_a :
    update_context (codes "a") (context (codes "a:10>b:7")) fresh
    ≡ ok (updated (codes "a") (codes "a:10>b:7") fresh)
unfolding update_context rolls_back Dict.get Dict.put
updated_a = refl

abbrev after_a : Provider
after_a = updated (codes "a") (codes "a:10>b:7") fresh

updated_c :
    update_context (codes "c") (context (codes "c:1")) after_a
    ≡ ok (updated (codes "c") (codes "c:1") after_a)
unfolding update_context rolls_back Dict.get Dict.put
updated_c = refl

abbrev after_c : Provider
after_c = restarted (updated (codes "c") (codes "c:1") after_a)

between : Since toy_net (codes "a") after_a after_c
between = started_again (updated_other (codes "c") (context (codes "c:1")) unchanged refl updated_c)

-- Numbers are compared as numbers.
nine_after_ten : is_config_rollback (codes "a:10>b:7") (codes "a:9>b:7") ≡ true
unfolding is_config_rollback parse_chain_versions any_older is_older to_int int_digits split
    rsplit_once versions_from Dict.get Dict.put strip
nine_after_ten = refl

-- A resolver that is left out once is not held to its version any more.
left_out :
    (is_config_rollback (codes "a:10>b:7") (codes "a:10") ≡ false)
    × (is_config_rollback (codes "a:10") (codes "a:10>b:6") ≡ false)
    × (is_config_rollback (codes "a:10>b:7") (codes "a:10>b:6") ≡ true)
unfolding is_config_rollback parse_chain_versions any_older is_older to_int int_digits split
    rsplit_once versions_from Dict.get Dict.put strip
left_out = (refl, refl, refl)

update_context-refuses_example :
    update_context (codes "a") (context (codes "a:9>b:7")) after_c ≡ raised runtime_error
update_context-refuses_example =
    update_context-refuses toy_net (codes "a") (context (codes "a:10>b:7"))
      (context (codes "a:9>b:7")) fresh after_a after_c [] refl updated_a between refl
      nine_after_ten

later_a :
    update_context (codes "a") (context (codes "a:11>b:7")) after_c
    ≡ ok (updated (codes "a") (codes "a:11>b:7") after_c)
unfolding update_context rolls_back Dict.get Dict.put is_config_rollback parse_chain_versions
    any_older is_older to_int int_digits split rsplit_once versions_from strip
later_a = refl

version_ten : Dict.get (codes "a") (parse_chain_versions (codes "a:10>b:7")) ≡ some (codes "10")
unfolding parse_chain_versions split rsplit_once versions_from Dict.get Dict.put
version_ten = refl

version_eleven : Dict.get (codes "a") (parse_chain_versions (codes "a:11>b:7")) ≡ some (codes "11")
unfolding parse_chain_versions split rsplit_once versions_from Dict.get Dict.put
version_eleven = refl

update_context-NoneOlder_example : is_older (codes "11") (codes "10") ≡ false
update_context-NoneOlder_example =
    update_context-NoneOlder toy_net (codes "a") (context (codes "a:10>b:7"))
      (context (codes "a:11>b:7")) fresh after_a after_c
      (updated (codes "a") (codes "a:11>b:7") after_c) [] refl updated_a between refl later_a
      (codes "a") (codes "10") (codes "11") version_ten version_eleven

abbrev version_in : Option Context → Option Text
version_in none = none
version_in (some there) = some there.config_version

after_a_written :
    (k : Text) (there : Context)
    → Dict.get k after_a.context_cache ≡ some there
    → persisted_version after_a.state_repository k ≡ some there.config_version
unfolding update_context rolls_back Dict.get Dict.put
after_a_written k there h = elim (Bool-cases (text_eq (codes "a") k)) [
  | inr other ↦ absurd (cc (rw other at h))
  | inl same ↦ rw same (ap version_in (rw same at h))
]

after_a-IsSettled : IsSettled after_a
unfolding update_context rolls_back Dict.get Dict.put
after_a-IsSettled = record {
  repository = (high_water_key (codes "a"), codes "a:10>b:7") ∷ [];
  is_there = refl;
  written = after_a_written;
}

provider-refines_example :
    ((key : Text) (context : Context) → Refined key context after_a)
    × IsSettled (restarted after_a)
    × ((k : Text) → water_of (restarted after_a) k ≡ water_of after_a k)
provider-refines_example = provider-refines after_a after_a-IsSettled

two-IsPlain : All IsPlain (nodes chain_a)
unfolding nodes
two-IsPlain = (
  record { resolver_id = refl; version = refl; no_colon = refl },
  (record { resolver_id = refl; version = refl; no_colon = refl }, tt),
)

parse_chain_versions-chain_config_version_example :
    parse_chain_versions (chain_config_version chain_a) ≡ versions_of (nodes chain_a) []
parse_chain_versions-chain_config_version_example =
    parse_chain_versions-chain_config_version chain_a two-IsPlain

-- What is read is what was written.
two_versions :
    parse_chain_versions (chain_config_version chain_a)
    ≡ (codes "a", codes "1") ∷ (codes "b", codes "1") ∷ []
unfolding parse_chain_versions chain_config_version split rsplit_once versions_from Dict.put
two_versions = refl

-- An address alone, and one with a port and a transport.
two_urls :
    parse_agent_base_urls toy_net (codes "192.0.2.53=http://a, 192.0.2.54:+853:TLS=http://b=c,")
    ≡ ok ((address_53, codes "http://a") ∷ (codes "192.0.2.54:853:tls", codes "http://b=c") ∷ [])
unfolding parse_agent_base_urls urls_from split_once split key_of_parts to_int int_digits normalized
    canonical_ip strip lower decimal Dict.put
two_urls = refl
