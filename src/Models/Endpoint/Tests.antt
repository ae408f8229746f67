-- ===== src/Models/Endpoint/Tests.antt =====
-- Runs of endpoint.py, with a parser that knows dotted addresses as they stand.
use fanxiangdiguijiexi.Prelude.{
  ◌≡◌, refl, true, false, none, some, codes, lower, strip, rstrip, ok, raised, value_error,
}
use fanxiangdiguijiexi.Crypto.Toy.{toy_sha}
use fanxiangdiguijiexi.Models.Endpoint.{
  Endpoint, normalized, canonical_ip, normalize_name, default_port, matches, same_endpoint,
  both_differ, both_given, endpoint_lookup_key,
}
use fanxiangdiguijiexi.Models.Endpoint.Toy.{toy_net, udp_endpoint, address_54}
use fanxiangdiguijiexi.Models.Endpoint.Laws.{Agrees, matches-Agrees, matches_comm, normalized_again}

abbrev plain : Endpoint
plain = udp_endpoint (codes "192.0.2.53")

-- The same address, written with blanks, no port and the transport in capitals.
abbrev written : Endpoint
written = record plain { ip = some (codes " 192.0.2.53 "); port = none; transport = codes "UDP" }

normalized_run : normalized toy_net written ≡ ok plain
unfolding normalized canonical_ip strip lower default_port
normalized_run = refl

name_run : normalize_name (codes " Dns.Example.. ") ≡ codes "dns.example"
unfolding normalize_name strip rstrip lower
name_run = refl

matches_run : matches toy_net written plain ≡ ok true
unfolding matches normalized canonical_ip strip lower default_port same_endpoint both_differ
    both_given
matches_run = refl

no_match_run : matches toy_net plain (udp_endpoint address_54) ≡ ok false
unfolding matches normalized canonical_ip strip lower default_port same_endpoint both_differ
    both_given
no_match_run = refl

-- A name or a URI with none of the three identities raises in `endpoint_lookup_key`.
key_run : endpoint_lookup_key toy_net toy_sha (record plain { ip = none }) ≡ raised value_error
unfolding endpoint_lookup_key normalized canonical_ip strip lower default_port
key_run = refl

matches-Agrees_example :
    (m : Endpoint) × (n : Endpoint) × (normalized toy_net written ≡ ok m)
    × (normalized toy_net plain ≡ ok n)
    × Agrees m n
matches-Agrees_example = matches-Agrees toy_net written plain matches_run

matches_comm_example : matches toy_net written plain ≡ matches toy_net plain written
matches_comm_example = matches_comm toy_net written plain

normalized_again_example : normalized toy_net plain ≡ ok plain
normalized_again_example = normalized_again toy_net written plain refl refl normalized_run
