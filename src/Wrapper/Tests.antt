-- ===== src/Wrapper/Tests.antt =====
-- Runs of the wrapper.
use fanxiangdiguijiexi.Cache.Toy.{empty_cache}
use fanxiangdiguijiexi.Prelude.{
  ◌++◌, ℕ, ◌⊎◌, Outcome, PyError, ◌+◌, ◌%◌, ◌≤◌, ◌<◌, ◌≡◌, refl, Bool, true, false, none, some,
  List, [], ◌∷◌, arith, if◌then◌else◌, text_eq, length, take, drop, get_or, Text, codes, ok, raised,
  runtime_error,
}
use fanxiangdiguijiexi.Json.{text}
use fanxiangdiguijiexi.Crypto.Toy.{toy_sha}
use fanxiangdiguijiexi.Models.Endpoint.{Endpoint}
use fanxiangdiguijiexi.Models.Endpoint.Toy.{toy_net, udp_endpoint, address_53, address_54}
use fanxiangdiguijiexi.Models.Verification
use fanxiangdiguijiexi.Models.Verification.{VerificationResult, signature_invalid}
use fanxiangdiguijiexi.Prelude.Dict
use fanxiangdiguijiexi.Cache.Manager.{Cache}
use fanxiangdiguijiexi.Cache.Run.{Run}
use fanxiangdiguijiexi.Wrapper.Message.{
  make_servfail, parse_question, labels_loop, dotted, qtype_name, after_dots, encode_labels,
  parse_question-encode_labels, make_servfail-shape,
}
use fanxiangdiguijiexi.Wrapper.Journal.{Journal, create, add, create-bounded}
use fanxiangdiguijiexi.Wrapper.Coordinator.{
  World, UpstreamResolver, DnsProcessResult, coordinate, try_all, try_upstream, gate, all_current,
  all_accepted, verify_all, invalidate_all,
}
use fanxiangdiguijiexi.Wrapper.Processor.{ResolverPath, release_or_servfail}
use fanxiangdiguijiexi.Wrapper.Processed.{AllVerified, release_or_servfail-AllVerified}

-- A query for "a.b", of type A.
abbrev query : List ℕ
query = 18 ∷ 52 ∷ 1 ∷ 0 ∷ 0 ∷ 1 ∷ 0 ∷ 0 ∷ 0 ∷ 0 ∷ 0 ∷ 0 ∷ 1 ∷ 97 ∷ 1 ∷ 98 ∷ 0 ∷ 0 ∷ 1 ∷ 0 ∷ 1 ∷ []

question : parse_question query ≡ (codes "a.b", codes "A")
unfolding parse_question labels_loop dotted qtype_name
question = refl

refusal : make_servfail query ≡ 18 ∷ 52 ∷ 129 ∷ 130 ∷ 0 ∷ 1 ∷ 0 ∷ 0 ∷ 0 ∷ 0 ∷ 0 ∷ 0 ∷ drop 12 query
unfolding make_servfail
refusal = refl

parse_question-encode_labels_example :
    parse_question (
      take 12 query
      ++ (encode_labels (codes "example" ∷ codes "org" ∷ []) ++ 0 ∷ 28 ∷ 0 ∷ 1 ∷ 7 ∷ []))
    ≡ (drop 1 (after_dots (codes "example" ∷ codes "org" ∷ [])), qtype_name 28)
parse_question-encode_labels_example =
    parse_question-encode_labels (take 12 query) (codes "example" ∷ codes "org" ∷ []) 0 28 0 1
      (7 ∷ []) refl (ground arith)

make_servfail-shape_example :
    (length query < 12 → make_servfail query ≡ [])
    × (12 ≤ length query
        → (length (make_servfail query) ≡ length query)
          × (take 2 (make_servfail query) ≡ take 2 query)
          × (drop 2 (take 4 (make_servfail query)) ≡ (128 + get_or query 2 0 % 2) ∷ 130 ∷ [])
          × (drop 12 (make_servfail query) ≡ drop 12 query))
make_servfail-shape_example = make_servfail-shape query

abbrev journal : Journal
journal = record {
  max_entries = 1;
  entries = (codes "r1", record { query_size = some 4; events = [] }) ∷ [];
}

create-bounded_example :
    (length (create (codes "r2") 21 journal).entries ≤ 1)
    × (length (add (codes "r2") (text (codes "x")) journal).entries ≤ length journal.entries + 1)
create-bounded_example = create-bounded (codes "r2") 21 (text (codes "x")) journal

abbrev upstream : Text → UpstreamResolver
upstream ip = record { ip = ip; port = 53; transport = codes "udp" }

abbrev verified : Bool → VerificationResult
verified b = record {
  accepted = b;
  status = Verification.verified;
  resolver_id = some (codes "a");
  reasons = signature_invalid ∷ [];
  evidence = [];
}

-- The first upstream does not answer, the second does.
abbrev world : World
world = record {
  strict_observation = true;
  distributed_verification = false;
  endpoint = λ u. ok (udp_endpoint u.ip);
  observe = λ u. ok (udp_endpoint u.ip ∷ [], none);
  invalidated = λ u. [];
  forward = λ u. if text_eq u.ip address_53 then raised runtime_error else ok (1 ∷ 2 ∷ 3 ∷ []);
  verify_endpoint = λ e c. (ok (verified true), c);
  context_resolver_id = λ u. none;
  meanwhile = λ c. c;
}

abbrev upstreams : List UpstreamResolver
upstreams = upstream address_53 ∷ upstream address_54 ∷ []

abbrev released : DnsProcessResult
released = record {
  response = 1 ∷ 2 ∷ 3 ∷ [];
  accepted = true;
  upstream = some (upstream address_54);
}

-- Without strict observation a path on which nothing was observed is released unverified.
abbrev blind : World
blind = record world {
  strict_observation = false;
  observe = λ u. ok ([], none);
  forward = λ u. ok (9 ∷ []);
}

blind_run :
    (coordinate toy_net toy_sha blind query upstreams empty_cache).0
    ≡ ok (record { response = 9 ∷ []; accepted = true; upstream = some (upstream address_53) })
unfolding coordinate try_all try_upstream gate all_current all_accepted verify_all invalidate_all
blind_run = refl

abbrev answer : List ℕ
answer = 9 ∷ []

abbrev accepting : Endpoint → Cache → Run VerificationResult
accepting e c = (ok (verified true), c)

-- The gate lets no response out once an endpoint is refused.
gate_refuses :
    (release_or_servfail toy_net
      (λ e c. (ok (verified false), c))
      query
      (9 ∷ [])
      (udp_endpoint address_53 ∷ [])
      empty_cache).0
    ≡ ok (make_servfail query)
unfolding release_or_servfail
gate_refuses = refl

gate_releases :
    (release_or_servfail toy_net accepting query
      (9 ∷ [])
      (udp_endpoint address_53 ∷ [])
      empty_cache).0
    ≡ ok (9 ∷ [])
unfolding release_or_servfail
gate_releases = refl

release_or_servfail-AllVerified_example :
    (answer ≡ make_servfail query)
    ⊎ ((answer ≡ answer) × AllVerified accepting (udp_endpoint address_53 ∷ []) empty_cache)
release_or_servfail-AllVerified_example =
    release_or_servfail-AllVerified toy_net accepting query answer (udp_endpoint address_53 ∷ [])
      empty_cache answer gate_releases

-- The first upstream does not answer, and the second does.
abbrev forwarder : UpstreamResolver → Outcome PyError (List ℕ)
forwarder u = if text_eq u.ip address_53 then ok (9 ∷ []) else raised runtime_error

abbrev paths : List ResolverPath
paths =
    record { upstream = upstream address_54; observed_resolvers = [] }
    ∷ record { upstream = upstream address_53; observed_resolvers = udp_endpoint address_54 ∷ [] }
    ∷ []

abbrev processed : DnsProcessResult
processed = record { response = 9 ∷ []; accepted = true; upstream = some (upstream address_53) }
