-- ===== src/Lib.antt =====
-- The resolver identity service (src/resolver_identity): which DNS resolvers it trusts, and
-- whose answers it lets out.
--
-- An administrator signs an object for a resolver and anchors its hash, its Merkle root and its
-- endpoints in a registry on a chain; an indexer serves the objects and their proofs. A
-- verifier reads both, and caches what it approved for a short time. A watcher of the chain's
-- events withdraws from the cache what was revoked, rotated or unbound. Agents beside the
-- resolvers sign chains of hops, and the wrapper forwards a query and releases its answer only
-- when all the resolvers that were seen on the way are verified and still current.
--
-- The files, with the source below src/resolver_identity that each models:
-- - Prelude: Python's values and errors. An Outcome is a value or a raised exception, of which
--   only the class is kept; Dict is a dict with text keys; Text is a list of code points.
-- - Crypto, Json: crypto/merkle.py, crypto/hashes.py, crypto/canonical_json.py. SHA-256 is an
--   abstract function; Toy is a concrete one for the runs.
-- - Models: models/endpoint.py, models/verification.py, and endpoint_lookup_key of
--   admin/publisher.py. The record Net holds what the code relies on of ipaddress and
--   urllib.parse.
-- - Chain: chain/backend.py, the statuses, the anchor and the reads of a registry.
-- - Cache: verifier/cache_manager.py, verifier/cache_keys.py and TrustedCacheRepository of
--   db/repositories.py. The table is a list of rows with a generation, the memory a Dict.
-- - Verifier: verifier/resolver_verifier.py, verifier/proof_verifier.py, verifier/policy.py,
--   models/authenticity_object.py, crypto/keys.py, crypto/signatures.py, common/time.py.
-- - Watcher: chain/event_watcher.py. The node is a record of fallible calls.
-- - Wrapper: wrapper/dns_message.py, wrapper/dns_parse.py, wrapper/request_journal.py,
--   wrapper/query_coordinator.py, wrapper/query_processor.py and wrapper/verification_gate.py.
-- - Discovery: wrapper/resolver_chain.py and verifier/observed_resolvers.py. The state of the
--   provider is passed on; the requests to the Agents, the verifier and the other settings are
--   the record Outside.
-- - Admin: admin/publisher.py, on RegistryRepository of db/repositories.py, which
--   chain/sqlite_backend.py hands its calls to. The calls of the indexer at the end of
--   `publish` are left out.
-- - Agent: agent/verification_chain.py, agent/distributed_verifier.py and agent/identity.py. A
--   chain that holds a list of chains is a mutual pair of types; what the Agent calls is the
--   record Surroundings.
--
-- Time is a number that each call is given, of microseconds in the cache and the verifier and
-- of seconds elsewhere. The primitives of signatures are the record Signer. What other threads
-- and processes do meanwhile is an argument: `others` of get_valid changes the repository
-- before it reads the row, before its second read of the generation, and before its own update
-- of the table; `meanwhile` of the verifier changes the cache before the commit, and a
-- verification is given a registry for each of its six reads, since the registry may change
-- between any two. Locks, sleeping and logging are left out.
--
-- Fuel: parse_question reads labels with the length of the message as its fuel, and each round
-- takes a byte or more. Each round over the levels of a Merkle tree about halves the level, so
-- the number of leaves is fuel enough. The discovery of a chain goes one level down for each
-- unit of fuel, and has one more than `max_depth`. All else is structural.
--
-- Not modelled: the indexer's tables, the HTTP applications and their routes, the web3 client,
-- the settings and the tables' schema, the installers, tools and scripts, the Rust programs and
-- the Solidity contract.
pub mod Prelude
pub mod Crypto
pub mod Json
pub mod Models
pub mod Chain
pub mod Cache
pub mod Admin
pub mod Agent
pub mod Discovery
pub mod Verifier
pub mod Watcher
pub mod Wrapper
