-- ===== src/Agent/Toy.antt =====
-- A signer and an endpoint to run on.
use fanxiangdiguijiexi.Prelude.{true, Text, codes}
use fanxiangdiguijiexi.Json.{Fields, num, text, end, field}
use fanxiangdiguijiexi.Verifier.Keys.{Signer}

-- A signer under which every signature is good.
abbrev pub trusting : Signer
trusting = record {
  hmac_sha256 = λ secret m. codes "mac";
  ed25519_verify = λ key signature m. true;
}

abbrev pub endpoint_at : Text → Fields
endpoint_at address =
    field (codes "ip") (text address)
      (field (codes "transport") (text (codes "udp")) (field (codes "port") (num 53) end))
