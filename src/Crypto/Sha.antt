-- ===== src/Crypto/Sha.antt =====
-- `hashlib.sha256`, a parameter of the model, and src/resolver_identity/crypto/hashes.py over it.
use fanxiangdiguijiexi.Prelude.{ℕ, ◌≡◌, List, length, Text}
use fanxiangdiguijiexi.Crypto.Hex.{IsBytes, bytes_to_hex}

-- SHA-256 is not code of the repository: all that is used of it is that a digest has 32 bytes.
pub record Sha256 : Type 0 where
  pub digest : List ℕ → List ℕ
  pub digest_length : (m : List ℕ) → length (digest m) ≡ 32
  pub digest_bytes : (m : List ℕ) → IsBytes (digest m)

-- `sha256_hex` of hashes.py, on ASCII text, whose UTF-8 bytes are its code points.
unfoldable pub sha256_hex : Sha256 → Text → Text
sha256_hex s message = bytes_to_hex (s.digest message)
