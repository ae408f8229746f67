-- ===== src/Crypto/Toy.antt =====
-- A digest for tests: 32 copies of one byte of the message's sum. It shows that the assumptions on
-- SHA-256 can be met, and that it collides is no harm in a test.
use fanxiangdiguijiexi.Prelude.{
  ℕ, zero, suc, ◌+◌, ◌*◌, ◌%◌, ◌<◌, ◌≡◌, refl, ap, List, [], ◌∷◌, arith, length, All,
}
use fanxiangdiguijiexi.Crypto.Sha.{Sha256}

abbrev pub copies : ℕ → ℕ → List ℕ
copies zero b = []
copies (suc n) b = b ∷ copies n b

pub length-copies : (n b : ℕ) → length (copies n b) ≡ n
length-copies zero b = refl
length-copies (suc n) b = ap suc (length-copies n b)

pub All-copies : (n b : ℕ) → b < 256 → All (λ c. c < 256) (copies n b)
All-copies zero b h = tt
All-copies (suc n) b h = (h, All-copies n b h)

abbrev pub sum : List ℕ → ℕ
sum [] = 0
sum (b ∷ m) = b + 3 * sum m

abbrev pub toy_sha : Sha256
toy_sha = record {
  digest = λ m. copies 32 (sum m % 256);
  digest_length = λ m. length-copies 32 (sum m % 256);
  digest_bytes = λ m. All-copies 32 (sum m % 256) (omega arith);
}
