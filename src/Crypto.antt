-- ===== src/Crypto.antt =====
-- The hash functions and the signature check that the program takes from outside
-- (crypto/sha256, golang.org/x/crypto/ripemd160, crypto/ecdsa), as parameters, and core/hash.go.
use yoin.Base.{ℕ, Bool, ◌≡◌, length}
use yoin.Bytes.{Bytes}

-- `ecdsa_verify x y h r s` is `ecdsa.Verify` on secp256k1 with the public key (x, y).
pub record Crypto : Type 0 where
  pub sha256 : Bytes → Bytes
  pub ripemd160 : Bytes → Bytes
  pub ecdsa_verify : ℕ → ℕ → Bytes → ℕ → ℕ → Bool

-- The documented sizes of the digests.
pub record DigestSizes (c : Crypto) : Type 0 where
  pub sha256_size : (b : Bytes) → length (c.sha256 b) ≡ 32
  pub ripemd160_size : (b : Bytes) → length (c.ripemd160 b) ≡ 20

unfoldable pub sha2_sum : Crypto → Bytes → Bytes
sha2_sum c b = c.sha256 (c.sha256 b)

unfoldable pub rimp160_after_sha256 : Crypto → Bytes → Bytes
rimp160_after_sha256 c b = c.ripemd160 (c.sha256 b)
