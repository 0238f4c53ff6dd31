-- ===== src/Addr/Examples.antt =====
-- An address and the scripts that pay to them, for core/addr.go.
use yoin.Base.{ℕ, zero, suc, ◌<◌, All, arith, ◌≡◌, refl, ◌∷◌, some, true, length, replicate}
use yoin.Bytes.{Bytes, IsByte}
use yoin.Crypto.{Crypto, DigestSizes}
use yoin.Addr.Text.{parsed, addr_string, new_addr_from_string}
use yoin.Addr.Text.RoundTrip.{new_addr_from_string-addr_string}
use yoin.Addr.{BtcAddr}
use yoin.Addr.Scripts.{bare_addr}

-- Digests of the right sizes that tell little about their input.
abbrev flat_crypto : Crypto
flat_crypto = record {
  sha256 = λ b. length b ∷ replicate 31 1;
  ripemd160 = λ b. length b ∷ replicate 19 2;
  ecdsa_verify = λ x y h r s. true;
}

abbrev ours : BtcAddr
ours = bare_addr 0 (replicate 20 5)

-- Every digest is the same.
abbrev constant_crypto : Crypto
constant_crypto = record {
  sha256 = λ b. replicate 32 1;
  ripemd160 = λ b. replicate 20 2;
  ecdsa_verify = λ x y h r s. true;
}

constant_crypto-DigestSizes : DigestSizes constant_crypto
constant_crypto-DigestSizes = record { sha256_size = λ b. refl; ripemd160_size = λ b. refl }

replicate-IsByte : (n x : ℕ) → x < 256 → All IsByte (replicate n x)
replicate-IsByte zero x h = tt
replicate-IsByte (suc n) x h = (h, replicate-IsByte n x h)

new_addr_from_string-addr_string_example :
    (s : Bytes) × (addr_string constant_crypto ours ≡ some s)
    × (new_addr_from_string constant_crypto s ≡ parsed ours)
new_addr_from_string-addr_string_example =
    new_addr_from_string-addr_string constant_crypto ours constant_crypto-DigestSizes
      (λ b. replicate-IsByte 32 1 (omega arith)) (omega arith) (replicate-IsByte 20 5 (omega arith))
      refl
