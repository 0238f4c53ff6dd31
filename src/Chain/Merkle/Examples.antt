-- ===== src/Chain/Merkle/Examples.antt =====
-- Rows of three hashes, for core/util.go.
use yoin.Base.{◌≡◌, refl, true, [], ◌∷◌, some, length, replicate, arith}
use yoin.Bytes.{Bytes}
use yoin.Crypto.{Crypto}
use yoin.Chain.Merkle.{get_merkel}
use yoin.Chain.Merkle.Root.{IsRoot, get_merkel_lem, get_merkel-duplicate}

abbrev flat_crypto : Crypto
flat_crypto = record {
  sha256 = λ b. length b ∷ replicate 31 1;
  ripemd160 = λ b. length b ∷ replicate 19 2;
  ecdsa_verify = λ x y h r s. true;
}

get_merkel_lem_example :
    (r : Bytes) × (get_merkel flat_crypto ((1 ∷ []) ∷ (2 ∷ []) ∷ (3 ∷ []) ∷ []) ≡ some r)
    × IsRoot flat_crypto ((1 ∷ []) ∷ (2 ∷ []) ∷ (3 ∷ []) ∷ []) r
get_merkel_lem_example = get_merkel_lem flat_crypto (1 ∷ []) ((2 ∷ []) ∷ (3 ∷ []) ∷ [])

get_merkel-duplicate_example :
    get_merkel flat_crypto ((1 ∷ []) ∷ (2 ∷ []) ∷ (3 ∷ []) ∷ [])
    ≡ get_merkel flat_crypto ((1 ∷ []) ∷ (2 ∷ []) ∷ (3 ∷ []) ∷ (3 ∷ []) ∷ [])
get_merkel-duplicate_example =
    get_merkel-duplicate flat_crypto ((1 ∷ []) ∷ (2 ∷ []) ∷ []) (3 ∷ []) refl (omega arith)
