-- ===== src/Base58/Examples.antt =====
-- A byte string with zeros in front, for core/base58.go.
use yoin.Base.{◌≡◌, [], ◌∷◌, some, arith}
use yoin.Bytes.{Bytes}
use yoin.Base58.{encodeb58, decodeb58}
use yoin.Base58.RoundTrip.{strip}
use yoin.Base58.Fits.{decodeb58-encodeb58}

abbrev padded : Bytes
padded = 0 ∷ 0 ∷ 1 ∷ 200 ∷ []

decodeb58-encodeb58_example :
    (s : Bytes) × (encodeb58 padded ≡ some s) × (decodeb58 s ≡ some (strip padded))
decodeb58-encodeb58_example =
    decodeb58-encodeb58 padded (omega arith, (omega arith, (omega arith, (omega arith, tt))))
