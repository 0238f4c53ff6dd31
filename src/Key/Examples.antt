-- ===== src/Key/Examples.antt =====
-- A signature that the wallet writes, for core/key.go.
use yoin.Base.{◌≡◌, [], ◌∷◌, arith}
use yoin.Bytes.{be_value}
use yoin.Key.{parsed, new_signature}
use yoin.Key.Parse.{signature_bytes, new_signature-signature_bytes}

new_signature-signature_bytes_example :
    new_signature (signature_bytes (1 ∷ 2 ∷ []) (3 ∷ []))
    ≡ parsed (record { r = be_value (1 ∷ 2 ∷ []); s = be_value (3 ∷ []); hash_type = 1 })
new_signature-signature_bytes_example =
    new_signature-signature_bytes (1 ∷ 2 ∷ []) (3 ∷ []) (omega arith) (omega arith)
