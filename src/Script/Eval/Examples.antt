-- ===== src/Script/Eval/Examples.antt =====
-- Scripts of a concrete transaction, for core/script.go, core/stack.go and core/key.go.
use yoin.Base.{
  ◌≡◌, ◌≢◌, refl, true, false, [], ◌∷◌, ◌++◌, some, none, length, replicate, arith, if◌then◌else◌,
}
use yoin.Bytes.{Bytes, be_value, bytes_equal, from?, prefix?, le_value}
use yoin.Crypto.{Crypto, rimp160_after_sha256, sha2_sum}
use yoin.Key.{point, Signature, new_public_key, new_signature, parsed}
use yoin.Key.Parse.{signature_bytes, new_signature-signature_bytes}
use yoin.Tx.{Tx}
use yoin.Tx.Sighash.{signature_hash}
use yoin.Script.Stack.{int_of}
use yoin.Script.Eval.{returned, out_of_fuel, eval_script, verify_tx_script, initial}
use yoin.Script.Eval.Total.{verify_tx_script_total}
use yoin.Script.Eval.Conditionals.{loop_always, eval_script-always}
use yoin.Script.Eval.Steps.{push_script}
use yoin.Script.Eval.Payments.{p2pkh, p2sh, p2pk, verify_tx_script-p2pkh, verify_tx_script-p2sh}

-- Digests of the right sizes that tell little about their input, and a check that no signature
-- passes.
abbrev strict_crypto : Crypto
strict_crypto = record {
  sha256 = λ b. length b ∷ replicate 31 1;
  ripemd160 = λ b. length b ∷ replicate 19 2;
  ecdsa_verify = λ x y h r s. false;
}

abbrev spending : Tx
spending = record {
  version = 1;
  tx_ins =
      record {
        input = record { pre_out_tx_hash = replicate 32 1; out_idx_in_tx = 2 };
        script_sig = [];
        sequence = 6;
      }
      ∷ [];
  tx_outs = record { value = 1000; block_height = 9; script_pub_key = 0x51 ∷ [] } ∷ [];
  lock_time = 0;
  size = 60;
  hash = none;
}

abbrev long_key : Bytes
long_key = 4 ∷ replicate 64 1

verify_tx_script-p2pkh_example :
    verify_tx_script strict_crypto spending 0
      (push_script (1 ∷ 2 ∷ []) ++ push_script long_key)
      (p2pkh (32 ∷ replicate 19 2))
    ≡ returned
        (bytes_equal (32 ∷ replicate 19 2) (rimp160_after_sha256 strict_crypto long_key))
        (long_key ∷ (1 ∷ 2 ∷ []) ∷ [])
verify_tx_script-p2pkh_example =
    verify_tx_script-p2pkh strict_crypto spending 0 (1 ∷ 2 ∷ []) long_key (32 ∷ replicate 19 2)
      (omega arith) (omega arith) (omega arith)

-- With the hash of the key the spend is accepted, although no signature passes the check.
unsigned_spend :
    bytes_equal (32 ∷ replicate 19 2) (rimp160_after_sha256 strict_crypto long_key) ≡ true
unfolding bytes_equal rimp160_after_sha256
unsigned_spend = refl

verify_tx_script-p2sh_example :
    verify_tx_script strict_crypto spending 0 (push_script (0x51 ∷ [])) (p2sh (replicate 20 7))
    ≡ returned true (
        (if bytes_equal (replicate 20 7) (rimp160_after_sha256 strict_crypto (0x51 ∷ []))
          then 1 ∷ []
          else 0 ∷ [])
        ∷ [])
verify_tx_script-p2sh_example =
    verify_tx_script-p2sh strict_crypto spending 0 (0x51 ∷ []) (replicate 20 7) (omega arith)
      (omega arith)

verify_tx_script_total_example :
    verify_tx_script strict_crypto spending 0 (0x51 ∷ []) (0x63 ∷ 0x68 ∷ []) ≢ out_of_fuel
verify_tx_script_total_example =
    verify_tx_script_total strict_crypto spending 0 (0x51 ∷ []) (0x63 ∷ 0x68 ∷ [])

eval_script-always_example :
    eval_script strict_crypto spending 0 (0x51 ∷ 0x63 ∷ 0x67 ∷ 0x68 ∷ []) []
    ≡ loop_always strict_crypto spending 0 (0x51 ∷ 0x63 ∷ 0x67 ∷ 0x68 ∷ []) 5 0 (initial [])
eval_script-always_example =
    eval_script-always strict_crypto spending 0 (0x51 ∷ 0x63 ∷ 0x67 ∷ 0x68 ∷ []) []

two_deep : int_of (2 ∷ []) ≡ 2
unfolding int_of le_value
two_deep = refl

abbrev short_sig : Bytes
short_sig = 0x30 ∷ 7 ∷ 2 ∷ 2 ∷ 1 ∷ 2 ∷ 2 ∷ 1 ∷ 3 ∷ 1 ∷ []

abbrev short_sig_parts : Signature
short_sig_parts = record { r = be_value (1 ∷ 2 ∷ []); s = be_value (3 ∷ []); hash_type = 1 }

short_sig_parses : new_signature short_sig ≡ parsed short_sig_parts
unfolding signature_bytes
short_sig_parses = new_signature-signature_bytes (1 ∷ 2 ∷ []) (3 ∷ []) (omega arith) (omega arith)

long_key_parses :
    new_public_key long_key ≡ point (be_value (replicate 32 1)) (be_value (replicate 32 1))
unfolding new_public_key prefix? from?
long_key_parses = refl

message_hash :
    signature_hash strict_crypto spending (p2pk long_key) 0 1 ≡ some (32 ∷ replicate 31 1)
unfolding signature_hash sha2_sum
message_hash = refl
