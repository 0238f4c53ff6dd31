-- ===== src/Tx/Examples.antt =====
-- A transaction with one input and one output, for core/tx.go.
use yoin.Base.{◌≡◌, ◌↔◌, refl, true, [], ◌∷◌, ◌++◌, some, none, length, replicate, arith}
use yoin.Bytes.{le_bytes}
use yoin.Tx.{TxIn, TxOut, Tx}
use yoin.Tx.Codec.{serialize, deserialize_tx}
use yoin.Tx.Codec.RoundTrip.{TxFits, wire, deserialize-serialize}
use yoin.Tx.Check.{accepted, check_transaction}
use yoin.Tx.Check.Sound.{IsSound, check_transaction_iff}
use yoin.Tx.Sighash.{message, signature_message, anyone_can_pay}
use yoin.Tx.Sighash.Protocol.{set_scripts, signature_message-serialize}

abbrev in_one : TxIn
in_one = record {
  input = record { pre_out_tx_hash = replicate 32 1; out_idx_in_tx = 2 };
  script_sig = 4 ∷ 5 ∷ [];
  sequence = 6;
}

abbrev out_one : TxOut
out_one = record { value = 1000; block_height = 9; script_pub_key = 0x51 ∷ [] }

abbrev simple : Tx
simple = record {
  version = 1;
  tx_ins = in_one ∷ [];
  tx_outs = out_one ∷ [];
  lock_time = 0;
  size = 62;
  hash = none;
}

simple-TxFits : TxFits simple
simple-TxFits = record {
  version_fits = omega arith;
  ins_fit = (
    record {
      hash_length = refl;
      index_fits = omega arith;
      script_fits = omega arith;
      sequence_fits = omega arith;
    },
    tt,
  );
  ins_count = omega arith;
  outs_fit = (record { value_fits = omega arith; script_fits = omega arith }, tt);
  outs_count = omega arith;
  lock_time_fits = omega arith;
}

deserialize-serialize_example :
    deserialize_tx (serialize simple ++ 8 ∷ []) ≡ some (wire simple, length (serialize simple))
deserialize-serialize_example = deserialize-serialize simple (8 ∷ []) simple-TxFits

check_transaction_iff_example : (check_transaction true simple ≡ accepted) ↔ IsSound simple
check_transaction_iff_example = check_transaction_iff simple

signature_message-serialize_example :
    signature_message simple (0x51 ∷ []) 0 1
    ≡ message (
        serialize (record simple { tx_ins = set_scripts (0x51 ∷ []) 0 0 simple.tx_ins })
        ++ le_bytes 4 1)
signature_message-serialize_example = signature_message-serialize simple (0x51 ∷ []) 0

anyone : anyone_can_pay 0x81 ≡ true
anyone = refl
