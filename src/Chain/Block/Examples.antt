-- ===== src/Chain/Block/Examples.antt =====
-- A block of one transaction, for core/block.go.
use yoin.Base.{◌≡◌, refl, true, [], ◌∷◌, ◌++◌, some, none, ◌>>=◌, length, replicate, arith}
use yoin.Crypto.{Crypto}
use yoin.Tx.{Tx}
use yoin.Tx.Codec.RoundTrip.{TxFits}
use yoin.Chain.Block.{deserialize_block, decode_tx_list_from_raw}
use yoin.Chain.Block.RoundTrip.{
  Header, HeaderFits, header_bytes, tx_list_bytes, block_of,
  decode_tx_list_from_raw-deserialize_block,
}

abbrev flat_crypto : Crypto
flat_crypto = record {
  sha256 = λ b. length b ∷ replicate 31 1;
  ripemd160 = λ b. length b ∷ replicate 19 2;
  ecdsa_verify = λ x y h r s. true;
}

abbrev sample_header : Header
sample_header = record {
  version = 1;
  pre_block_hash = replicate 32 3;
  merkle_root = replicate 32 4;
  create_time = 1231006505;
  difficulty_target = 0x1d00ffff;
  nonce = 2083236893;
}

sample_header-HeaderFits : HeaderFits sample_header
sample_header-HeaderFits = record {
  version_fits = omega arith;
  previous_length = refl;
  root_length = refl;
  time_fits = omega arith;
  target_fits = omega arith;
  nonce_fits = omega arith;
}

abbrev mined : Tx
mined = record {
  version = 1;
  tx_ins =
      record {
        input = record { pre_out_tx_hash = replicate 32 0; out_idx_in_tx = 0xffffffff };
        script_sig = 4 ∷ 5 ∷ [];
        sequence = 6;
      }
      ∷ [];
  tx_outs = record { value = 5000000000; block_height = 0; script_pub_key = 0x51 ∷ [] } ∷ [];
  lock_time = 0;
  size = 0;
  hash = none;
}

mined-TxFits : TxFits mined
mined-TxFits = record {
  version_fits = omega arith;
  ins_fit = (
    record {
      hash_length = refl;
      index_fits = omega arith;
      script_fits = omega arith;
      sequence_fits = omega arith;
    },
    tt,
  );
  ins_count = omega arith;
  outs_fit = (record { value_fits = omega arith; script_fits = omega arith }, tt);
  outs_count = omega arith;
  lock_time_fits = omega arith;
}

decode_tx_list_from_raw-deserialize_block_example :
    (deserialize_block flat_crypto
        (header_bytes sample_header (tx_list_bytes (mined ∷ []) ++ 9 ∷ []))
      >>= decode_tx_list_from_raw flat_crypto)
    ≡ some (block_of flat_crypto sample_header (mined ∷ []) (9 ∷ []))
decode_tx_list_from_raw-deserialize_block_example =
    decode_tx_list_from_raw-deserialize_block flat_crypto sample_header (mined ∷ []) (9 ∷ [])
      sample_header-HeaderFits (mined-TxFits, tt) (omega arith)
