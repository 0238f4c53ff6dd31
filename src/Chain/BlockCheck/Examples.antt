-- ===== src/Chain/BlockCheck/Examples.antt =====
-- A block that is accepted although its hash shows no work, for core/block_check.go.
use yoin.Base.{
  ◌≡◌, ◌↔◌, refl, true, false, List, [], ◌∷◌, Option, none, some, length, replicate, ◌==◌,
  if◌then◌else◌,
}
use yoin.Bytes.{Bytes, le_bytes, le_value, from?, prefix?, slice?, bytes_equal}
use yoin.Crypto.{Crypto, sha2_sum}
use yoin.VarLen.{var_len_field, store_var_len, overwrite, load_var_len, field_width}
use yoin.Tx.{Tx, is_coin_base, is_null, allzeros}
use yoin.Tx.Codec.{
  serialize, serialize_tx_in, serialize_tx_out, write_all, read_all, deserialize_tx,
  deserialize_tx_in, deserialize_tx_out,
}
use yoin.Tx.Check.{check_transaction, check_coinbase_script}
use yoin.Chain.Target.{
  BlockTreeNode, get_next_work_required, check_proof_of_work, PowError, set_compact, compact_value,
  compact_size,
}
use yoin.Chain.Block.{Block, decode_tx_list_from_raw, decode_hashed}
use yoin.Chain.Block.RoundTrip.{Header, header_bytes, tx_list_bytes, sealed}
use yoin.Chain.Merkle.{get_merkel, merkle_row, merkle_rows, last_of}
use yoin.Chain.BlockCheck.{
  passed, check_block, check_work, check_decoded, check_txs, check_all, hashes_of,
  first_is_coin_base, any_coin_base, tail_of,
}
use yoin.Chain.BlockCheck.Accepts.{Accepts, check_block_iff}

abbrev flat_crypto : Crypto
flat_crypto = record {
  sha256 = λ b. length b ∷ replicate 31 1;
  ripemd160 = λ b. length b ∷ replicate 19 2;
  ecdsa_verify = λ x y h r s. true;
}

abbrev digest : Bytes
digest = 32 ∷ replicate 31 1

abbrev root_node : BlockTreeNode
root_node = record { height = 0; bits = 0x1d00ffff; timestamp = 1231006505 }

-- The tree with the root alone, under the hash of bytes 3.
abbrev root_only : Bytes → Option (BlockTreeNode × List BlockTreeNode)
root_only [] = none
root_only (x ∷ xs) = if x == 3 then some (root_node, []) else none

abbrev next_header : Header
next_header = record {
  version = 1;
  pre_block_hash = replicate 32 3;
  merkle_root = digest;
  create_time = 1231469665;
  difficulty_target = 0x1d00ffff;
  nonce = 1;
}

abbrev mined : Tx
mined = record {
  version = 1;
  tx_ins =
      record {
        input = record { pre_out_tx_hash = replicate 32 0; out_idx_in_tx = 0xffffffff };
        script_sig = 4 ∷ 5 ∷ [];
        sequence = 6;
      }
      ∷ [];
  tx_outs = record { value = 5000000000; block_height = 0; script_pub_key = 0x51 ∷ [] } ∷ [];
  lock_time = 0;
  size = 0;
  hash = none;
}

abbrev unworked : Block
unworked = record {
  version = 1;
  pre_block_hash = replicate 32 3;
  merkle_root = digest;
  create_time = 1231469665;
  difficulty_target = 0x1d00ffff;
  nonce = 1;
  txs = [];
  raw = header_bytes next_header (tx_list_bytes (mined ∷ []));
  hash = digest;
  trusted = false;
}

abbrev unworked_decoded : Block
unworked_decoded = record unworked { txs = sealed flat_crypto mined ∷ [] }

-- The hash is above the target of the block.
no_work : check_proof_of_work digest 0x1d00ffff ≡ some PowError.hash_mismatch
unfolding check_proof_of_work set_compact compact_value compact_size le_value
no_work = refl

let_through :
    check_block flat_crypto false false 1300000000 root_only unworked ≡ passed unworked_decoded
unfolding check_block check_work check_decoded check_txs check_all hashes_of first_is_coin_base
    any_coin_base tail_of get_merkel merkle_rows merkle_row last_of decode_tx_list_from_raw
    decode_hashed read_all deserialize_tx deserialize_tx_in deserialize_tx_out serialize
    serialize_tx_in serialize_tx_out write_all var_len_field store_var_len overwrite load_var_len
    field_width le_bytes le_value from? prefix? slice? bytes_equal sha2_sum is_coin_base is_null
    allzeros check_transaction check_coinbase_script get_next_work_required
let_through = refl

check_block_iff_example :
    (check_block flat_crypto false false 1300000000 root_only unworked ≡ passed unworked_decoded)
    ↔ Accepts flat_crypto false 1300000000 root_only unworked unworked_decoded
check_block_iff_example =
    check_block_iff flat_crypto false 1300000000 root_only unworked unworked_decoded
