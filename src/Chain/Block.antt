-- ===== src/Chain/Block.antt =====
-- core/block.go: the header of a block and its transactions.
pub mod RoundTrip
mod Examples
use yoin.Base.{
  ℕ, zero, suc, ◌+◌, ◌-◌, ◌*◌, ◌/◌, ◌%◌, ◌^◌, Bool, true, false, List, [], ◌∷◌, ◌++◌, Option, none,
  some, ◌>>=◌, ltb, if◌then◌else◌, length, get_elem?,
}
use yoin.Bytes.{Bytes, le_value, from?, prefix?, slice?}
use yoin.Crypto.{Crypto, sha2_sum}
use yoin.VarLen.{load_var_len}
use yoin.Tx.{Tx}
use yoin.Tx.Codec.{deserialize_tx, read_all}

pub record Block : Type 0 where
  pub version : ℕ
  pub pre_block_hash : Bytes
  pub merkle_root : Bytes
  pub create_time : ℕ
  pub difficulty_target : ℕ
  pub nonce : ℕ
  pub txs : List Tx
  pub raw : Bytes
  pub hash : Bytes
  pub trusted : Bool

-- `none` is the error for fewer than 81 bytes; no slice is out of range from there on.
unfoldable pub deserialize_block : Crypto → Bytes → Option Block
unfolding sha2_sum le_value slice? prefix?
deserialize_block c raw = if ltb (length raw) 81 then none else do
  header ← prefix? 80 raw
  version ← slice? raw 0 4
  previous ← slice? raw 4 36
  root ← slice? raw 36 68
  time ← slice? raw 68 72
  target ← slice? raw 72 76
  nonce ← slice? raw 76 80
  some (record {
    version = le_value version;
    pre_block_hash = previous;
    merkle_root = root;
    create_time = le_value time;
    difficulty_target = le_value target;
    nonce = le_value nonce;
    txs = [];
    raw = raw;
    hash = sha2_sum c header;
    trusted = false;
  })

-- One round of the loop: a transaction with its size and its hash.
unfoldable pub decode_hashed : Crypto → Bytes → Option (Tx × ℕ)
decode_hashed c b = do
  (t, n) ← deserialize_tx b
  bytes ← prefix? n b
  some (record t { size = n % 2 ^ 32; hash = some (sha2_sum c bytes) }, n)

-- The error that the source declares is never set; `none` is a panic.
unfoldable pub decode_tx_list_from_raw : Crypto → Block → Option Block
unfolding decode_hashed
decode_tx_list_from_raw c b = do
  r ← from? 80 b.raw
  (count, n) ← load_var_len r
  (txs, _) ← read_all (decode_hashed c) count b.raw (80 + n)
  some (record b { txs = txs })
