-- ===== src/Tx.antt =====
-- core/tx.go: transactions, their wire format and the checks that need no other transaction.
-- A `[32]byte` is a list of 32 bytes. A decoder returns `none` where the source panics (a slice out
-- of range), and the value with the count of bytes that it took where it returns.
pub mod Codec
pub mod Check
pub mod Sighash
mod Examples
use yoin.Base.{ℕ, List, Option, Bool, ◌&&◌, ◌==◌, true, false, [], ◌∷◌, none, some, length}
use yoin.Bytes.{Bytes}

pub record TxPrevOut : Type 0 where
  pub pre_out_tx_hash : Bytes
  pub out_idx_in_tx : ℕ

pub record TxIn : Type 0 where
  pub input : TxPrevOut
  pub script_sig : Bytes
  pub sequence : ℕ

pub record TxOut : Type 0 where
  pub value : ℕ
  pub block_height : ℕ
  pub script_pub_key : Bytes

-- `hash` is `none` for a nil `*Uint256`.
pub record Tx : Type 0 where
  pub version : ℕ
  pub tx_ins : List TxIn
  pub tx_outs : List TxOut
  pub lock_time : ℕ
  pub size : ℕ
  pub hash : Option Bytes

-- core/util.go
unfoldable pub allzeros : Bytes → Bool
allzeros [] = true
allzeros (b ∷ bs) = b == 0 && allzeros bs

unfoldable pub is_null : TxPrevOut → Bool
unfolding allzeros
is_null p = allzeros p.pre_out_tx_hash && p.out_idx_in_tx == 0xffffffff

-- `len(tx.TxIns) == 1 && tx.TxIns[0].Input.IsNull()`
unfoldable pub first_is_null : List TxIn → Bool
first_is_null [] = false
first_is_null (i ∷ is) = is_null i.input

unfoldable pub is_coin_base : Tx → Bool
unfolding is_null first_is_null
is_coin_base t = length t.tx_ins == 1 && first_is_null t.tx_ins
