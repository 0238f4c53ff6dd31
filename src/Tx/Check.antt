-- ===== src/Tx/Check.antt =====
-- core/tx.go: `CheckTransaction`. The global `slowMode` is an argument, and the map of the inputs
-- seen so far is a list.
pub mod Sound
use yoin.Base.{
  ℕ, ◌+◌, ◌*◌, ◌%◌, ◌^◌, Bool, true, false, ◌&&◌, ◌||◌, List, [], ◌∷◌, ltb, ◌==◌, if◌then◌else◌,
  length,
}
use yoin.Bytes.{bytes_equal}
use yoin.Tx.{TxPrevOut, TxIn, TxOut, Tx, is_null, is_coin_base}

-- core/config.go
abbrev pub max_block_size : ℕ
max_block_size = 1000000

abbrev pub max_money : ℕ
max_money = 2100000000000000

pub data CheckError : Type 0 where
  vin_empty vout_empty size_limits txout_too_high total_out_of_range duplicate_inputs : CheckError
  prevout_null : CheckError
  coinbase_script_size : ℕ → CheckError

-- `accepted` is the nil error.
pub data Verdict : Type 0 where
  accepted : Verdict
  rejected : CheckError → Verdict

infixl 5 ◌>>◌
abbrev pub ◌>>◌ : Verdict → Verdict → Verdict
accepted >> w = w
rejected e >> w = rejected e

-- `if b { return e }`
abbrev pub reject_if : Bool → CheckError → Verdict
reject_if b e = if b then rejected e else accepted

-- The sum is a `uint64`.
unfoldable pub check_values : List TxOut → ℕ → Verdict
check_values [] sum = accepted
check_values (o ∷ os) sum =
    reject_if (ltb max_money o.value) CheckError.txout_too_high
    >> (reject_if (ltb max_money ((sum + o.value) % 2 ^ 64)) CheckError.total_out_of_range
        >> check_values os ((sum + o.value) % 2 ^ 64))

unfoldable pub prev_out_equal : TxPrevOut → TxPrevOut → Bool
prev_out_equal p q =
    bytes_equal p.pre_out_tx_hash q.pre_out_tx_hash && p.out_idx_in_tx == q.out_idx_in_tx

unfoldable pub present : TxPrevOut → List TxPrevOut → Bool
unfolding prev_out_equal
present p [] = false
present p (q ∷ seen) = prev_out_equal p q || present p seen

unfoldable pub check_duplicates : List TxIn → List TxPrevOut → Verdict
unfolding present
check_duplicates [] seen = accepted
check_duplicates (i ∷ is) seen =
    reject_if (present i.input seen) CheckError.duplicate_inputs
    >> check_duplicates is (i.input ∷ seen)

unfoldable pub check_prevouts : List TxIn → Verdict
check_prevouts [] = accepted
check_prevouts (i ∷ is) = reject_if (is_null i.input) CheckError.prevout_null >> check_prevouts is

-- The script of the only input of a coin base.
unfoldable pub check_coinbase_script : List TxIn → Verdict
check_coinbase_script [] = accepted
check_coinbase_script (i ∷ is) =
    reject_if (ltb (length i.script_sig) 2 || ltb 100 (length i.script_sig))
      (CheckError.coinbase_script_size (length i.script_sig))

unfoldable pub check_transaction : Bool → Tx → Verdict
unfolding check_values check_duplicates check_prevouts check_coinbase_script
check_transaction slow_mode t =
    reject_if (length t.tx_ins == 0) CheckError.vin_empty
    >> reject_if (length t.tx_outs == 0) CheckError.vout_empty
    >> reject_if (ltb max_block_size t.size) CheckError.size_limits
    >> (if slow_mode then check_values t.tx_outs 0 >> check_duplicates t.tx_ins [] else accepted)
    >> (if is_coin_base t then check_coinbase_script t.tx_ins else check_prevouts t.tx_ins)
