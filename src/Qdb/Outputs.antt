-- ===== src/Qdb/Outputs.antt =====
-- core/qdb/unspent.go: `unspentDB`, 256 stores of unspent outputs.
-- A store that `dbN` opens when it is first used is there from the start. Statistics, and the calls
-- that only sync, defragment or close the stores, are left out.
pub mod Slots
pub mod Restored
pub mod View
use Prim.Native.Nat.{bit_xor}
use yoin.Base.{
  ℕ, ◌%◌, ◌^◌, Bool, true, false, ◌&&◌, ◌||◌, List, [], ◌∷◌, ◌++◌, Option, none, some, ltb, ◌==◌,
  if◌then◌else◌, length, take, drop, get_elem?,
}
use yoin.Bytes.{Bytes, le_bytes, le_value}
use yoin.Tx.{TxPrevOut, TxOut}
use yoin.Chain.Commit.{TxMap, BlockChangeEvent}
use yoin.Qdb.Store.{Kv}

-- `getUnspentIndex`
unfoldable pub unspent_index : TxPrevOut → ℕ
unspent_index po = bit_xor (le_value (take 8 po.pre_out_tx_hash)) po.out_idx_in_tx

-- `po.PreOutTxHash[31]`, of a 32-byte array.
unfoldable pub slot : TxPrevOut → ℕ
slot po = elim (get_elem? po.pre_out_tx_hash 31) [ none ↦ 0 | some b ↦ b ]

-- The value that `add` stores.
unfoldable pub unspent_record : TxPrevOut → TxOut → Bytes
unspent_record po to =
    po.pre_out_tx_hash
    ++ (le_bytes 4 po.out_idx_in_tx
        ++ (le_bytes 8 to.value ++ (le_bytes 4 to.block_height ++ to.script_pub_key)))

-- What `get` makes of a value; it panics on fewer than 48 bytes.
pub data Got : Type 0 where
  found : TxOut → Got
  not_found : Got
  too_short : Got

unfoldable pub read_unspent : Option Bytes → Got
unfolding le_value
read_unspent none = not_found
read_unspent (some v) =
    if ltb (length v) 48
    then too_short
    else found (record {
      value = le_value (take 8 (drop 36 v));
      block_height = le_value (take 4 (drop 44 v));
      script_pub_key = drop 48 v;
    })

module _ (kv : Kv) where
  abbrev pub UnspentDb : Type 0
  UnspentDb = ℕ → kv.Db

  abbrev pub set_db : UnspentDb → ℕ → kv.Db → UnspentDb
  set_db db i d j = if j == i then d else db j

  -- `db.dbN(i).Get(k)`
  abbrev pub at : UnspentDb → ℕ → ℕ → Option Bytes
  at db i k = kv.get (db i) k

  unfoldable pub get : UnspentDb → TxPrevOut → Got
  unfolding unspent_index slot read_unspent
  get db po = read_unspent (at db (slot po) (unspent_index po))

  unfoldable pub add : UnspentDb → TxPrevOut → TxOut → UnspentDb
  unfolding unspent_index slot unspent_record
  add db po to =
      set_db db (slot po) (kv.put (db (slot po)) (unspent_index po) (unspent_record po to))

  unfoldable pub del : UnspentDb → TxPrevOut → UnspentDb
  unfolding unspent_index slot
  del db po = set_db db (slot po) (kv.del (db (slot po)) (unspent_index po))

  -- The two loops of `commit`.
  unfoldable pub add_all : UnspentDb → TxMap → UnspentDb
  add_all db [] = db
  add_all db ((po, to) ∷ m) = add_all (add db po to) m

  unfoldable pub del_all : UnspentDb → TxMap → UnspentDb
  del_all db [] = db
  del_all db ((po, to) ∷ m) = del_all (del db po) m

  unfoldable pub commit : UnspentDb → BlockChangeEvent → UnspentDb
  unfolding add_all del_all
  commit db changes = del_all (add_all db changes.added_txs) changes.deleted_txs
