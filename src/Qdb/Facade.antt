-- ===== src/Qdb/Facade.antt =====
-- core/qdb/dbase.go: `UnspentTDB`, the outputs with the unwind data.
-- `none` is a panic. Opening, syncing, saving and closing only reach the stores.
pub mod Undo
pub mod Restart
use yoin.Base.{ℕ, zero, suc, Option, none, some, ◌>>=◌}
use yoin.Bytes.{Bytes}
use yoin.Tx.{TxPrevOut}
use yoin.Chain.Commit.{BlockChangeEvent}
use yoin.Qdb.Store.{Kv}
use yoin.Qdb.Outputs.{Got, UnspentDb, get, commit}
use yoin.Qdb.Unwind
use yoin.Qdb.Unwind.{UnwindDb, Undone, undone, undo_failed, undo, get_last_block_hash}

module _ (kv : Kv) where
  pub record UnspentTdb : Type 0 where
    pub unspent : UnspentDb kv
    pub unwind : UnwindDb kv

  unfoldable pub commit_block_txs : UnspentTdb → BlockChangeEvent → Bytes → Option UnspentTdb
  unfolding Unwind.commit commit
  commit_block_txs db changes blhash = do
    unwind' ← Unwind.commit kv db.unwind changes blhash
    some (record { unspent = commit kv db.unspent changes; unwind = unwind' })

  unfoldable pub undo_block_transactions : UnspentTdb → ℕ → Option UnspentTdb
  unfolding undo
  undo_block_transactions db height = elim (undo kv db.unwind height db.unspent) [
    | undo_failed e ↦ none
    | undone unwind' unspent' ↦ some (record { unspent = unspent'; unwind = unwind' })
  ]

  -- core/chain.go, the loop of `NewChain`: the last blocks are taken back, n of them at most. The end
  -- of the tree is at the height h, and its parent one below.
  unfoldable pub undo_at_restart : ℕ → UnspentTdb → ℕ → Option UnspentTdb
  unfolding undo_block_transactions
  undo_at_restart zero db h = some db
  undo_at_restart (suc n) db zero = some db
  undo_at_restart (suc n) db (suc h) = do
    db' ← undo_block_transactions db (suc h)
    undo_at_restart n db' h

  unfoldable pub unspent_get : UnspentTdb → TxPrevOut → Got
  unfolding get
  unspent_get db po = get kv db.unspent po

  unfoldable facade_last_block_hash : UnspentTdb → Option Bytes
  unfolding get_last_block_hash
  facade_last_block_hash db = get_last_block_hash kv db.unwind
