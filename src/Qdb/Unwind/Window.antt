-- ===== src/Qdb/Unwind/Window.antt =====
-- The states that the unwind data can be in: opened on an empty store, and then any sequence of
-- commits, undos and restarts. A panic ends the program.
pub mod Commit
pub mod Step
pub mod Reopen
use yoin.Base.{
  ℕ, suc, ◌+◌, ◌%◌, ◌^◌, ◌≤◌, ◌<◌, ◌≡◌, ◌⊎◌, ◌++◌, Option, none, some, replicate, length,
}
use yoin.Bytes.{Bytes, prefix?}
use yoin.Chain.Commit.{TxMap, BlockChangeEvent}
use yoin.Qdb.Store.{Kv}
use yoin.Qdb.Spent.RoundTrip.{KeysFit, OutputsFit}
use yoin.Qdb.Outputs.{UnspentDb}
use yoin.Qdb.Unwind.{
  UnwindDb, unwind_buffer_max_history, write_added, write_deleted, commit, undo, undone,
  new_unwind_db,
}

-- The maps of a change hold values of their types.
pub record ChangesFit (c : BlockChangeEvent) : Type 0 where
  pub added_fit : KeysFit c.added_txs
  pub deleted_fit : KeysFit c.deleted_txs
  pub outputs_fit : OutputsFit c.deleted_txs

-- A record as `commit` writes it.
pub record Written (v : Bytes) : Type 0 where
  pub hash : Bytes
  pub added : TxMap
  pub deleted : TxMap
  pub hash_length : length hash ≡ 32
  pub is_written : v ≡ hash ++ (write_added added ++ write_deleted deleted)
  pub added_fit : KeysFit added
  pub deleted_fit : KeysFit deleted
  pub outputs_fit : OutputsFit deleted

module _ (kv : Kv) where
  -- Blocks above the genesis block are committed.
  pub data Reachable : UnwindDb kv → Type 0 where
    opened :
        {u : UnwindDb kv} (d : kv.Db)
        → ((k : ℕ) → kv.get d k ≡ none)
        → new_unwind_db kv d ≡ some u
        → Reachable u
    committed :
        {u u' : UnwindDb kv} (c : BlockChangeEvent) (blhash : Bytes)
        → Reachable u
        → ChangesFit c
        → 0 < c.height
        → commit kv u c blhash ≡ some u'
        → Reachable u'
    taken_back :
        {u u' : UnwindDb kv} {unsp' : UnspentDb kv} (height : ℕ) (unsp : UnspentDb kv)
        → Reachable u
        → undo kv u height unsp ≡ undone u' unsp'
        → Reachable u'
    reopened : {u u' : UnwindDb kv} → Reachable u → new_unwind_db kv u.tdb ≡ some u' → Reachable u'

  -- The records that are kept are those of the heights from `lowest` to the last one.
  pub record Window (u : UnwindDb kv) : Type 0 where
    pub lowest : ℕ
    pub above_genesis : 0 < lowest
    pub reaches : lowest ≤ suc u.last_block_height
    pub kept : 0 < u.last_block_height → lowest ≤ u.last_block_height
    pub bounded : u.last_block_height < lowest + unwind_buffer_max_history
    pub last_fits : u.last_block_height < 2 ^ 32
    pub inside :
        (k : ℕ)
        → lowest ≤ k
        → k ≤ u.last_block_height
        → (v : Bytes) × (kv.get u.tdb k ≡ some v) × Written v
    pub below : (k : ℕ) → k < lowest → kv.get u.tdb k ≡ none
    pub above : (k : ℕ) → u.last_block_height < k → kv.get u.tdb k ≡ none
    pub last_hash :
        (v : Bytes)
        → kv.get u.tdb u.last_block_height ≡ some v
        → prefix? 32 v ≡ some u.last_block_hash
    pub no_hash : u.last_block_height ≡ 0 → u.last_block_hash ≡ replicate 32 0
