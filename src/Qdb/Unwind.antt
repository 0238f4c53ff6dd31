-- ===== src/Qdb/Unwind.antt =====
-- core/qdb/unwind.go: `unwindDB`, what each of the last blocks did to the outputs.
-- `none`, and the failures of `undo`, are panics. Statistics and the calls that only sync,
-- defragment or close the store are left out.
pub mod Replay
pub mod Committed
pub mod Returns
pub mod Total
pub mod Window
use yoin.Base.{
  ℕ, zero, suc, ◌+◌, ◌-◌, ◌*◌, ◌%◌, ◌^◌, Bool, List, [], ◌∷◌, ◌++◌, Option, none, some, ◌>>=◌, ltb,
  leb, ◌==◌, if◌then◌else◌, length, replicate,
}
use yoin.Bytes.{Bytes, from?, prefix?}
use yoin.Chain.Commit.{TxMap, BlockChangeEvent}
use yoin.Qdb.Store.{Kv}
use yoin.Qdb.Spent.{write_spent, no_record, record_read, unexpected_end, read_spent}
use yoin.Qdb.Outputs.{UnspentDb, add, del}

-- `UnwindBufferMaxHistory`
abbrev pub unwind_buffer_max_history : ℕ
unwind_buffer_max_history = 7 * 24 * 6

-- The two loops of `commit` that fill the buffer.
unfoldable pub write_added : TxMap → Bytes
unfolding write_spent
write_added [] = []
write_added ((po, to) ∷ m) = write_spent po none ++ write_added m

unfoldable pub write_deleted : TxMap → Bytes
unfolding write_spent
write_deleted [] = []
write_deleted ((po, to) ∷ m) = write_spent po (some to) ++ write_deleted m

pub data UndoError : Type 0 where
  unexpected_height no_unwind_data hash_cut_off unexpected_end_of_file parent_not_found
        out_of_fuel :
      UndoError

module _ (kv : Kv) where
  pub data Replayed : Type 0 where
    replayed : UnspentDb kv → Replayed
    replay_failed : UndoError → Replayed

  -- The endless loop reads one record in each round.
  unfoldable pub unwind_from_reader : ℕ → Bytes → UnspentDb kv → Replayed
  unfolding add del
  unwind_from_reader zero b unsp = Replayed.replay_failed UndoError.out_of_fuel
  unwind_from_reader (suc fuel) b unsp = elim (read_spent b) [
    | no_record ↦ Replayed.replayed unsp
    | unexpected_end ↦ Replayed.replay_failed UndoError.unexpected_end_of_file
    | record_read po (some to) rest ↦ unwind_from_reader fuel rest (add kv unsp po to)
    | record_read po none rest ↦ unwind_from_reader fuel rest (del kv unsp po)
  ]

  pub record UnwindDb : Type 0 where
    pub tdb : kv.Db
    pub last_block_height : ℕ
    pub last_block_hash : Bytes

  -- `newUnwindDB`: the function that `Browse` calls on each record.
  unfoldable pub browse_step : UnwindDb → ℕ → Bytes → Option UnwindDb
  browse_step db k v =
      let h = k % 2 ^ 32 in
      if ltb db.last_block_height h
      then (do
        hash ← prefix? 32 v
        some (record db { last_block_height = h; last_block_hash = hash }))
      else some db

  unfoldable pub browse_all : UnwindDb → List (ℕ × Bytes) → Option UnwindDb
  unfolding browse_step
  browse_all db [] = some db
  browse_all db ((k, v) ∷ r) = do db' ← browse_step db k v; browse_all db' r

  unfoldable pub new_unwind_db : kv.Db → Option UnwindDb
  unfolding browse_all
  new_unwind_db d =
      browse_all (record { tdb = d; last_block_height = 0; last_block_hash = replicate 32 0 })
        (kv.browse d)

  unfoldable pub commit : UnwindDb → BlockChangeEvent → Bytes → Option UnwindDb
  unfolding write_added write_deleted
  commit db changes blhash =
      let h = changes.height in
      if (db.last_block_height + 1) % 2 ^ 32 == h
      then (do
        hash ← prefix? 32 blhash
        let d =
            kv.put db.tdb h
              (hash ++ (write_added changes.added_txs ++ write_deleted changes.deleted_txs))
        some (record {
          tdb =
              if leb unwind_buffer_max_history h
              then kv.del d (h - unwind_buffer_max_history)
              else d;
          last_block_height = h;
          last_block_hash = hash;
        }))
      else none

  pub data Undone : Type 0 where
    undone : UnwindDb → UnspentDb kv → Undone
    undo_failed : UndoError → Undone

  -- Behind the reader: the record goes, and the parent's gives the last hash.
  unfoldable pub step_back : UnwindDb → ℕ → UnspentDb kv → Undone
  step_back db height unsp =
      let d = kv.del db.tdb height in
      let last = (db.last_block_height + (2 ^ 32 - 1)) % 2 ^ 32 in
      elim (kv.get d last) [
        | none ↦ Undone.undo_failed UndoError.parent_not_found
        | some v ↦ elim (prefix? 32 v) [
          | none ↦ Undone.undo_failed UndoError.hash_cut_off
          | some hash ↦
              Undone.undone (record { tdb = d; last_block_height = last; last_block_hash = hash })
                unsp
        ]
      ]

  unfoldable pub undo : UnwindDb → ℕ → UnspentDb kv → Undone
  unfolding unwind_from_reader step_back
  undo db height unsp =
      if height == db.last_block_height
      then elim (kv.get db.tdb height) [
        | none ↦ Undone.undo_failed UndoError.no_unwind_data
        | some v ↦ elim (from? 32 v) [
          | none ↦ Undone.undo_failed UndoError.hash_cut_off
          | some b ↦ elim (unwind_from_reader (suc (length b)) b unsp) [
            | replay_failed e ↦ Undone.undo_failed e
            | replayed unsp' ↦ step_back db height unsp'
          ]
        ]
      ]
      else Undone.undo_failed UndoError.unexpected_height

  -- `GetLastBlockHash`; a nil slice is `none`.
  unfoldable pub get_last_block_hash : UnwindDb → Option Bytes
  get_last_block_hash db = if db.last_block_height == 0 then none else some db.last_block_hash
