-- ===== src/Qdb/Examples.antt =====
-- Outputs that are stored, spent and brought back, for core/qdb/.
use yoin.Base.{
  ℕ, ◌-◌, ◌≡◌, ◌≢◌, ◌↔◌, refl, [], ◌∷◌, ◌++◌, none, some, ◌>>=◌, if◌then◌else◌, replicate, arith,
}
use yoin.Bytes.{prefix?, le_bytes, le_value}
use yoin.Tx.{TxPrevOut, TxOut}
use yoin.Chain.Commit.{BlockChangeEvent}
use yoin.Qdb.Store.AssocList.{assoc_kv, assoc_laws}
use yoin.Qdb.Spent.RoundTrip.{OutPointFits, SpentFits}
use yoin.Qdb.Outputs.{slot, unspent_index, UnspentDb, add, get, unspent_record, not_found, found}
use yoin.Qdb.Outputs
use yoin.Qdb.Outputs.Slots.{hits}
use yoin.Qdb.Outputs.Restored.{forget_height}
use yoin.Qdb.Outputs.View.{seen, get-commit}
use yoin.Qdb.Unwind.{UnwindDb, commit, new_unwind_db, browse_all, write_added, write_deleted}
use yoin.Qdb.Unwind.Window.{Reachable, Window, opened, committed}
use yoin.Qdb.Unwind.Window.Step.{reachable-Window}
use yoin.Qdb.Facade.{
  UnspentTdb, commit_block_txs, undo_block_transactions, undo_at_restart, unspent_get,
}
use yoin.Qdb.Facade.Undo.{undo-commit}
use yoin.Qdb.Facade.Restart.{restart_iff}

abbrev point : ℕ → TxPrevOut
point n = record { pre_out_tx_hash = replicate 32 n; out_idx_in_tx = 1 }

abbrev coin : TxOut
coin = record { value = 50; script_pub_key = 0x76 ∷ 0xa9 ∷ []; block_height = 4 }

point-OutPointFits : (n : ℕ) → OutPointFits (point n)
point-OutPointFits n = record { hash_length = refl; index_fits = omega arith }

coin-SpentFits : SpentFits coin
coin-SpentFits = record { value_fits = omega arith; script_fits = omega arith }

has_hash : prefix? 32 (replicate 32 6) ≢ none
unfolding prefix?
has_hash = cc

prefix_5 : prefix? 32 (replicate 32 5) ≡ some (replicate 32 5)
unfolding prefix?
prefix_5 = refl

-- One stored output; the change spends it and adds another.
abbrev empty_outputs : UnspentDb assoc_kv
empty_outputs i = []

abbrev stored_coin : UnspentDb assoc_kv
stored_coin = add assoc_kv empty_outputs (point 7) coin

abbrev spending : BlockChangeEvent
spending = record {
  height = 2;
  added_txs = (point 8, coin) ∷ [];
  deleted_txs = (point 7, coin) ∷ [];
}

get-stored : get assoc_kv stored_coin (point 7) ≡ found coin
unfolding get add Outputs.read_unspent unspent_record slot unspent_index le_bytes le_value
get-stored = refl

get-absent : get assoc_kv stored_coin (point 8) ≡ not_found
unfolding get add Outputs.read_unspent slot
get-absent = refl

get-commit_example : get assoc_kv (Outputs.commit assoc_kv stored_coin spending) (point 8) ≡ (
    if hits (slot (point 8)) (unspent_index (point 8)) spending.deleted_txs
    then not_found
    else seen
        (slot (point 8))
        (unspent_index (point 8))
        spending.added_txs
        (get assoc_kv stored_coin (point 8)))
get-commit_example =
    get-commit assoc_kv assoc_laws stored_coin spending (point 8) (point-OutPointFits 8, tt)
      (coin-SpentFits, tt) (omega arith, tt)

abbrev one_block : UnspentTdb assoc_kv
one_block = record {
  unspent = stored_coin;
  unwind = record {
    tdb = (1, replicate 32 5) ∷ [];
    last_block_height = 1;
    last_block_hash = replicate 32 5;
  };
}

undo-commit_example :
    (db' : UnspentTdb assoc_kv) × ((commit_block_txs assoc_kv one_block spending (replicate 32 6)
        >>= (λ d. undo_block_transactions assoc_kv d 2))
      ≡ some db')
    × (db'.unwind.last_block_height ≡ 1)
    × (db'.unwind.last_block_hash ≡ replicate 32 5)
    × ((q : TxPrevOut)
        → unspent_get assoc_kv db' q ≡ (
            if hits (slot q) (unspent_index q) spending.deleted_txs
            then forget_height (unspent_get assoc_kv one_block q)
            else unspent_get assoc_kv one_block q))
undo-commit_example =
    undo-commit assoc_kv assoc_laws one_block spending (replicate 32 6) (replicate 32 5) has_hash
      refl (omega arith) refl prefix_5 (point-OutPointFits 8, tt) (point-OutPointFits 7, tt)
      (coin-SpentFits, tt) (get-stored, tt) (get-absent, tt)

-- A new database, and its first block.
abbrev new_unwind : UnwindDb assoc_kv
new_unwind = record { tdb = []; last_block_height = 0; last_block_hash = replicate 32 0 }

abbrev paying : BlockChangeEvent
paying = record { height = 1; added_txs = (point 8, coin) ∷ []; deleted_txs = [] }

abbrev first_block : UnwindDb assoc_kv
first_block = record {
  tdb = (1, replicate 32 6 ++ (write_added paying.added_txs ++ write_deleted [])) ∷ [];
  last_block_height = 1;
  last_block_hash = replicate 32 6;
}

new_unwind-Reachable : Reachable assoc_kv new_unwind
unfolding new_unwind_db browse_all
new_unwind-Reachable = opened [] (λ k. refl) refl

first_block-Reachable : Reachable assoc_kv first_block
unfolding commit prefix? write_deleted
first_block-Reachable =
    committed paying (replicate 32 6) new_unwind-Reachable
      (record { added_fit = (point-OutPointFits 8, tt); deleted_fit = tt; outputs_fit = tt })
      (omega arith) refl

reachable-Window_example : Window assoc_kv first_block
reachable-Window_example = reachable-Window assoc_kv assoc_laws first_block first_block-Reachable

abbrev young_chain : UnspentTdb assoc_kv
young_chain = record { unspent = empty_outputs; unwind = first_block }

restart_iff_example :
    (undo_at_restart assoc_kv 1 young_chain 1 ≢ none)
    ↔ (assoc_kv.get first_block.tdb (1 - 1) ≢ none)
restart_iff_example =
    restart_iff assoc_kv assoc_laws 1 young_chain first_block-Reachable (omega arith)
