-- ===== src/Qdb/Facade/Undo.antt =====
-- A block that is committed and taken back.
use yoin.Base.{
  ◌+◌, ◌%◌, ◌^◌, ◌<◌, ◌≡◌, ◌≢◌, Option-cases, refl, none, some, ◌>>=◌, if◌then◌else◌, inl, inr,
}
use yoin.Bytes.{Bytes, prefix?}
use yoin.Tx.{TxPrevOut}
use yoin.Chain.Commit.{BlockChangeEvent}
use yoin.Qdb.Store.{Kv, KvLaws}
use yoin.Qdb.Spent.RoundTrip.{KeysFit, OutputsFit, without_heights}
use yoin.Qdb.Outputs.{slot, unspent_index, add_all, del_all}
use yoin.Qdb.Outputs
use yoin.Qdb.Outputs.Slots.{hits}
use yoin.Qdb.Outputs.Restored.{Stored, Absent, forget_height, get-taken_back}
use yoin.Qdb.Unwind.Committed.{restored_unwind, undo-committed, commit_lem}
use yoin.Qdb.Facade.{UnspentTdb, commit_block_txs, undo_block_transactions, unspent_get}

-- What a reader of the outputs sees once a block that was committed is taken back: the outputs that it
-- spent, with the height set to zero, and otherwise what there was.
pub undo-commit :
    (kv : Kv) (laws : KvLaws kv) (db : UnspentTdb kv) (c : BlockChangeEvent) (blhash parent : Bytes)
    → prefix? 32 blhash ≢ none
    → (db.unwind.last_block_height + 1) % 2 ^ 32 ≡ c.height
    → db.unwind.last_block_height < 2 ^ 32
    → kv.get db.unwind.tdb db.unwind.last_block_height ≡ some parent
    → prefix? 32 parent ≡ some db.unwind.last_block_hash
    → KeysFit c.added_txs
    → KeysFit c.deleted_txs
    → OutputsFit c.deleted_txs
    → Stored kv db.unspent c.deleted_txs
    → Absent kv db.unspent c.added_txs
    → (db' : UnspentTdb kv) × ((commit_block_txs kv db c blhash
          >>= (λ d. undo_block_transactions kv d c.height))
        ≡ some db')
      × (db'.unwind.last_block_height ≡ db.unwind.last_block_height)
      × (db'.unwind.last_block_hash ≡ db.unwind.last_block_hash)
      × ((q : TxPrevOut)
          → unspent_get kv db' q ≡ (
              if hits (slot q) (unspent_index q) c.deleted_txs
              then forget_height (unspent_get kv db q)
              else unspent_get kv db q))
unfolding commit_block_txs undo_block_transactions unspent_get
undo-commit kv laws db c blhash parent has_hash next fits stored parent_cut keys keys' outs there
      absent =
    elim (Option-cases (prefix? 32 blhash)) [
      | inl e ↦ absurd (has_hash e)
      | inr (hash, cut) ↦
          let u =
            undo-committed kv laws db.unwind c blhash hash cut next parent fits stored parent_cut in
          (
            record {
              unspent =
                  add_all kv (del_all kv (Outputs.commit kv db.unspent c) c.added_txs)
                    (without_heights c.deleted_txs);
              unwind =
                  restored_unwind kv laws db.unwind c blhash hash cut next parent fits stored
                    parent_cut;
            },
            rw
                (
                  commit_lem kv laws db.unwind c blhash hash cut next,
                  undo_block_transactions,
                  u (Outputs.commit kv db.unspent c) keys keys' outs,
                )
                refl,
            refl,
            refl,
            get-taken_back kv laws db.unspent c keys' outs there absent,
          )
    ]
