-- ===== src/Qdb/Unwind/Committed.antt =====
-- `commit` of the unwind data, and taking back the block that it stored.
use yoin.Base.{
  ℕ, suc, ◌+◌, ◌-◌, ◌%◌, ◌^◌, ◌<◌, ◌≡◌, refl, ap, ◌∙◌, ◌++◌, none, some, leb, ◌==◌, if◌then◌else◌,
  inl, inr, Bool-cases, ==_iff, ==_refl, arith, length,
}
use yoin.Bytes.{Bytes, prefix?}
use yoin.Bytes.Laws.{from?-append, length-prefix?}
use yoin.Chain.Commit.{BlockChangeEvent}
use yoin.Qdb.Store.{Kv, KvLaws}
use yoin.Qdb.Spent.RoundTrip.{KeysFit, OutputsFit, without_heights}
use yoin.Qdb.Outputs.{UnspentDb, add_all, del_all}
use yoin.Qdb.Unwind.{
  UnwindDb, unwind_buffer_max_history, write_added, write_deleted, commit, undo, step_back, undone,
}
use yoin.Qdb.Unwind.Replay.{replay-written, length-written}

module _ (kv : Kv) (laws : KvLaws kv) (db : UnwindDb kv) (c : BlockChangeEvent)
    (blhash hash : Bytes) (cut : prefix? 32 blhash ≡ some hash)
    (next : (db.last_block_height + 1) % 2 ^ 32 ≡ c.height) where
  abbrev pub block_record : Bytes
  block_record = hash ++ (write_added c.added_txs ++ write_deleted c.deleted_txs)

  abbrev pub committed_unwind : UnwindDb kv
  committed_unwind = record {
    tdb =
        let d = kv.put db.tdb c.height block_record in
        if leb unwind_buffer_max_history c.height
        then kv.del d (c.height - unwind_buffer_max_history)
        else d;
    last_block_height = c.height;
    last_block_hash = hash;
  }

  pub commit_lem : commit kv db c blhash ≡ some committed_unwind
  unfolding commit
  commit_lem = rw ((==_iff _ _).1 next, cut) refl

  -- Under every key.
  pub get-committed :
      (k : ℕ)
      → kv.get committed_unwind.tdb k ≡ (
          if leb unwind_buffer_max_history c.height
          then (if k == (c.height - unwind_buffer_max_history)
              then none
              else if k == c.height
              then some block_record
              else kv.get db.tdb k)
          else if k == c.height
          then some block_record
          else kv.get db.tdb k)
  get-committed k = elim (Bool-cases (leb unwind_buffer_max_history c.height)) [
    | inl e ↦
        rw
          (
            e,
            laws.get_del (kv.put db.tdb c.height block_record)
                (c.height - unwind_buffer_max_history) k,
            laws.get_put db.tdb c.height block_record k,
          )
          refl
    | inr e ↦ rw (e, laws.get_put db.tdb c.height block_record k) refl
  ]

  -- Other keys than the new one and the one that falls out of the history.
  pub get-committed_other :
      (k : ℕ)
      → (k ≡ c.height → ⊥)
      → c.height < k + unwind_buffer_max_history
      → kv.get committed_unwind.tdb k ≡ kv.get db.tdb k
  get-committed_other k other kept = get-committed k ∙ ground (arith, other, kept)

  pub get-committed_new : kv.get committed_unwind.tdb c.height ≡ some block_record
  get-committed_new = get-committed c.height ∙ ground arith

  -- The parent's record is there, so the block can be taken back.
  module _ (parent : Bytes) (fits : db.last_block_height < 2 ^ 32)
      (stored : kv.get db.tdb db.last_block_height ≡ some parent)
      (parent_cut : prefix? 32 parent ≡ some db.last_block_hash) where
    abbrev pub restored_unwind : UnwindDb kv
    restored_unwind = record db { tdb = kv.del committed_unwind.tdb c.height }

    step_back-committed :
        (unsp : UnspentDb kv)
        → step_back kv committed_unwind c.height unsp ≡ undone restored_unwind unsp
    unfolding step_back
    step_back-committed unsp =
        let last : (c.height + (2 ^ 32 - 1)) % 2 ^ 32 ≡ db.last_block_height =
          omega (arith, next, fits) in
        let other : db.last_block_height ≡ c.height → ⊥ = λ e. omega (arith, next, fits, e) in
        let kept : c.height < db.last_block_height + unwind_buffer_max_history =
          omega (arith, next, fits) in
        let e : kv.get (kv.del committed_unwind.tdb c.height) db.last_block_height ≡ some parent =
          laws.get_del committed_unwind.tdb c.height db.last_block_height
          ∙ (ground (arith, other)
              ∙ (get-committed_other db.last_block_height other kept ∙ stored)) in
        rw (step_back, last, e, parent_cut)
          (ap (λ n. undone (record restored_unwind { last_block_height = n }) unsp) last)

    pub undo-committed :
        (unsp : UnspentDb kv)
        → KeysFit c.added_txs
        → KeysFit c.deleted_txs
        → OutputsFit c.deleted_txs
        → undo kv committed_unwind c.height unsp
          ≡ undone restored_unwind
              (add_all kv (del_all kv unsp c.added_txs) (without_heights c.deleted_txs))
    unfolding undo
    undo-committed unsp keys keys' outs =
        let b = write_added c.added_txs ++ write_deleted c.deleted_txs in
        let body = from?-append 32 hash b (length-prefix? 32 blhash hash cut) in
        let replay =
          replay-written kv c.added_txs c.deleted_txs (suc (length b)) unsp keys keys' outs
            (omega (arith, length-written c.added_txs c.deleted_txs)) in
        rw (==_refl c.height, get-committed_new, body, replay) (step_back-committed _)
