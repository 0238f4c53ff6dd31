-- ===== src/Qdb/Unwind/Returns.antt =====
-- What holds when `undo` returns.
use yoin.Base.{
  ℕ, suc, ◌+◌, ◌-◌, ◌%◌, ◌^◌, ◌≡◌, ap, inl, inr, some, ◌==◌, length, Bool-cases, Option-cases,
  ==_iff,
}
use yoin.Bytes.{Bytes, prefix?, from?}
use yoin.Qdb.Store.{Kv}
use yoin.Qdb.Outputs.{UnspentDb}
use yoin.Qdb.Unwind.{
  UnwindDb, Undone, undo, undone, undo_failed, step_back, unwind_from_reader, Replayed, replayed,
  replay_failed,
}

module _ (kv : Kv) where
  -- The state that `step_back` leaves.
  pub record SteppedBack (u : UnwindDb kv) (height : ℕ) (u' : UnwindDb kv) : Type 0 where
    pub parent : Bytes
    pub hash : Bytes
    pub parent_stored :
        kv.get (kv.del u.tdb height) ((u.last_block_height + (2 ^ 32 - 1)) % 2 ^ 32) ≡ some parent
    pub parent_cut : prefix? 32 parent ≡ some hash
    pub stepped :
        record {
          tdb = kv.del u.tdb height;
          last_block_height = (u.last_block_height + (2 ^ 32 - 1)) % 2 ^ 32;
          last_block_hash = hash;
        }
        ≡ u'

  abbrev unwind_of : UnwindDb kv → Undone kv → UnwindDb kv
  unwind_of u (undone u' unsp) = u'
  unwind_of u (undo_failed e) = u

  module _ (u u' : UnwindDb kv) (height : ℕ) (unsp unsp' : UnspentDb kv) where
    step_back-undone :
        (x : UnspentDb kv) → step_back kv u height x ≡ undone u' unsp' → SteppedBack u height u'
    unfolding step_back
    step_back-undone x h =
        elim (Option-cases
          (kv.get (kv.del u.tdb height) ((u.last_block_height + (2 ^ 32 - 1)) % 2 ^ 32))) [
            | inl e ↦ let h' = rw (step_back, e) at h in cc
            | inr (parent, e) ↦ elim (Option-cases (prefix? 32 parent)) [
              | inl e' ↦ let h' = rw (step_back, e, e') at h in cc
              | inr (hash, e') ↦ record {
                parent = parent;
                hash = hash;
                parent_stored = e;
                parent_cut = e';
                stepped = let h' = rw (step_back, e, e') at h in ap (unwind_of u) h';
              }
            ]
          ]

    replayed-undone :
        (r : Replayed kv)
        → (elim r [ replay_failed e ↦ Undone.undo_failed e | replayed x ↦ step_back kv u height x ])
          ≡ undone u' unsp'
        → SteppedBack u height u'
    replayed-undone (replayed x) h = step_back-undone x h
    replayed-undone (replay_failed e) h = cc

    pub undo-undone :
        undo kv u height unsp ≡ undone u' unsp'
        → (height ≡ u.last_block_height)
          × ((v : Bytes) × (kv.get u.tdb height ≡ some v))
          × SteppedBack u height u'
    unfolding undo
    undo-undone h = elim (Bool-cases (height == u.last_block_height)) [
      | inr e ↦ let h' = rw (undo, e) at h in cc
      | inl e ↦ elim (Option-cases (kv.get u.tdb height)) [
        | inl e' ↦ let h' = rw (undo, e, e') at h in cc
        | inr (v, e') ↦ elim (Option-cases (from? 32 v)) [
          | inl e'' ↦ let h' = rw (undo, e, e', e'') at h in cc
          | inr (b, e'') ↦
              let h' = rw (undo, e, e', e'') at h in
              (
                (==_iff _ _).0 e,
                (v, e'),
                replayed-undone (unwind_from_reader kv (suc (length b)) b unsp) h',
              )
        ]
      ]
    ]
