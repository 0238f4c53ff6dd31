-- ===== src/Qdb/Facade/Restart.antt =====
-- How far back the kept unwind data reaches.
use yoin.Base.{
  ℕ, zero, suc, ◌+◌, ◌-◌, ◌%◌, ◌^◌, ◌≤◌, ◌<◌, ◌≡◌, ◌≢◌, ◌↔◌, ◌⊎◌, refl, sym, ap, ◌∙◌, inl, inr,
  none, some, ◌++◌, arith, length, Bool-cases, ltb, ==_refl,
}
use yoin.Bytes.{Bytes, prefix?, from?}
use yoin.Bytes.Laws.{from?-append}
use yoin.Qdb.Store.{Kv, KvLaws}
use yoin.Qdb.Spent.RoundTrip.{without_heights}
use yoin.Qdb.Outputs.{UnspentDb, add_all, del_all}
use yoin.Qdb.Unwind.{
  UnwindDb, UndoError, Undone, undone, undo_failed, undo, step_back, write_added, write_deleted,
  new_unwind_db,
}
use yoin.Qdb.Unwind.Replay.{replay-written, length-written}
use yoin.Qdb.Unwind.Returns.{undo-undone}
use yoin.Qdb.Unwind.Window.{Written, Reachable, Window}
use yoin.Qdb.Unwind.Window.Reopen.{cut-Written, stored-range, new_unwind_db-Window}
use yoin.Qdb.Unwind.Window.Step.{shorter, shorter-Window, reachable-Window}
use yoin.Qdb.Facade.{UnspentTdb, undo_block_transactions, undo_at_restart}

-- Opening the store again gives the state that was left.
pub reopen-Reachable :
    (kv : Kv) (laws : KvLaws kv) (u : UnwindDb kv)
    → Reachable kv u
    → new_unwind_db kv u.tdb ≡ some u
reopen-Reachable kv laws u r = new_unwind_db-Window kv u (reachable-Window kv laws u r) laws

Undone-cases :
    {kv : Kv} (x : Undone kv)
    → ((e : UndoError) × (x ≡ undo_failed e))
      ⊎ ((u : UnwindDb kv) × (unsp : UnspentDb kv) × (x ≡ undone u unsp))
Undone-cases (undo_failed e) = inl (e, refl)
Undone-cases (undone u unsp) = inr (u, unsp, refl)

module _ (kv : Kv) (laws : KvLaws kv) where
  module _ (u : UnwindDb kv) (win : Window kv u) (unsp : UnspentDb kv) (v : Bytes)
      (here : kv.get u.tdb u.last_block_height ≡ some v) (w : Written v) (parent : Bytes)
      (parent_here : kv.get u.tdb (u.last_block_height - 1) ≡ some parent) (hash : Bytes)
      (cut : prefix? 32 parent ≡ some hash) (not_empty : 0 < u.last_block_height) where
    abbrev replay_of : UnspentDb kv
    replay_of = add_all kv (del_all kv unsp w.added) (without_heights w.deleted)

    step_back-shorter :
        step_back kv u u.last_block_height replay_of
        ≡ undone (shorter kv laws u win parent hash parent_here cut not_empty) replay_of
    unfolding step_back
    step_back-shorter =
        let fits = win.last_fits in
        let last : (u.last_block_height + (2 ^ 32 - 1)) % 2 ^ 32 ≡ u.last_block_height - 1 =
          omega (arith, not_empty, fits) in
        let e : kv.get (kv.del u.tdb u.last_block_height) (u.last_block_height - 1) ≡ some parent =
          laws.get_del u.tdb u.last_block_height (u.last_block_height - 1)
          ∙ (ground (arith, not_empty) ∙ parent_here) in
        rw (step_back, last, e, cut)
          (ap
            (λ n.
              undone
                (record {
                  tdb = kv.del u.tdb u.last_block_height;
                  last_block_height = n;
                  last_block_hash = hash;
                })
                replay_of)
            last)

    undo-shorter :
        undo kv u u.last_block_height unsp
        ≡ undone (shorter kv laws u win parent hash parent_here cut not_empty) replay_of
    unfolding undo
    undo-shorter =
        let b = write_added w.added ++ write_deleted w.deleted in
        let body : from? 32 v ≡ some b =
          ap (from? 32) w.is_written ∙ from?-append 32 w.hash b w.hash_length in
        let replay =
          replay-written kv w.added w.deleted (suc (length b)) unsp w.added_fit w.deleted_fit
            w.outputs_fit (omega (arith, length-written w.added w.deleted)) in
        rw (==_refl u.last_block_height, here, body, replay) step_back-shorter

  undo-inside :
      (u : UnwindDb kv) (win : Window kv u) (unsp : UnspentDb kv)
      → win.lowest < u.last_block_height
      → (u' : UnwindDb kv) × (unsp' : UnspentDb kv) × (undo kv u u.last_block_height unsp
          ≡ undone u' unsp')
        × (win' : Window kv u') × (u'.last_block_height ≡ u.last_block_height - 1)
        × (win'.lowest ≡ win.lowest)
  undo-inside u win unsp room =
      let (v, here, w) = win.inside u.last_block_height (omega (arith, room)) (omega arith) in
      let (parent, parent_here, w') =
        win.inside (u.last_block_height - 1) (omega (arith, room)) (omega arith) in
      let cut = cut-Written parent w' in
      let not_empty : 0 < u.last_block_height = omega (arith, room) in
      (
        shorter kv laws u win parent w'.hash parent_here cut not_empty,
        replay_of u win unsp v here w parent parent_here w'.hash cut not_empty,
        undo-shorter u win unsp v here w parent parent_here w'.hash cut not_empty,
        (shorter-Window kv laws u win parent w'.hash parent_here cut not_empty).0,
        refl,
        (shorter-Window kv laws u win parent w'.hash parent_here cut not_empty).1,
      )

  -- The parent of the lowest record is not there.
  undo-lowest :
      (u : UnwindDb kv) (win : Window kv u) (unsp : UnspentDb kv)
      → u.last_block_height ≤ win.lowest
      → (u' : UnwindDb kv) (unsp' : UnspentDb kv)
      → undo kv u u.last_block_height unsp ≢ undone u' unsp'
  undo-lowest u win unsp end u' unsp' done =
      let (is_last, (v, here), s) = undo-undone kv u u' u.last_block_height unsp unsp' done in
      let range = stored-range kv u win u.last_block_height v here in
      let low = win.above_genesis in
      let fits = win.last_fits in
      let last : (u.last_block_height + (2 ^ 32 - 1)) % 2 ^ 32 ≡ u.last_block_height - 1 =
        omega (arith, range, low, fits) in
      let parent_here : kv.get u.tdb (u.last_block_height - 1) ≡ some s.parent =
        sym (
          laws.get_del u.tdb u.last_block_height (u.last_block_height - 1)
          ∙ ground (arith, range, low))
        ∙ (ap (kv.get (kv.del u.tdb u.last_block_height)) (sym last) ∙ s.parent_stored) in
      omega (arith, stored-range kv u win (u.last_block_height - 1) s.parent parent_here, end, low)

  undo_block_transactions-lowest :
      (db : UnspentTdb kv) (win : Window kv db.unwind) (h : ℕ)
      → h ≡ db.unwind.last_block_height
      → h ≤ win.lowest
      → undo_block_transactions kv db h ≡ none
  unfolding undo_block_transactions
  undo_block_transactions-lowest db win h is_last end =
      elim (Undone-cases (undo kv db.unwind h db.unspent)) [
        | inl (e, failed) ↦ rw (undo_block_transactions, failed) refl
        | inr (u', unsp', done) ↦ absurd (
            undo-lowest db.unwind win db.unspent (omega (arith, is_last, end)) u' unsp'
              (ap (λ n. undo kv db.unwind n db.unspent) (sym is_last) ∙ done))
      ]

  restart-returns :
      (n h : ℕ) (db : UnspentTdb kv) (win : Window kv db.unwind)
      → h ≡ db.unwind.last_block_height
      → win.lowest + n ≤ h
      → undo_at_restart kv n db h ≢ none
  unfolding undo_at_restart undo_block_transactions
  restart-returns zero h db win is_last room e = cc
  restart-returns (suc n) zero db win is_last room e = cc
  restart-returns (suc n) (suc h) db win is_last room e =
      let (u', unsp', done, win', last', same) =
        undo-inside db.unwind win db.unspent (omega (arith, is_last, room)) in
      let back : undo kv db.unwind (suc h) db.unspent ≡ undone u' unsp' =
        ap (λ m. undo kv db.unwind m db.unspent) is_last ∙ done in
      let e' = rw (undo_at_restart, undo_block_transactions, back) at e in
      restart-returns n h (record { unspent = unsp'; unwind = u' }) win'
        (omega (arith, last', is_last)) (omega (arith, same, room)) e'

  restart-panics :
      (n h : ℕ) (db : UnspentTdb kv) (win : Window kv db.unwind)
      → h ≡ db.unwind.last_block_height
      → win.lowest ≤ h
      → h < win.lowest + n
      → undo_at_restart kv n db h ≡ none
  unfolding undo_at_restart undo_block_transactions
  restart-panics zero h db win is_last above short = absurd (omega (arith, above, short))
  restart-panics (suc n) zero db win is_last above short =
      let low = win.above_genesis in absurd (omega (arith, above, low))
  restart-panics (suc n) (suc h) db win is_last above short =
      elim (Bool-cases (ltb win.lowest (suc h))) [
        | inl e ↦
            let (u', unsp', done, win', last', same) =
              undo-inside db.unwind win db.unspent (ground (arith, is_last, e)) in
            let back : undo kv db.unwind (suc h) db.unspent ≡ undone u' unsp' =
              ap (λ m. undo kv db.unwind m db.unspent) is_last ∙ done in
            rw (undo_at_restart, undo_block_transactions, back)
              (restart-panics n h (record { unspent = unsp'; unwind = u' }) win'
                (omega (arith, last', is_last)) (ground (arith, same, e))
                (omega (arith, same, short)))
        | inr e ↦
            rw
              (
                undo_at_restart,
                undo_block_transactions-lowest db win (suc h) is_last (ground (arith, e)),
              )
              refl
      ]

-- With at least one block committed, the last n blocks can be taken back exactly if the record of the
-- n-th block below the last is still kept.
pub restart_iff :
    (kv : Kv) (laws : KvLaws kv) (n : ℕ) (db : UnspentTdb kv)
    → Reachable kv db.unwind
    → 0 < db.unwind.last_block_height
    → (undo_at_restart kv n db db.unwind.last_block_height ≢ none)
      ↔ (kv.get db.unwind.tdb (db.unwind.last_block_height - n) ≢ none)
restart_iff kv laws n db r above =
    let win = reachable-Window kv laws db.unwind r in
    let last = db.unwind.last_block_height in
    let kept = win.kept above in
    let low = win.above_genesis in
    (
      λ returns gone. elim (Bool-cases (ltb last (win.lowest + n))) [
        | inl e ↦ returns (restart-panics kv laws n last db win refl kept (ground (arith, e)))
        | inr e ↦ let (v, here, w) = win.inside (last - n) (ground (arith, e)) (omega arith) in cc
      ],
      λ there. elim (Bool-cases (ltb last (win.lowest + n))) [
        | inl e ↦ absurd (there (win.below (last - n) (ground (arith, e, low))))
        | inr e ↦ restart-returns kv laws n last db win refl (ground (arith, e))
      ],
    )
