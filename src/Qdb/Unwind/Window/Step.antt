-- ===== src/Qdb/Unwind/Window/Step.antt =====
-- An undo leads from a window to a window, and so does every step.
use mathlib.Core.Path.{subst}
use mathlib.Core.Option.{some-injective}
use yoin.Base.{
  ℕ, ◌+◌, ◌-◌, ◌%◌, ◌^◌, ◌<◌, ◌≡◌, refl, sym, ap, ◌∙◌, inl, inr, none, some, ◌==◌, replicate, arith,
  Bool-cases,
}
use yoin.Bytes.{Bytes, prefix?}
use yoin.Qdb.Store.{Kv, KvLaws}
use yoin.Qdb.Outputs.{UnspentDb}
use yoin.Qdb.Unwind.{UnwindDb, undo, undone, new_unwind_db}
use yoin.Qdb.Unwind.Returns.{undo-undone}
use yoin.Qdb.Unwind.Window.{Reachable, opened, committed, taken_back, reopened, Window}
use yoin.Qdb.Unwind.Window.Reopen.{stored-range, new_unwind_db-Window}
use yoin.Qdb.Unwind.Window.Commit.{committed-Window, commit-some}

module _ (kv : Kv) (laws : KvLaws kv) where
  -- One block less.
  module _ (u : UnwindDb kv) (win : Window kv u) (parent hash : Bytes)
      (parent_here : kv.get u.tdb (u.last_block_height - 1) ≡ some parent)
      (parent_cut : prefix? 32 parent ≡ some hash) (not_empty : 0 < u.last_block_height) where
    abbrev pub shorter : UnwindDb kv
    shorter = record {
      tdb = kv.del u.tdb u.last_block_height;
      last_block_height = u.last_block_height - 1;
      last_block_hash = hash;
    }

    get-shorter : (k : ℕ) → k < u.last_block_height → kv.get shorter.tdb k ≡ kv.get u.tdb k
    get-shorter k h = laws.get_del u.tdb u.last_block_height k ∙ ground (arith, h)

    pub shorter-Window : (win' : Window kv shorter) × (win'.lowest ≡ win.lowest)
    shorter-Window =
        let range = stored-range kv u win (u.last_block_height - 1) parent parent_here in
        let low = win.above_genesis in
        (
          record {
            lowest = win.lowest;
            above_genesis = low;
            reaches = omega (arith, range);
            kept = λ _. range.0;
            bounded = let b = win.bounded in omega (arith, b);
            last_fits = let b = win.last_fits in omega (arith, b);
            inside = λ k from to.
                let (v, here, written) = win.inside k from (omega (arith, to)) in
                (v, get-shorter k (omega (arith, to, not_empty)) ∙ here, written);
            below = λ k h. get-shorter k (omega (arith, h, range, not_empty)) ∙ win.below k h;
            above = λ k h.
                laws.get_del u.tdb u.last_block_height k
                ∙ elim (Bool-cases (k == u.last_block_height)) [
                  | inl e ↦ rw e refl
                  | inr e ↦ rw e (win.above k (ground (arith, e, h)))
                ];
            last_hash = λ v here.
                ap (prefix? 32) (
                  some-injective _ _
                    (sym here ∙ (get-shorter _ (omega (arith, not_empty)) ∙ parent_here)))
                ∙ parent_cut;
            no_hash = λ e. absurd (omega (arith, e, range, low));
          },
          refl,
        )

  module _ (u u' : UnwindDb kv) (win : Window kv u) (unsp unsp' : UnspentDb kv) (height : ℕ)
      (done : undo kv u height unsp ≡ undone u' unsp') where
    taken_back-Window : Window kv u'
    taken_back-Window =
        let (is_last, (v, here), s) = undo-undone kv u u' height unsp unsp' done in
        let range = stored-range kv u win height v here in
        let low = win.above_genesis in
        let fits = win.last_fits in
        let not_empty : 0 < u.last_block_height = omega (arith, range, low) in
        let last : (u.last_block_height + (2 ^ 32 - 1)) % 2 ^ 32 ≡ u.last_block_height - 1 =
          omega (arith, not_empty, fits) in
        let parent_here : kv.get u.tdb (u.last_block_height - 1) ≡ some s.parent =
          sym (
            laws.get_del u.tdb height (u.last_block_height - 1)
            ∙ ground (arith, is_last, not_empty))
          ∙ (ap (kv.get (kv.del u.tdb height)) (sym last) ∙ s.parent_stored) in
        let same : shorter u win s.parent s.hash parent_here s.parent_cut not_empty ≡ u' =
          ap
            (λ n. record {
              tdb = kv.del u.tdb n;
              last_block_height = u.last_block_height - 1;
              last_block_hash = s.hash;
            })
            (sym is_last)
          ∙ (ap
                (λ n. record {
                  tdb = kv.del u.tdb height;
                  last_block_height = n;
                  last_block_hash = s.hash;
                })
                (sym last)
              ∙ s.stepped) in
        subst (Window kv) same
          (shorter-Window u win s.parent s.hash parent_here s.parent_cut not_empty).0

  module _ (d : kv.Db) (empty : (k : ℕ) → kv.get d k ≡ none) where
    abbrev fresh : UnwindDb kv
    fresh = record { tdb = d; last_block_height = 0; last_block_hash = replicate 32 0 }

    fresh-Window : Window kv fresh
    fresh-Window = record {
      lowest = 1;
      above_genesis = omega arith;
      reaches = omega arith;
      kept = λ h. absurd (omega (arith, h));
      bounded = omega arith;
      last_fits = omega arith;
      inside = λ k from to. absurd (omega (arith, from, to));
      below = λ k h. empty k;
      above = λ k h. empty k;
      last_hash = λ v here. let gone = empty 0 in cc;
      no_hash = λ _. refl;
    }

    opened-Window : (u : UnwindDb kv) → new_unwind_db kv d ≡ some u → Window kv u
    opened-Window u e =
        subst (Window kv)
          (some-injective _ _ (sym (new_unwind_db-Window kv fresh fresh-Window laws) ∙ e))
          fresh-Window

  -- The records that are kept.
  pub reachable-Window : (u : UnwindDb kv) → Reachable kv u → Window kv u
  reachable-Window u (opened d empty e) = opened-Window d empty u e
  reachable-Window u (committed c blhash r fit not_genesis e) =
      let (hash, cut, next, same) = commit-some kv laws _ u c blhash e in
      subst (Window kv) same
        (committed-Window kv laws _ (reachable-Window _ r) c blhash hash cut next fit not_genesis)
  reachable-Window u (taken_back height unsp r e) =
      taken_back-Window _ u (reachable-Window _ r) unsp _ height e
  reachable-Window u (reopened r e) =
      subst (Window kv)
        (some-injective _ _ (sym (new_unwind_db-Window kv _ (reachable-Window _ r) laws) ∙ e))
        (reachable-Window _ r)
