-- ===== src/Qdb/Unwind/Window/Commit.antt =====
-- A commit leads from a window to a window.
use mathlib.Core.Option.{some-injective}
use yoin.Base.{
  ℕ, suc, ◌+◌, ◌%◌, ◌^◌, ◌≤◌, ◌<◌, ◌≡◌, refl, sym, ap, ◌∙◌, ◌⊎◌, inl, inr, none, some, ltb, ◌==◌,
  if◌then◌else◌, arith, Bool-cases, Option-cases, ==_iff,
}
use yoin.Bytes.{Bytes, prefix?}
use yoin.Bytes.Laws.{prefix?-append, length-prefix?}
use yoin.Chain.Commit.{BlockChangeEvent}
use yoin.Qdb.Store.{Kv, KvLaws}
use yoin.Qdb.Unwind.{UnwindDb, unwind_buffer_max_history, commit}
use yoin.Qdb.Unwind.Committed.{
  committed_unwind, block_record, commit_lem, get-committed, get-committed_new, get-committed_other,
}
use yoin.Qdb.Unwind.Window.{ChangesFit, Window}

module _ (kv : Kv) (laws : KvLaws kv) where
  module _ (u : UnwindDb kv) (win : Window kv u) (c : BlockChangeEvent) (blhash hash : Bytes)
      (cut : prefix? 32 blhash ≡ some hash) (next : (u.last_block_height + 1) % 2 ^ 32 ≡ c.height)
      (fit : ChangesFit c) (not_genesis : 0 < c.height) where
    abbrev u' : UnwindDb kv
    u' = committed_unwind kv laws u c blhash hash cut next

    follows : c.height ≡ suc u.last_block_height
    follows = let fits = win.last_fits in omega (arith, next, not_genesis, fits)

    -- The one that falls out of the history, if any.
    abbrev lowest' : ℕ
    lowest' =
        if ltb c.height (win.lowest + unwind_buffer_max_history) then win.lowest else suc win.lowest

    still_bounded :
        (c.height < lowest' + unwind_buffer_max_history)
        × (win.lowest ≤ lowest')
        × (lowest' ≤ c.height)
    still_bounded = let b = win.bounded in let r = win.reaches in ground (arith, b, r, follows)

    gone-committed :
        (k : ℕ)
        → (k ≡ c.height → ⊥)
        → (c.height ≡ k + unwind_buffer_max_history) ⊎ (kv.get u.tdb k ≡ none)
        → kv.get u'.tdb k ≡ none
    gone-committed k other h =
        get-committed kv laws u c blhash hash cut next k
        ∙ elim h [ inl e ↦ ground (arith, other, e) | inr e ↦ rw e (ground (arith, other)) ]

    pub committed-Window : Window kv u'
    committed-Window = record {
      lowest = lowest';
      above_genesis = let b = win.above_genesis in omega (arith, still_bounded, b);
      reaches = omega (arith, still_bounded);
      kept = λ _. still_bounded.2;
      bounded = still_bounded.0;
      last_fits = omega (arith, next);
      inside = λ k low high. elim (Bool-cases (k == c.height)) [
        | inl e ↦ (
          block_record kv laws u c blhash hash cut next,
          ap (kv.get u'.tdb) ((==_iff _ _).0 e)
              ∙ get-committed_new kv laws u c blhash hash cut next,
          record {
            hash = hash;
            added = c.added_txs;
            deleted = c.deleted_txs;
            hash_length = length-prefix? 32 blhash hash cut;
            is_written = refl;
            added_fit = fit.added_fit;
            deleted_fit = fit.deleted_fit;
            outputs_fit = fit.outputs_fit;
          },
        )
        | inr e ↦
            let other : k ≡ c.height → ⊥ = λ h. ground (arith, e, h) in
            let (v, here, written) =
              win.inside k (omega (arith, still_bounded, low))
                (omega (arith, other, high, follows)) in
            (
              v,
              get-committed_other kv laws u c blhash hash cut next k other
                    (omega (arith, still_bounded, low))
                  ∙ here,
              written,
            )
      ];
      below = λ k low.
          gone-committed k (λ e. omega (arith, e, low, still_bounded))
            (elim (Bool-cases (ltb k win.lowest)) [
              | inl e ↦ inr (win.below k (ground (arith, e)))
              | inr e ↦ let b = win.bounded in inl (ground (arith, e, low, b, follows))
            ]);
      above = λ k high.
          gone-committed k (λ e. omega (arith, e, high))
            (inr (win.above k (omega (arith, high, follows))));
      last_hash = λ v here.
          let e =
            some-injective _ _ (sym here ∙ get-committed_new kv laws u c blhash hash cut next) in
          ap (prefix? 32) e ∙ prefix?-append 32 hash _ (length-prefix? 32 blhash hash cut);
      no_hash = λ e. absurd (omega (arith, e, not_genesis));
    }

  -- A commit that returns is of this form.
  pub commit-some :
      (u v : UnwindDb kv) (c : BlockChangeEvent) (blhash : Bytes)
      → commit kv u c blhash ≡ some v
      → (hash : Bytes) × (cut : prefix? 32 blhash ≡ some hash) × (next : (u.last_block_height + 1)
            % 2 ^ 32
          ≡ c.height)
        × (committed_unwind kv laws u c blhash hash cut next ≡ v)
  unfolding commit
  commit-some u v c blhash h = elim (Bool-cases ((u.last_block_height + 1) % 2 ^ 32 == c.height)) [
    | inr e ↦ let h' = rw (commit, e) at h in cc
    | inl e ↦ elim (Option-cases (prefix? 32 blhash)) [
      | inl e' ↦ let h' = rw (commit, e, e') at h in cc
      | inr (hash, cut) ↦
          let next = (==_iff _ _).0 e in
          (
            hash,
            cut,
            next,
            some-injective _ _ (sym (commit_lem kv laws u c blhash hash cut next) ∙ h),
          )
    ]
  ]
