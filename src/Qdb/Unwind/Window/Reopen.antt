-- ===== src/Qdb/Unwind/Window/Reopen.antt =====
-- Opening the store of a window.
use mathlib.Core.Option.{some-injective}
use yoin.Base.{
  ℕ, ◌%◌, ◌^◌, ◌≤◌, ◌≡◌, refl, sym, ap, ◌∙◌, ◌⊎◌, inl, inr, List, [], ◌∷◌, ◌++◌, some, ltb, arith,
  Bool-cases,
}
use yoin.Bytes.{Bytes, prefix?}
use yoin.Bytes.Laws.{prefix?-append}
use yoin.Qdb.Store.{Kv, KvLaws, AllStored, Visits}
use yoin.Qdb.Unwind.{UnwindDb, write_added, write_deleted, browse_step, browse_all, new_unwind_db}
use yoin.Qdb.Unwind.Window.{Written, Window}

pub cut-Written : (v : Bytes) (w : Written v) → prefix? 32 v ≡ some w.hash
cut-Written v w =
    ap (prefix? 32) w.is_written
    ∙ prefix?-append 32 w.hash (write_added w.added ++ write_deleted w.deleted) w.hash_length

module _ (kv : Kv) (u : UnwindDb kv) (win : Window kv u) where
  pub stored-range :
      (k : ℕ) (v : Bytes) → kv.get u.tdb k ≡ some v → (win.lowest ≤ k) × (k ≤ u.last_block_height)
  stored-range k v h = (
    elim (Bool-cases (ltb k win.lowest)) [
      | inl e ↦ let gone = win.below k (ground (arith, e)) in cc
      | inr e ↦ ground (arith, e)
    ],
    elim (Bool-cases (ltb u.last_block_height k)) [
      | inl e ↦ let gone = win.above k (ground (arith, e)) in cc
      | inr e ↦ ground (arith, e)
    ],
  )

  -- The state of the loop in front of the records `r`.
  record Browsing (db : UnwindDb kv) (r : List (ℕ × Bytes)) : Type 0 where
    same_store : db.tdb ≡ u.tdb
    not_above : db.last_block_height ≤ u.last_block_height
    hash_if_last :
        db.last_block_height ≡ u.last_block_height → db.last_block_hash ≡ u.last_block_hash
    still_to_come :
        (db.last_block_height ≡ u.last_block_height)
        ⊎ ((v : Bytes) × Visits u.last_block_height v r)

  browse_step-Browsing :
      (db : UnwindDb kv) (k : ℕ) (v : Bytes) (r : List (ℕ × Bytes))
      → kv.get u.tdb k ≡ some v
      → Browsing db ((k, v) ∷ r)
      → (db' : UnwindDb kv) × (browse_step kv db k v ≡ some db') × Browsing db' r
  unfolding browse_step
  browse_step-Browsing db k v r stored b =
      let range = stored-range k v stored in
      let narrow : k % 2 ^ 32 ≡ k = omega (arith, range, win.last_fits) in
      elim (Bool-cases (ltb db.last_block_height k)) [
        | inl later ↦
            let (w, here, written) = win.inside k range.0 range.1 in
            let cut : prefix? 32 v ≡ some written.hash =
              ap (prefix? 32) (some-injective _ _ (sym stored ∙ here)) ∙ cut-Written w written in
            (
              record { tdb = db.tdb; last_block_height = k; last_block_hash = written.hash },
              rw (narrow, later, cut) refl,
              record {
                same_store = b.same_store;
                not_above = range.1;
                hash_if_last = λ e.
                    some-injective _ _
                      (sym cut ∙ win.last_hash v (sym (ap (kv.get u.tdb) e) ∙ stored));
                still_to_come = elim b.still_to_come [
                  | inl e ↦ absurd (ground (arith, later, e, range))
                  | inr (v', inl (e, e')) ↦ inl e
                  | inr (v', inr visits) ↦ inr (v', visits)
                ];
              },
            )
        | inr earlier ↦ (
          db,
          rw (narrow, earlier) refl,
          record {
            same_store = b.same_store;
            not_above = b.not_above;
            hash_if_last = b.hash_if_last;
            still_to_come = elim b.still_to_come [
              | inl e ↦ inl e
              | inr (v', inl (e, e')) ↦ let n = b.not_above in inl (ground (arith, earlier, e, n))
              | inr (v', inr visits) ↦ inr (v', visits)
            ];
          },
        )
      ]

  browse_all-Browsing :
      (r : List (ℕ × Bytes)) (db : UnwindDb kv)
      → AllStored kv u.tdb r
      → Browsing db r
      → browse_all kv db r ≡ some u
  unfolding browse_all
  browse_all-Browsing [] db stored b =
      let last : db.last_block_height ≡ u.last_block_height = elim b.still_to_come [
        | inl e ↦ e
        | inr (v, visits) ↦ absurd visits
      ] in
      rw (← b.same_store, ← last, ← b.hash_if_last last) refl
  browse_all-Browsing ((k, v) ∷ r) db stored b =
      let (db', e, b') = browse_step-Browsing db k v r stored.0 b in
      rw e (browse_all-Browsing r db' stored.1 b')

  pub new_unwind_db-Window : (laws : KvLaws kv) → new_unwind_db kv u.tdb ≡ some u
  unfolding new_unwind_db
  new_unwind_db-Window laws =
      browse_all-Browsing (kv.browse u.tdb) _ (laws.browse_stored u.tdb) (record {
        same_store = refl;
        not_above = omega arith;
        hash_if_last = λ e. sym (win.no_hash (sym e));
        still_to_come = elim (Bool-cases (ltb 0 u.last_block_height)) [
          | inl e ↦
              let (v, here, _) =
                win.inside u.last_block_height (win.kept (ground (arith, e))) (omega arith) in
              inr (v, laws.browse_complete u.tdb u.last_block_height v here)
          | inr e ↦ inl (ground (arith, e))
        ];
      })
