-- ===== src/Qdb/Outputs/Restored.antt =====
-- Taking a commit back: the outputs that it added are deleted, and those that it deleted are added
-- as the unwind data has them.
use yoin.Base.{
  take-append, drop-append, ℕ, ◌^◌, ◌<◌, ◌≡◌, refl, sym, ap, ◌∙◌, true, false, [], ◌∷◌, ◌++◌,
  Option, some, ltb, if◌then◌else◌, inl, inr, if-same, Bool-cases, arith, length, drop,
  length-append, append_assoc, le→ltb_false,
}
use yoin.Bytes.{Bytes, le_bytes}
use yoin.Bytes.Laws.{length-le_bytes, le_value-le_bytes}
use yoin.Tx.{TxPrevOut, TxOut}
use yoin.Chain.Commit.{TxMap, BlockChangeEvent}
use yoin.Qdb.Store.{Kv, KvLaws}
use yoin.Qdb.Spent.RoundTrip.{
  OutPointFits, SpentFits, without_height, KeysFit, OutputsFit, without_heights,
}
use yoin.Qdb.Outputs.{
  unspent_index, slot, unspent_record, Got, found, not_found, too_short, read_unspent, UnspentDb,
  at, get, add_all, del_all, commit,
}
use yoin.Qdb.Outputs.Slots.{stands_at, hits, written, at-add_all, at-del_all}

module _ (po : TxPrevOut) (to : TxOut) (key_fits : OutPointFits po) (fits : SpentFits to)
    (height_fits : to.block_height < 2 ^ 32) where
  pub read_unspent-unspent_record : read_unspent (some (unspent_record po to)) ≡ found to
  unfolding read_unspent unspent_record
  read_unspent-unspent_record =
      let h = po.pre_out_tx_hash in
      let i = le_bytes 4 po.out_idx_in_tx in
      let v = le_bytes 8 to.value in
      let b = le_bytes 4 to.block_height in
      let s = to.script_pub_key in
      let li = length-le_bytes 4 po.out_idx_in_tx in
      let lv = length-le_bytes 8 to.value in
      let lb = length-le_bytes 4 to.block_height in
      let long : ltb (length (h ++ (i ++ (v ++ (b ++ s))))) 48 ≡ false = le→ltb_false _ _ (
        omega (
          arith,
          length-append h (i ++ (v ++ (b ++ s))),
          length-append i (v ++ (b ++ s)),
          length-append v (b ++ s),
          length-append b s,
          li,
          lv,
          lb,
          key_fits.hash_length,
        )) in
      let e36 : drop 36 (h ++ (i ++ (v ++ (b ++ s)))) ≡ v ++ (b ++ s) =
        ap (drop 36) (sym (append_assoc h i (v ++ (b ++ s))))
        ∙ drop-append 36 (h ++ i) (v ++ (b ++ s))
            (omega (arith, length-append h i, li, key_fits.hash_length)) in
      let assoc44 : h ++ (i ++ (v ++ (b ++ s))) ≡ (h ++ (i ++ v)) ++ (b ++ s) = simp append_assoc in
      let assoc48 : h ++ (i ++ (v ++ (b ++ s))) ≡ (h ++ (i ++ (v ++ b))) ++ s = simp append_assoc in
      let e44 : drop 44 (h ++ (i ++ (v ++ (b ++ s)))) ≡ b ++ s =
        ap (drop 44) assoc44
        ∙ drop-append 44 (h ++ (i ++ v)) (b ++ s) (
            omega
              (arith, length-append h (i ++ v), length-append i v, li, lv, key_fits.hash_length)) in
      let e48 : drop 48 (h ++ (i ++ (v ++ (b ++ s)))) ≡ s =
        ap (drop 48) assoc48
        ∙ drop-append 48 (h ++ (i ++ (v ++ b))) s (
            omega (
              arith,
              length-append h (i ++ (v ++ b)),
              length-append i (v ++ b),
              length-append v b,
              li,
              lv,
              lb,
              key_fits.hash_length,
            )) in
      rw
        (
          long,
          e36,
          e44,
          e48,
          take-append 8 v (b ++ s) lv,
          take-append 4 b s lb,
          le_value-le_bytes 8 to.value fits.value_fits,
          le_value-le_bytes 4 to.block_height height_fits,
        )
        refl

-- An output as the unwind data brings it back.
abbrev pub forget_height : Got → Got
forget_height (found to) = found (without_height to)
forget_height not_found = not_found
forget_height too_short = too_short

written-missed : (i k : ℕ) (m : TxMap) (d : Option Bytes) → hits i k m ≡ false → written i k m d ≡ d
unfolding hits written
written-missed i k [] d h = refl
written-missed i k ((po, to) ∷ m) d h = elim (Bool-cases (stands_at i k po)) [
  | inl e ↦ let h' : true ≡ false = rw e at h in cc
  | inr e ↦ let h' : hits i k m ≡ false = rw e at h in rw e (written-missed i k m d h')
]

module _ (kv : Kv) where
  abbrev pub Stored : UnspentDb kv → TxMap → Type 0
  Stored db [] = Unit
  Stored db ((po, to) ∷ m) = (get kv db po ≡ found to) × Stored db m

  abbrev pub Absent : UnspentDb kv → TxMap → Type 0
  Absent db [] = Unit
  Absent db ((po, to) ∷ m) = (get kv db po ≡ not_found) × Absent db m

  -- The place decides what is read.
  read-stands_at :
      (db : UnspentDb kv) (i k : ℕ) (po : TxPrevOut)
      → stands_at i k po ≡ true
      → read_unspent (at kv db i k) ≡ get kv db po
  unfolding get stands_at
  read-stands_at db i k po h =
      let e : (i ≡ slot po) × (k ≡ unspent_index po) = ground (arith, h) in rw (e.0, e.1) refl

  read-written :
      (db : UnspentDb kv) (i k : ℕ) (m : TxMap) (d : Option Bytes)
      → KeysFit m
      → OutputsFit m
      → Stored db m
      → read_unspent (written i k (without_heights m) d)
        ≡ (if hits i k m then forget_height (read_unspent (at kv db i k)) else read_unspent d)
  unfolding hits written without_heights
  read-written db i k [] d keys outs stored = refl
  read-written db i k ((po, to) ∷ m) d keys outs stored =
      let d' = if stands_at i k po then some (unspent_record po (without_height to)) else d in
      read-written db i k m d' keys.1 outs.1 stored.1 ∙ elim (Bool-cases (stands_at i k po)) [
        | inl e ↦
            let back =
              read_unspent-unspent_record po (without_height to) keys.0
                (record { value_fits = outs.0.value_fits; script_fits = outs.0.script_fits })
                (omega arith) in
            let here : read_unspent (at kv db i k) ≡ found to =
              read-stands_at db i k po e ∙ stored.0 in
            rw (e, back, here) (if-same (hits i k m) _)
        | inr e ↦ rw e refl
      ]

  read-Absent :
      (db : UnspentDb kv) (i k : ℕ) (m : TxMap)
      → Absent db m
      → hits i k m ≡ true
      → read_unspent (at kv db i k) ≡ not_found
  unfolding hits
  read-Absent db i k [] absent h = cc
  read-Absent db i k ((po, to) ∷ m) absent h = elim (Bool-cases (stands_at i k po)) [
    | inl e ↦ read-stands_at db i k po e ∙ absent.0
    | inr e ↦ let h' : hits i k m ≡ true = rw e at h in read-Absent db i k m absent.1 h'
  ]

module _ (kv : Kv) (laws : KvLaws kv) (db : UnspentDb kv) (c : BlockChangeEvent)
    (keys : KeysFit c.deleted_txs) (outs : OutputsFit c.deleted_txs)
    (stored : Stored kv db c.deleted_txs) (absent : Absent kv db c.added_txs) where
  abbrev taken_back : UnspentDb kv
  taken_back = add_all kv (del_all kv (commit kv db c) c.added_txs) (without_heights c.deleted_txs)

  -- Where no output was deleted.
  read-untouched :
      (i k : ℕ)
      → hits i k c.deleted_txs ≡ false
      → read_unspent (at kv (del_all kv (commit kv db c) c.added_txs) i k)
        ≡ read_unspent (at kv db i k)
  unfolding commit read_unspent
  read-untouched i k missed = elim (Bool-cases (hits i k c.added_txs)) [
    | inl e ↦
        rw (at-del_all kv laws c.added_txs (commit kv db c) i k, e)
          (sym (read-Absent kv db i k c.added_txs absent e))
    | inr e ↦
        rw
          (
            at-del_all kv laws c.added_txs (commit kv db c) i k,
            e,
            at-del_all kv laws c.deleted_txs (add_all kv db c.added_txs) i k,
            missed,
            at-add_all kv laws c.added_txs db i k,
            written-missed i k c.added_txs (at kv db i k) e,
          )
          refl
  ]

  pub get-taken_back :
      (q : TxPrevOut)
      → get kv taken_back q ≡ (
          if hits (slot q) (unspent_index q) c.deleted_txs
          then forget_height (get kv db q)
          else get kv db q)
  unfolding get
  get-taken_back q =
      let i = slot q in
      let k = unspent_index q in
      let before = del_all kv (commit kv db c) c.added_txs in
      let e = read-written kv db i k c.deleted_txs (at kv before i k) keys outs stored in
      ap read_unspent (at-add_all kv laws (without_heights c.deleted_txs) before i k)
      ∙ (e ∙ elim (Bool-cases (hits i k c.deleted_txs)) [
        | inl hit ↦ rw hit refl
        | inr missed ↦ rw missed (read-untouched i k missed)
      ])
