-- ===== src/Qdb/Outputs/Slots.antt =====
-- What the operations of the outputs' database do to the value at slot `i` and key `k`.
use yoin.Base.{
  ℕ, ◌≡◌, refl, ap, ◌∙◌, Bool, true, false, ◌&&◌, ◌||◌, [], ◌∷◌, Option, none, some, ◌==◌,
  if◌then◌else◌, inl, inr, if-same, Bool-cases, ==_iff,
}
use yoin.Bytes.{Bytes}
use yoin.Tx.{TxPrevOut, TxOut}
use yoin.Chain.Commit.{TxMap}
use yoin.Qdb.Store.{Kv, KvLaws}
use yoin.Qdb.Outputs.{
  unspent_index, slot, unspent_record, UnspentDb, set_db, at, add, del, add_all, del_all,
}

-- The output's place.
unfoldable pub stands_at : ℕ → ℕ → TxPrevOut → Bool
unfolding unspent_index slot
stands_at i k po = i == slot po && k == unspent_index po

-- Whether a key of the map has this place.
unfoldable pub hits : ℕ → ℕ → TxMap → Bool
hits i k [] = false
hits i k ((po, to) ∷ m) = stands_at i k po || hits i k m

-- The value here after the outputs of the map have been stored one by one.
unfoldable pub written : ℕ → ℕ → TxMap → Option Bytes → Option Bytes
written i k [] d = d
written i k ((po, to) ∷ m) d =
    written i k m (if stands_at i k po then some (unspent_record po to) else d)

module _ (kv : Kv) where
  get-if :
      (b : Bool) (d d' : kv.Db) (k : ℕ)
      → kv.get (if b then d else d') k ≡ (if b then kv.get d k else kv.get d' k)
  get-if true d d' k = refl
  get-if false d d' k = refl

  at-set :
      (db : UnspentDb kv) (s : ℕ) (d : kv.Db) (i k : ℕ)
      → at kv (set_db kv db s d) i k ≡ (if i == s then kv.get d k else at kv db i k)
  at-set db s d i k = get-if (i == s) d (db i) k

-- One store is changed under one key.
module _ (kv : Kv) (db : UnspentDb kv) (s j : ℕ) (d : kv.Db) (o : Option Bytes)
    (changed : (k : ℕ) → kv.get d k ≡ (if k == j then o else kv.get (db s) k)) where
  at-change :
      (i k : ℕ) → at kv (set_db kv db s d) i k ≡ (if i == s && k == j then o else at kv db i k)
  at-change i k = at-set kv db s d i k ∙ elim (Bool-cases (i == s)) [
    | inl e ↦ rw (e, changed k, (==_iff i s).0 e) refl
    | inr e ↦ rw e refl
  ]

module _ (kv : Kv) (laws : KvLaws kv) where
  at-add :
      (db : UnspentDb kv) (po : TxPrevOut) (to : TxOut) (i k : ℕ)
      → at kv (add kv db po to) i k
        ≡ (if stands_at i k po then some (unspent_record po to) else at kv db i k)
  unfolding add stands_at
  at-add db po to =
      at-change kv db (slot po) (unspent_index po) _ _
        (laws.get_put (db (slot po)) (unspent_index po) (unspent_record po to))

  at-del :
      (db : UnspentDb kv) (po : TxPrevOut) (i k : ℕ)
      → at kv (del kv db po) i k ≡ (if stands_at i k po then none else at kv db i k)
  unfolding del stands_at
  at-del db po =
      at-change kv db (slot po) (unspent_index po) _ _
        (laws.get_del (db (slot po)) (unspent_index po))

  pub at-add_all :
      (m : TxMap) (db : UnspentDb kv) (i k : ℕ)
      → at kv (add_all kv db m) i k ≡ written i k m (at kv db i k)
  unfolding add_all written
  at-add_all [] db i k = refl
  at-add_all ((po, to) ∷ m) db i k =
      at-add_all m (add kv db po to) i k ∙ ap (written i k m) (at-add db po to i k)

  pub at-del_all :
      (m : TxMap) (db : UnspentDb kv) (i k : ℕ)
      → at kv (del_all kv db m) i k ≡ (if hits i k m then none else at kv db i k)
  unfolding del_all hits
  at-del_all [] db i k = refl
  at-del_all ((po, to) ∷ m) db i k = elim (Bool-cases (stands_at i k po)) [
    | inl e ↦ rw (at-del_all m (del kv db po) i k, at-del db po i k, e) (if-same (hits i k m) none)
    | inr e ↦ rw (at-del_all m (del kv db po) i k, at-del db po i k, e) refl
  ]
