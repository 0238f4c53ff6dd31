-- ===== src/Qdb/Outputs/View.antt =====
-- The database as a map from outputs to what is read: what a reader sees of a commit.
use yoin.Base.{
  ℕ, ◌^◌, ◌<◌, ◌≡◌, refl, ap, ◌∙◌, [], ◌∷◌, Option, some, if◌then◌else◌, inl, inr, Bool-cases,
}
use yoin.Bytes.{Bytes}
use yoin.Tx.{TxPrevOut}
use yoin.Chain.Commit.{TxMap, BlockChangeEvent}
use yoin.Qdb.Store.{Kv, KvLaws}
use yoin.Qdb.Spent.RoundTrip.{KeysFit, OutputsFit}
use yoin.Qdb.Outputs.{
  unspent_index, slot, unspent_record, Got, found, not_found, read_unspent, UnspentDb, at, get,
  add_all, commit,
}
use yoin.Qdb.Outputs.Slots.{stands_at, hits, written, at-add_all, at-del_all}
use yoin.Qdb.Outputs.Restored.{read_unspent-unspent_record}

abbrev HeightsFit : TxMap → Type 0
HeightsFit [] = Unit
HeightsFit ((po, to) ∷ m) = (to.block_height < 2 ^ 32) × HeightsFit m

-- What is read at a place once the outputs of the map are added.
unfoldable pub seen : ℕ → ℕ → TxMap → Got → Got
unfolding stands_at
seen i k [] g = g
seen i k ((po, to) ∷ m) g = seen i k m (if stands_at i k po then found to else g)

read-seen :
    (i k : ℕ) (m : TxMap) (d : Option Bytes)
    → KeysFit m
    → OutputsFit m
    → HeightsFit m
    → read_unspent (written i k m d) ≡ seen i k m (read_unspent d)
unfolding written seen
read-seen i k [] d keys outs heights = refl
read-seen i k ((po, to) ∷ m) d keys outs heights =
    let e =
      read-seen i k m (if stands_at i k po then some (unspent_record po to) else d) keys.1 outs.1
        heights.1 in
    e
    ∙ ap (seen i k m) (elim (Bool-cases (stands_at i k po)) [
      | inl e ↦ rw e (read_unspent-unspent_record po to keys.0 outs.0 heights.0)
      | inr e ↦ rw e refl
    ])

-- A commit adds the added outputs, and then deletes the deleted ones, each at its place.
pub get-commit :
    (kv : Kv) (laws : KvLaws kv) (db : UnspentDb kv) (c : BlockChangeEvent) (q : TxPrevOut)
    → KeysFit c.added_txs
    → OutputsFit c.added_txs
    → HeightsFit c.added_txs
    → get kv (commit kv db c) q ≡ (
        if hits (slot q) (unspent_index q) c.deleted_txs
        then not_found
        else seen (slot q) (unspent_index q) c.added_txs (get kv db q))
unfolding get commit read_unspent
get-commit kv laws db c q keys outs heights =
    let i = slot q in
    let k = unspent_index q in
    ap read_unspent (at-del_all kv laws c.deleted_txs (add_all kv db c.added_txs) i k)
    ∙ elim (Bool-cases (hits i k c.deleted_txs)) [
      | inl e ↦ rw e refl
      | inr e ↦
          rw (e, at-add_all kv laws c.added_txs db i k)
            (read-seen i k c.added_txs (at kv db i k) keys outs heights)
    ]
