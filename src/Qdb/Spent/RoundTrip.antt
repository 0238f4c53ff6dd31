-- ===== src/Qdb/Spent/RoundTrip.antt =====
-- Reading back the records of the unwind data.
use yoin.Base.{
  take-append, drop-append, ℕ, ◌-◌, ◌^◌, ◌≤◌, ◌<◌, ◌≡◌, refl, sym, ap, ◌∙◌, false, [], ◌∷◌, ◌++◌,
  Option, none, some, ltb, ◌==◌, if◌then◌else◌, length, drop, length-append, append_assoc,
  append-nil, arith, le→ltb_false,
}
use yoin.Bytes.{Bytes, le_bytes}
use yoin.Bytes.Laws.{length-le_bytes, le_value-le_bytes}
use yoin.Tx.{TxPrevOut, TxOut}
use yoin.Chain.Commit.{TxMap}
use yoin.Qdb.Spent.{write_spent, record_read, read_spent, read_deleted, read_padded}

-- The fields have the sizes of their types; the length of the script is written in 32 bits.
pub record OutPointFits (po : TxPrevOut) : Type 0 where
  pub hash_length : length po.pre_out_tx_hash ≡ 32
  pub index_fits : po.out_idx_in_tx < 2 ^ 32

pub record SpentFits (to : TxOut) : Type 0 where
  pub value_fits : to.value < 2 ^ 64
  pub script_fits : length to.script_pub_key < 2 ^ 32

-- The output as it is read back.
abbrev pub without_height : TxOut → TxOut
without_height to = record to { block_height = 0 }

abbrev pub Fits : Option TxOut → Type 0
Fits none = Unit
Fits (some to) = SpentFits to

abbrev pub as_read : Option TxOut → Option TxOut
as_read none = none
as_read (some to) = some (without_height to)

-- The keys and the outputs have the sizes of their types.
abbrev pub KeysFit : TxMap → Type 0
KeysFit [] = Unit
KeysFit ((po, to) ∷ m) = OutPointFits po × KeysFit m

abbrev pub OutputsFit : TxMap → Type 0
OutputsFit [] = Unit
OutputsFit ((po, to) ∷ m) = SpentFits to × OutputsFit m

-- The outputs as they are read back.
unfoldable pub without_heights : TxMap → TxMap
without_heights [] = []
without_heights ((po, to) ∷ m) = (po, without_height to) ∷ without_heights m

read_padded-append : (s rest : Bytes) → read_padded (length s) (s ++ rest) ≡ s
unfolding read_padded
read_padded-append s rest =
    let none_missing : length s - length (s ++ rest) ≡ 0 = omega (arith, length-append s rest) in
    rw (take-append (length s) s rest refl, none_missing) (append-nil s)

read_deleted_lem :
    (po : TxPrevOut) (to : TxOut) (rest : Bytes)
    → SpentFits to
    → read_deleted po (
        le_bytes 8 to.value
        ++ (le_bytes 4 (length to.script_pub_key) ++ (to.script_pub_key ++ rest)))
      ≡ record_read po (some (without_height to)) rest
unfolding read_deleted
read_deleted_lem po to rest fits =
    let s = to.script_pub_key in
    let v = le_bytes 8 to.value in
    let m = le_bytes 4 (length s) in
    let lv = length-le_bytes 8 to.value in
    let lm = length-le_bytes 4 (length s) in
    let long : ltb (length (v ++ (m ++ (s ++ rest)))) 12 ≡ false =
      le→ltb_false _ _
        (omega (arith, length-append v (m ++ (s ++ rest)), length-append m (s ++ rest), lv, lm)) in
    let behind : drop 12 (v ++ (m ++ (s ++ rest))) ≡ s ++ rest =
      ap (drop 12) (sym (append_assoc v m (s ++ rest)))
      ∙ drop-append 12 (v ++ m) (s ++ rest) (omega (arith, length-append v m, lv, lm)) in
    rw
      (
        long,
        take-append 8 v (m ++ (s ++ rest)) lv,
        drop-append 8 v (m ++ (s ++ rest)) lv,
        take-append 4 m (s ++ rest) lm,
        le_value-le_bytes 8 to.value fits.value_fits,
        le_value-le_bytes 4 (length s) fits.script_fits,
        behind,
        read_padded-append s rest,
        drop-append (length s) s rest refl,
      )
      refl

-- The fields in front of a record, as they are cut out.
module _ (po : TxPrevOut) (fits : OutPointFits po) (rest : Bytes) where
  read_spent-head :
      (tag : ℕ)
      → tag ≤ 1
      → read_spent (tag ∷ (po.pre_out_tx_hash ++ (le_bytes 4 po.out_idx_in_tx ++ rest)))
        ≡ (if tag == 0 then read_deleted po rest else record_read po none rest)
  unfolding read_spent
  read_spent-head tag small =
      let h = po.pre_out_tx_hash in
      let i = le_bytes 4 po.out_idx_in_tx in
      let li = length-le_bytes 4 po.out_idx_in_tx in
      let long : ltb (length (tag ∷ (h ++ (i ++ rest)))) 37 ≡ false =
        le→ltb_false _ _ (
          omega (arith, length-append h (i ++ rest), length-append i rest, li, fits.hash_length)) in
      let known : ltb 1 tag ≡ false = le→ltb_false _ _ small in
      let behind : drop 36 (h ++ (i ++ rest)) ≡ rest =
        ap (drop 36) (sym (append_assoc h i rest))
        ∙ drop-append 36 (h ++ i) rest (omega (arith, length-append h i, li, fits.hash_length)) in
      rw
        (
          long,
          known,
          take-append 32 h (i ++ rest) fits.hash_length,
          drop-append 32 h (i ++ rest) fits.hash_length,
          take-append 4 i rest li,
          le_value-le_bytes 4 po.out_idx_in_tx fits.index_fits,
          behind,
        )
        refl

-- Whatever follows it, a record that was written is read back, an output without its height.
pub read-write_spent :
    (po : TxPrevOut) (to : Option TxOut) (rest : Bytes)
    → OutPointFits po
    → Fits to
    → read_spent (write_spent po to ++ rest) ≡ record_read po (as_read to) rest
unfolding write_spent
read-write_spent po none rest fits _ =
    let e = append_assoc po.pre_out_tx_hash (le_bytes 4 po.out_idx_in_tx) rest in
    rw e (read_spent-head po fits rest 1 (omega arith))
read-write_spent po (some to) rest fits fits' =
    let tail =
      le_bytes 8 to.value
      ++ (le_bytes 4 (length to.script_pub_key) ++ (to.script_pub_key ++ rest)) in
    simp append_assoc
      (read_spent-head po fits tail 0 (omega arith) ∙ read_deleted_lem po to rest fits')
