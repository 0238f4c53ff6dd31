-- ===== src/Tx/Codec/RoundTrip.antt =====
-- Decoding what the serialiser wrote.
use yoin.Base.{
  ℕ, ◌+◌, ◌^◌, ◌≤◌, ◌<◌, ◌≡◌, refl, ap, List, [], ◌∷◌, ◌++◌, Option, none, some, arith, length,
  length-append, append_assoc, All, map,
}
use yoin.Bytes.{Bytes, le_bytes, from?}
use yoin.Bytes.Laws.{
  length-le_bytes, le_value-le_bytes, prefix?-append, from?-append, slice?-field, from?-field,
}
use yoin.VarLen.{var_len_field}
use yoin.VarLen.RoundTrip.{load-var_len_field}
use yoin.Tx.{TxIn, TxOut, Tx}
use yoin.Tx.Codec.{
  serialize_tx_in, serialize_tx_out, write_all, serialize, deserialize_tx_out, deserialize_tx_in,
  read_all, deserialize_tx,
}

-- The sizes of the fields: those of their Go types, and scripts and counts that `LoadVarLen` takes.
pub record OutFits (o : TxOut) : Type 0 where
  pub value_fits : o.value < 2 ^ 64
  pub script_fits : length o.script_pub_key ≤ 0x7fffffff

pub record InFits (i : TxIn) : Type 0 where
  pub hash_length : length i.input.pre_out_tx_hash ≡ 32
  pub index_fits : i.input.out_idx_in_tx < 2 ^ 32
  pub script_fits : length i.script_sig ≤ 0x7fffffff
  pub sequence_fits : i.sequence < 2 ^ 32

pub record TxFits (t : Tx) : Type 0 where
  pub version_fits : t.version < 2 ^ 32
  pub ins_fit : All InFits t.tx_ins
  pub ins_count : length t.tx_ins ≤ 0x7fffffff
  pub outs_fit : All OutFits t.tx_outs
  pub outs_count : length t.tx_outs ≤ 0x7fffffff
  pub lock_time_fits : t.lock_time < 2 ^ 32

-- What the wire format does not carry is left at its zero value by the decoder.
abbrev pub wire_out : TxOut → TxOut
wire_out o = record o { block_height = 0 }

abbrev pub wire : Tx → Tx
wire t = record t { tx_outs = map wire_out t.tx_outs; size = 0; hash = none }

module _ (o : TxOut) (rest : Bytes) where
  deserialize-serialize_tx_out :
      OutFits o
      → deserialize_tx_out (serialize_tx_out o ++ rest)
        ≡ some (wire_out o, length (serialize_tx_out o))
  unfolding deserialize_tx_out serialize_tx_out
  deserialize-serialize_tx_out fits =
      let v = le_bytes 8 o.value in
      let f = var_len_field (length o.script_pub_key) in
      let s = o.script_pub_key in
      let b = v ++ (f ++ (s ++ rest)) in
      let e : (v ++ (f ++ s)) ++ rest ≡ b = simp append_assoc in
      let lv = length-le_bytes 8 o.value in
      let from8 = from?-append 8 v (f ++ (s ++ rest)) lv in
      let from_script = from?-field 8 (length f) b f (s ++ rest) from8 refl in
      let script = slice?-field (8 + length f) (length s) b s rest from_script refl in
      let size : 8 + length f + length s ≡ length (v ++ (f ++ s)) =
        omega (arith, length-append v (f ++ s), length-append f s, lv) in
      rw
        (
          e,
          prefix?-append 8 v (f ++ (s ++ rest)) lv,
          from8,
          load-var_len_field (length s) (s ++ rest) fits.script_fits,
          script,
          le_value-le_bytes 8 o.value fits.value_fits,
        )
        (ap (λ n. some (wire_out o, n)) size)

module _ (i : TxIn) (rest : Bytes) where
  deserialize-serialize_tx_in :
      InFits i
      → deserialize_tx_in (serialize_tx_in i ++ rest) ≡ some (i, length (serialize_tx_in i))
  unfolding deserialize_tx_in serialize_tx_in
  deserialize-serialize_tx_in fits =
      let h = i.input.pre_out_tx_hash in
      let x = le_bytes 4 i.input.out_idx_in_tx in
      let f = var_len_field (length i.script_sig) in
      let s = i.script_sig in
      let q = le_bytes 4 i.sequence in
      let b = h ++ (x ++ (f ++ (s ++ (q ++ rest)))) in
      let e : (h ++ (x ++ (f ++ (s ++ q)))) ++ rest ≡ b = simp append_assoc in
      let lx = length-le_bytes 4 i.input.out_idx_in_tx in
      let lq = length-le_bytes 4 i.sequence in
      let from32 = from?-append 32 h (x ++ (f ++ (s ++ (q ++ rest)))) fits.hash_length in
      let index = slice?-field 32 4 b x _ from32 lx in
      let from36 = from?-field 32 4 b x _ from32 lx in
      let from_script = from?-field 36 (length f) b f _ from36 refl in
      let script = slice?-field (36 + length f) (length s) b s _ from_script refl in
      let from_sequence = from?-field (36 + length f) (length s) b s _ from_script refl in
      let sequence = slice?-field (36 + length f + length s) 4 b q rest from_sequence lq in
      let size : 36 + length f + length s + 4 ≡ length (h ++ (x ++ (f ++ (s ++ q)))) = omega (
        arith,
        length-append h (x ++ (f ++ (s ++ q))),
        length-append x (f ++ (s ++ q)),
        length-append f (s ++ q),
        length-append s q,
        lx,
        lq,
        fits.hash_length,
      ) in
      rw
        (
          e,
          prefix?-append 32 h (x ++ (f ++ (s ++ (q ++ rest)))) fits.hash_length,
          index,
          from36,
          load-var_len_field (length s) (s ++ (q ++ rest)) fits.script_fits,
          script,
          sequence,
          le_value-le_bytes 4 i.input.out_idx_in_tx fits.index_fits,
          le_value-le_bytes 4 i.sequence fits.sequence_fits,
        )
        (ap (λ n. some (i, n)) size)

-- A decoder that takes back each element takes back the sequence, wherever it stands in the slice.
module _ {A : Type 0} (enc : A → Bytes) (dec : Bytes → Option (A × ℕ)) (back : A → A)
    (Fits : A → Type 0)
    (one : (x : A) (rest : Bytes)
      → Fits x
      → dec (enc x ++ rest) ≡ some (back x, length (enc x))) where
  pub read_all-write_all :
      (xs : List A) (b rest : Bytes) (offs : ℕ)
      → All Fits xs
      → from? offs b ≡ some (write_all enc xs ++ rest)
      → read_all dec (length xs) b offs ≡ some (map back xs, offs + length (write_all enc xs))
  unfolding read_all write_all
  read_all-write_all [] b rest offs _ h = ap (λ n. some ([], n)) (omega arith)
  read_all-write_all (x ∷ xs) b rest offs (fx, fxs) h =
      let w = write_all enc xs in
      let h' : from? offs b ≡ some (enc x ++ (w ++ rest)) = rw append_assoc at h in
      let next = from?-field offs (length (enc x)) b (enc x) (w ++ rest) h' refl in
      let ih = read_all-write_all xs b rest (offs + length (enc x)) fxs next in
      let size : offs + length (enc x) + length w ≡ offs + length (enc x ++ w) =
        omega (arith, length-append (enc x) w) in
      rw (h', one x (w ++ rest) fx, ih) (ap (λ n. some (back x ∷ map back xs, n)) size)

back_id : (xs : List TxIn) → map (λ i. i) xs ≡ xs
back_id [] = refl
back_id (x ∷ xs) = ap (λ r. x ∷ r) (back_id xs)

-- Decoding a serialised transaction, whatever bytes follow it, gives the transaction back and the
-- exact count of its bytes, if its fields have the sizes of their types and its counts and script
-- lengths are at most 0x7fffffff. The fields that are not serialised come back as zero values.
pub deserialize-serialize :
    (t : Tx) (rest : Bytes)
    → TxFits t
    → deserialize_tx (serialize t ++ rest) ≡ some (wire t, length (serialize t))
unfolding deserialize_tx serialize
deserialize-serialize t rest fits =
    let v = le_bytes 4 t.version in
    let f = var_len_field (length t.tx_ins) in
    let is = write_all serialize_tx_in t.tx_ins in
    let g = var_len_field (length t.tx_outs) in
    let os = write_all serialize_tx_out t.tx_outs in
    let k = le_bytes 4 t.lock_time in
    let b = v ++ (f ++ (is ++ (g ++ (os ++ (k ++ rest))))) in
    let e : (v ++ (f ++ (is ++ (g ++ (os ++ k))))) ++ rest ≡ b = simp append_assoc in
    let lv = length-le_bytes 4 t.version in
    let lk = length-le_bytes 4 t.lock_time in
    let from4 = from?-append 4 v (f ++ (is ++ (g ++ (os ++ (k ++ rest))))) lv in
    let from_ins = from?-field 4 (length f) b f _ from4 refl in
    let ins =
      read_all-write_all serialize_tx_in deserialize_tx_in (λ i. i) InFits
        deserialize-serialize_tx_in t.tx_ins b _ (4 + length f) fits.ins_fit from_ins in
    let from_count = from?-field (4 + length f) (length is) b is _ from_ins refl in
    let from_outs = from?-field (4 + length f + length is) (length g) b g _ from_count refl in
    let outs =
      read_all-write_all serialize_tx_out deserialize_tx_out wire_out OutFits
        deserialize-serialize_tx_out t.tx_outs b _ (4 + length f + length is + length g)
        fits.outs_fit from_outs in
    let o = 4 + length f + length is + length g + length os in
    let from_lock =
      from?-field (4 + length f + length is + length g) (length os) b os _ from_outs refl in
    let lock = slice?-field o 4 b k rest from_lock lk in
    let size : o + 4 ≡ length (v ++ (f ++ (is ++ (g ++ (os ++ k))))) = omega (
      arith,
      length-append v (f ++ (is ++ (g ++ (os ++ k)))),
      length-append f (is ++ (g ++ (os ++ k))),
      length-append is (g ++ (os ++ k)),
      length-append g (os ++ k),
      length-append os k,
      lv,
      lk,
    ) in
    rw
      (
        e,
        prefix?-append 4 v (f ++ (is ++ (g ++ (os ++ (k ++ rest))))) lv,
        from4,
        load-var_len_field (length t.tx_ins) (is ++ (g ++ (os ++ (k ++ rest)))) fits.ins_count,
        ins,
        from_count,
        load-var_len_field (length t.tx_outs) (os ++ (k ++ rest)) fits.outs_count,
        outs,
        lock,
        le_value-le_bytes 4 t.version fits.version_fits,
        le_value-le_bytes 4 t.lock_time fits.lock_time_fits,
        back_id t.tx_ins,
      )
      (ap (λ n. some (wire t, n)) size)
