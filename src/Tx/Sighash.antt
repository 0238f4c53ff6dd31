-- ===== src/Tx/Sighash.antt =====
-- core/tx.go: `SignatureHash`. `sha.Write` calls are collected into the message that is hashed.
pub mod Protocol
use yoin.Base.{
  ℕ, ◌+◌, ◌/◌, ◌%◌, Bool, not, ◌&&◌, ◌||◌, List, [], ◌∷◌, ◌++◌, Option, none, some, ◌>>=◌, leb,
  ◌==◌, if◌then◌else◌, length, get_elem?, replicate,
}
use yoin.Bytes.{Bytes, le_bytes}
use yoin.Crypto.{Crypto, sha2_sum}
use yoin.VarLen.{var_len_field}
use yoin.Tx.{TxPrevOut, TxIn, TxOut, Tx}
use yoin.Tx.Codec.{write_all, serialize_tx_out}

abbrev pub sighash_all : ℕ
sighash_all = 1

abbrev pub sighash_none : ℕ
sighash_none = 2

abbrev pub sighash_single : ℕ
sighash_single = 3

-- `hashType & 0x1f`
abbrev pub base_type : ℕ → ℕ
base_type hash_type = hash_type % 32

-- `(hashType & SIGHASH_ANYONECANPAY) != 0`
abbrev pub anyone_can_pay : ℕ → Bool
anyone_can_pay hash_type = hash_type / 128 % 2 == 1

-- The inputs from index `i` on.
unfoldable pub sign_inputs : Bytes → ℕ → ℕ → ℕ → List TxIn → Bytes
sign_inputs script n_in ht i [] = []
sign_inputs script n_in ht i (x ∷ xs) =
    x.input.pre_out_tx_hash
    ++ (le_bytes 4 x.input.out_idx_in_tx
        ++ ((if i == n_in then var_len_field (length script) ++ script else 0 ∷ [])
            ++ ((if (ht == sighash_none || ht == sighash_single) && not (i == n_in)
                  then 0 ∷ 0 ∷ 0 ∷ 0 ∷ []
                  else le_bytes 4 x.sequence)
                ++ sign_inputs script n_in ht (i + 1) xs)))

-- The only input that is signed. Its sequence is put into `tmpBuf` and never written, and the
-- length in front of the script is the number of inputs.
unfoldable pub sign_one_input : Tx → Bytes → TxIn → Bytes
sign_one_input t script x =
    1
    ∷ (x.input.pre_out_tx_hash
        ++ (le_bytes 4 x.input.out_idx_in_tx ++ (var_len_field (length t.tx_ins) ++ script)))

-- The empty outputs in front of the one that `SIGHASH_SINGLE` signs.
abbrev pub blank_output : Bytes
blank_output = 0xff ∷ 0xff ∷ 0xff ∷ 0xff ∷ 0xff ∷ 0xff ∷ 0xff ∷ 0xff ∷ 0 ∷ []

unfoldable pub blanks : ℕ → Bytes
blanks n = write_all (λ (b : Bytes). b) (replicate n blank_output)

-- What the source writes for the outputs, unless it returns nil.
unfoldable pub sign_outputs : Tx → ℕ → ℕ → Option Bytes
unfolding write_all serialize_tx_out blanks
sign_outputs t n_in ht =
    if ht == sighash_none
    then some (0 ∷ [])
    else if ht == sighash_single
    then (do
      o ← get_elem? t.tx_outs n_in
      some (
          var_len_field (n_in + 1)
          ++ (blanks n_in
              ++ (le_bytes 8 o.value ++ (var_len_field (length t.tx_outs) ++ o.script_pub_key)))))
    else some (var_len_field (length t.tx_outs) ++ write_all serialize_tx_out t.tx_outs)

-- The digest's message; `absent` where the source returns nil because the output is missing, and
-- `out_of_range` where it panics because the input is missing.
pub data Message : Type 0 where
  message : Bytes → Message
  absent : Message
  out_of_range : Message

finish : Tx → ℕ → Bytes → Option Bytes → Message
finish t hash_type ins none = absent
finish t hash_type ins (some outs) = message (
    le_bytes 4 t.version
    ++ (ins ++ (outs ++ (le_bytes 4 t.lock_time ++ (hash_type ∷ 0 ∷ 0 ∷ 0 ∷ [])))))

unfoldable pub signature_message : Tx → Bytes → ℕ → ℕ → Message
unfolding sign_inputs sign_one_input sign_outputs finish
signature_message t script n_in hash_type =
    let ht = base_type hash_type in
    if anyone_can_pay hash_type
    then elim (get_elem? t.tx_ins n_in) [
      | none ↦ out_of_range
      | some x ↦ finish t hash_type (sign_one_input t script x) (sign_outputs t n_in ht)
    ]
    else finish t hash_type
        (var_len_field (length t.tx_ins) ++ sign_inputs script n_in ht 0 t.tx_ins)
        (sign_outputs t n_in ht)

-- The 32 bytes of the digest, the empty slice for nil, `none` for the panic.
unfoldable pub signature_hash : Crypto → Tx → Bytes → ℕ → ℕ → Option Bytes
unfolding signature_message sha2_sum
signature_hash c t script n_in hash_type = elim (signature_message t script n_in hash_type) [
  | message m ↦ some (sha2_sum c m)
  | absent ↦ some []
  | out_of_range ↦ none
]
