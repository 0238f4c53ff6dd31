-- ===== src/Tx/Sighash/Protocol.antt =====
-- The message that is signed, against the protocol's description: the transaction with every
-- script emptied but the signed input's, which is the script code, and the hash type behind it.
use yoin.Base.{
  ℕ, suc, zero, map, get_elem?, ◌+◌, ◌≡◌, refl, ap, true, List, [], ◌∷◌, ◌++◌, append_assoc, ◌==◌,
  if◌then◌else◌, length, Bool-cases, Option-cases, inl, inr,
}
use mathlib.Core.Option
use yoin.Bytes.{Bytes, le_bytes}
use yoin.VarLen.{var_len_field}
use yoin.Tx.{TxIn, Tx}
use yoin.Tx.Codec.{write_all, serialize_tx_in, serialize}
use yoin.Tx.Sighash.{sign_inputs, signature_message, message, sign_one_input, anyone_can_pay}

-- The inputs from index `i` on, with the script code at index `n_in` and no script elsewhere.
unfoldable pub set_scripts : Bytes → ℕ → ℕ → List TxIn → List TxIn
set_scripts script n_in i [] = []
set_scripts script n_in i (x ∷ xs) =
    record x { script_sig = if i == n_in then script else [] } ∷ set_scripts script n_in (i + 1) xs

length-set_scripts :
    (script : Bytes) (n_in i : ℕ) (xs : List TxIn)
    → length (set_scripts script n_in i xs) ≡ length xs
unfolding set_scripts
length-set_scripts script n_in i [] = refl
length-set_scripts script n_in i (x ∷ xs) = ap suc (length-set_scripts script n_in (i + 1) xs)

empty_field : var_len_field 0 ≡ 0 ∷ []
unfolding var_len_field
empty_field = refl

sign_inputs_lem :
    (script : Bytes) (n_in i : ℕ) (xs : List TxIn)
    → sign_inputs script n_in 1 i xs ≡ write_all serialize_tx_in (set_scripts script n_in i xs)
unfolding sign_inputs set_scripts write_all serialize_tx_in
sign_inputs_lem script n_in i [] = refl
sign_inputs_lem script n_in i (x ∷ xs) = elim (Bool-cases (i == n_in)) [
  | inl e ↦ rw (e, sign_inputs_lem script n_in (i + 1) xs) (simp append_assoc)
  | inr e ↦ rw (e, sign_inputs_lem script n_in (i + 1) xs, empty_field) (simp append_assoc)
]

-- For `SIGHASH_ALL` the message is the serialised transaction with every input's script emptied,
-- except that of the signed input, which is the script code, followed by the hash type in 4 bytes.
pub signature_message-serialize :
    (t : Tx) (script : Bytes) (n_in : ℕ)
    → signature_message t script n_in 1
      ≡ message
          (serialize (record t { tx_ins = set_scripts script n_in 0 t.tx_ins }) ++ le_bytes 4 1)
unfolding signature_message serialize le_bytes
signature_message-serialize t script n_in =
    rw (length-set_scripts script n_in 0 t.tx_ins, sign_inputs_lem) (simp append_assoc)

pub without_sequence : TxIn → TxIn
without_sequence x = record x { sequence = 0 }

length-map : (xs : List TxIn) → length (map without_sequence xs) ≡ length xs
length-map [] = refl
length-map (x ∷ xs) = ap suc (length-map xs)

sign_one-without_sequence :
    (t : Tx) (script : Bytes) (x : TxIn)
    → sign_one_input
        (record t { tx_ins = map without_sequence t.tx_ins })
        script
        (without_sequence x)
      ≡ sign_one_input t script x
unfolding sign_one_input without_sequence
sign_one-without_sequence t script x = rw (length-map t.tx_ins)

get_elem?-map :
    (n : ℕ) (xs : List TxIn)
    → get_elem? (map without_sequence xs) n ≡ Option.map without_sequence (get_elem? xs n)
get_elem?-map n [] = refl
get_elem?-map zero (x ∷ xs) = refl
get_elem?-map (suc n) (x ∷ xs) = get_elem?-map n xs

-- With `SIGHASH_ANYONECANPAY` the message does not depend on the sequence number of any input, the
-- signed one included: its bytes are put into a buffer that is not written.
pub signature_message-without_sequence :
    (t : Tx) (script : Bytes) (n_in hash_type : ℕ)
    → anyone_can_pay hash_type ≡ true
    → signature_message (record t { tx_ins = map without_sequence t.tx_ins }) script n_in hash_type
      ≡ signature_message t script n_in hash_type
unfolding signature_message
signature_message-without_sequence t script n_in hash_type h =
    elim (Option-cases (get_elem? t.tx_ins n_in)) [
      | inl e ↦ rw (h, get_elem?-map n_in t.tx_ins, e)
      | inr (x, e) ↦ rw (h, get_elem?-map n_in t.tx_ins, e, sign_one-without_sequence t script x)
    ]
