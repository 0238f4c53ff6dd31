-- ===== src/Wallet/Completes.antt =====
-- wallet/wallet.go: when `make_signed_tx` comes to its end.
use yoin.Base.{
  ℕ, zero, suc, ◌+◌, ◌-◌, ◌%◌, ◌^◌, ◌≤◌, ◌<◌, ◌≡◌, refl, List, [], ◌∷◌, ◌++◌, some, ltb, leb,
  length, map, get_elem?, drop, All, Bool-cases, inl, inr, arith,
}
use yoin.Bytes.{Bytes, be_value}
use yoin.Crypto.{Crypto, sha2_sum}
use yoin.Key.Parse.{signature_bytes}
use yoin.Tx.{TxPrevOut, TxIn, TxOut, Tx}
use yoin.Tx.Codec.{serialize}
use yoin.Tx.Sighash.{sighash_all, signature_hash}
use yoin.Addr.{BtcAddr, out_script, new_addr_from_pub_key}
use yoin.Addr.Scripts.{hash_script}
use yoin.Wallet.{done, KeyPair, Wallet, uo, owner}
use yoin.Wallet.Spend.{
  Signer, spend_and_fee, new_input, select_inputs, check_change, send_out, get_change_addr,
  make_outputs, set_script, script_sig_of, input_script, sign_input, sign_loop, make_signed_tx,
}
use yoin.Wallet.Inputs.{IsPair, owner-hash_script, sign_padded-big_bytes}
use yoin.Wallet.Made.{unsigned}

signature_hash_total :
    (c : Crypto) (t : Tx) (script : Bytes) (n : ℕ)
    → (h : Bytes) × (signature_hash c t script n sighash_all ≡ some h)
unfolding signature_hash
signature_hash_total c t script n = (_, refl)

module _ (c : Crypto) (sign : Signer) (w : Wallet) where
  -- An output that the loaded transactions have and that pays to the hash of a key of the wallet.
  abbrev pub IsOurs : TxPrevOut → Type 0
  IsOurs p =
      (o : TxOut) × (h : Bytes) × (k : KeyPair) × (uo w p ≡ done o)
      × (o.script_pub_key ≡ hash_script h)
      × (length h ≡ 20)
      × (owner c w.keys o.script_pub_key ≡ done (some k))

  All-get_elem? :
      (ps : List TxPrevOut) (i : ℕ)
      → All IsOurs ps
      → i < length ps
      → (p : TxPrevOut) × (get_elem? ps i ≡ some p) × IsOurs p
  All-get_elem? [] i all lt = absurd (omega (arith, lt))
  All-get_elem? (p ∷ ps) zero all lt = (p, refl, all.0)
  All-get_elem? (p ∷ ps) (suc i) all lt = All-get_elem? ps i all.1 (omega (arith, lt))

  select_inputs_total :
      (goal : ℕ) (ps : List TxPrevOut) (sofar : ℕ)
      → All IsOurs ps
      → (r : List TxIn × ℕ) × (select_inputs w goal ps sofar ≡ done r) × (length r.0 ≤ length ps)
  unfolding select_inputs
  select_inputs_total goal [] sofar all = (_, refl, omega arith)
  select_inputs_total goal (p ∷ ps) sofar ((o, h, k, up, _, _, _), all) =
      let sofar' = (sofar + o.value) % 2 ^ 64 in
      elim (Bool-cases (leb goal sofar')) [
        | inl reached ↦ ((new_input p ∷ [], sofar'), rw (up, reached) refl, omega arith)
        | inr short ↦
            let (r, e, le) = select_inputs_total goal ps sofar' all in
            ((new_input p ∷ r.0, r.1), rw (up, short, e) refl, omega (arith, le))
      ]

  get_change_addr_total :
      (ps : List TxPrevOut)
      → w.change ≡ []
      → All IsOurs ps
      → 0 < length ps
      → (a : BtcAddr) × (get_change_addr c w ps ≡ done a)
  unfolding get_change_addr check_change
  get_change_addr_total [] no_change all lt = absurd (omega (arith, lt))
  get_change_addr_total (p ∷ ps) no_change ((o, h, k, up, _, _, own), all) lt =
      (k.publ_addr, rw (no_change, up, own) refl)

  make_outputs_total :
      (ps : List TxPrevOut) (change : ℕ) {a : BtcAddr}
      → get_change_addr c w ps ≡ done a
      → (r : List TxOut) × (make_outputs c w ps change ≡ done r)
  unfolding make_outputs
  make_outputs_total ps change {a = a} e = elim (Bool-cases (ltb 0 change)) [
    | inl some_change ↦ (
      map send_out w.send_to
          ++ record { value = change; block_height = 0; script_pub_key = out_script a } ∷ [],
      rw (some_change, e) refl,
    )
    | inr no_change ↦ (map send_out w.send_to, rw no_change refl)
  ]

  module _ (pairs : All (IsPair c sign) w.keys)
      (signs : (i d : ℕ) (h : Bytes) → (q : ℕ × ℕ) × (sign i d h ≡ some q)) where
    input_script_total :
        (t : Tx) (i : ℕ) (o : TxOut) (k : KeyPair)
        → IsPair c sign k
        → (s : Bytes) × (input_script c sign t i o k ≡ done s)
    unfolding input_script new_addr_from_pub_key
    input_script_total t i o k p =
        let (d, eh) = signature_hash_total c t o.script_pub_key i in
        let ((r, s), eq) = signs i (be_value k.priv_key) d in
        let (r_above, r_fits, s_above, s_fits, _) = p.signs i r s d eq in
        let (rb, er, _) = sign_padded-big_bytes r r_above r_fits in
        let (sb, es, _) = sign_padded-big_bytes s s_above s_fits in
        (script_sig_of (signature_bytes rb sb) p.key, rw (p.made, p.parses, eh, eq, er, es) refl)

    sign_input_total :
        (outs : List TxPrevOut) (t : Tx) (i : ℕ)
        → All IsOurs outs
        → i < length outs
        → (t' : Tx) × (sign_input c sign w outs t i ≡ done t')
    unfolding sign_input
    sign_input_total outs t i ours lt =
        let (p, at, (o, h, k, up, script, size, own)) = All-get_elem? outs i ours lt in
        let (pair, _) = owner-hash_script c sign h w.keys size pairs (rw script at own) in
        let (s, e) = input_script_total t i o k pair in
        (record t { tx_ins = set_script i s t.tx_ins }, rw (at, up, own, e) refl)

    sign_loop_total :
        (outs : List TxPrevOut) (n i : ℕ) (t : Tx)
        → All IsOurs outs
        → i + n ≤ length outs
        → (t' : Tx) × (sign_loop c sign w outs n i t ≡ done t')
    unfolding sign_loop
    sign_loop_total outs zero i t ours le = (t, refl)
    sign_loop_total outs (suc n) i t ours le =
        let (m, e) = sign_input_total outs t i ours (omega arith) in
        let (t', e') = sign_loop_total outs n (suc i) m ours (omega arith) in (t', rw e e')

    -- `make_signed_tx` comes to its end, without a panic and without os.Exit, for outputs that all
    -- pay to the hashes of the wallet's own keys, of which there is at least one, if `ecdsa.Sign`
    -- makes no error, its results for the wallet's keys are of at most 256 bits and pass the check
    -- for the public keys, and no other address is given for the change.
    pub make_signed_tx-completes :
        (outs : List TxPrevOut)
        → All IsOurs outs
        → 0 < length outs
        → w.change ≡ []
        → (tx : Tx) × (kept : List TxPrevOut) × (make_signed_tx c sign w outs ≡ done (tx, kept))
    unfolding make_signed_tx
    make_signed_tx-completes outs ours lt no_change =
        let (r, e₁, le) = select_inputs_total (spend_and_fee w) outs 0 ours in
        let (a, e₀) = get_change_addr_total outs no_change ours lt in
        let (tx_outs, e₂) =
          make_outputs_total outs ((r.1 + 2 ^ 64 - spend_and_fee w) % 2 ^ 64) e₀ in
        let (t, e₃) =
          sign_loop_total outs (length r.0) 0 (unsigned r.0 tx_outs) ours (omega arith) in
        (
          record t { hash = some (sha2_sum c (serialize t)) },
          drop (length r.0) outs,
          rw (e₁, e₂, e₃) refl,
        )
