-- ===== src/Wallet/Accepted.antt =====
-- wallet/wallet.go: whether `VerifyTxScript` of core/script.go takes what `make_signed_tx` makes.
use yoin.Base.{
  ◌∙◌, ℕ, zero, suc, map, ap, ◌<◌, ◌≡◌, refl, true, List, [], ◌∷◌, Option, some, length, get_elem?,
  All, arith,
}
use yoin.Bytes.{Bytes, bytes_equal}
use yoin.Bytes.Laws.{bytes_equal_refl}
use yoin.Crypto.{Crypto, rimp160_after_sha256, sha2_sum}
use yoin.Tx.{TxPrevOut, TxIn, TxOut, Tx}
use yoin.Tx.Codec.{serialize}
use yoin.Tx.Sighash.{signature_hash, signature_message}
use yoin.Addr.Scripts.{hash_script}
use yoin.Script.Eval.{returned, verify_tx_script}
use yoin.Script.Eval.Payments.{p2pkh, verify_tx_script-p2pkh}
use yoin.Wallet.{done, Wallet, uo}
use yoin.Wallet.Spend.{Signer, spend_and_fee, make_signed_tx}
use yoin.Wallet.Inputs.{IsPair, IsSigned}
use yoin.Wallet.Digests.{IsSigned-digests}
use yoin.Wallet.Signed.{outpoints, SignedAt, sign_loop-same, sign_loop-Rounds}
use yoin.Wallet.Made.{unsigned, make_signed_tx-Made, select_inputs-Prefix}

length-inputs : (xs : List TxIn) → length (map (λ (x : TxIn). x.input) xs) ≡ length xs
length-inputs [] = refl
length-inputs (x ∷ xs) = ap suc (length-inputs xs)

SignedAt-hash :
    {c : Crypto} {t : Tx} {i : ℕ} {o : TxOut} {h : Bytes} (d : Option Bytes)
    → SignedAt c t i o h
    → SignedAt c (record t { hash = d }) i o h
unfolding signature_hash signature_message
SignedAt-hash d s = record {
  txin = s.txin;
  key = s.key;
  found = s.found;
  owned = s.owned;
  signed = IsSigned-digests (λ script n. refl) s.signed;
}

SignedAt-verifies :
    {c : Crypto} {t : Tx} {i : ℕ} (o : TxOut) (h : Bytes) (s : SignedAt c t i o h)
    → o.script_pub_key ≡ hash_script h
    → length h ≡ 20
    → verify_tx_script c t i s.txin.script_sig o.script_pub_key
      ≡ returned true (s.key ∷ s.signed.sig ∷ [])
SignedAt-verifies {c = c} {t = t} {i = i} o h s script size =
    let run =
      verify_tx_script-p2pkh c t i s.signed.sig s.key h s.signed.short_sig s.signed.short_key
        (omega arith) in
    let same : p2pkh h ≡ hash_script h = rw size in
    let good : bytes_equal h (rimp160_after_sha256 c s.key) ≡ true =
      rw (← s.owned) (bytes_equal_refl h) in
    rw (script, s.signed.pushes) (rw (same, good) at run)

get_elem?-inputs :
    (xs : List TxIn) (i : ℕ) {x : TxIn}
    → get_elem? xs i ≡ some x
    → (get_elem? (map (λ (y : TxIn). y.input) xs) i ≡ some x.input) × (i < length xs)
get_elem?-inputs [] i e = cc
get_elem?-inputs (y ∷ xs) zero e = (cc, omega arith)
get_elem?-inputs (y ∷ xs) (suc i) e = let (a, b) = get_elem?-inputs xs i e in (a, omega arith)

input-verifies :
    (c : Crypto) (sign : Signer) (w : Wallet) (outs : List TxPrevOut) {tx : Tx}
    {kept : List TxPrevOut}
    → All (IsPair c sign) w.keys
    → make_signed_tx c sign w outs ≡ done (tx, kept)
    → (i : ℕ) (prev : TxPrevOut) (o : TxOut) (h : Bytes) → i < length tx.tx_ins
    → get_elem? outs i ≡ some prev
    → uo w prev ≡ done o
    → o.script_pub_key ≡ hash_script h
    → length h ≡ 20
    → (s : SignedAt c tx i o h) × (verify_tx_script c tx i s.txin.script_sig o.script_pub_key
        ≡ returned true (s.key ∷ s.signed.sig ∷ []))
input-verifies c sign w outs {tx = tx} pairs e i prev o h lt listed up script size =
    let m = make_signed_tx-Made c sign w outs e in
    let rs =
      sign_loop-Rounds c sign w outs pairs (length m.ins) 0 (unsigned m.ins m.tx_outs) (omega arith)
        m.looped in
    let same : length m.filled.tx_ins ≡ length m.ins = omega (
      arith,
      ap length (sign_loop-same c sign w outs (length m.ins) 0 _ m.looped).1,
      length-inputs m.filled.tx_ins,
      length-inputs m.ins,
    ) in
    let within : i < length m.filled.tx_ins = rw m.result at lt in
    let s = rs.signed_at i prev o h (omega arith) (omega arith) listed up script size in
    rw m.result (
      SignedAt-hash (some (sha2_sum c (serialize m.filled))) s,
      SignedAt-verifies o h (SignedAt-hash (some (sha2_sum c (serialize m.filled))) s) script size,
    )

-- Every input of a transaction that `make_signed_tx` makes which spends an output that pays to a
-- key's hash is signed: its script pushes a signature and the key with this hash, and the signature
-- passes the check of its digest of the finished transaction; and `VerifyTxScript` takes the
-- script. The wallet's keys are such that what `ecdsa.Sign` gives for the private key passes the
-- check for the public key.
pub make_signed_tx-verifies :
    (c : Crypto) (sign : Signer) (w : Wallet) (outs : List TxPrevOut) {tx : Tx}
    {kept : List TxPrevOut}
    → All (IsPair c sign) w.keys
    → make_signed_tx c sign w outs ≡ done (tx, kept)
    → (i : ℕ) (x : TxIn) (o : TxOut) (h : Bytes) → get_elem? tx.tx_ins i ≡ some x
    → uo w x.input ≡ done o
    → o.script_pub_key ≡ hash_script h
    → length h ≡ 20
    → (key : Bytes) × (s : IsSigned c tx i o key x.script_sig) × (h ≡ rimp160_after_sha256 c key)
      × (verify_tx_script c tx i x.script_sig o.script_pub_key ≡ returned true (key ∷ s.sig ∷ []))
make_signed_tx-verifies c sign w outs {tx = tx} pairs e i x o h at up script size =
    let m = make_signed_tx-Made c sign w outs e in
    let (spent, lt) = get_elem?-inputs tx.tx_ins i at in
    let same : outpoints tx ≡ outpoints (unsigned m.ins m.tx_outs) =
      ap outpoints m.result ∙ (sign_loop-same c sign w outs (length m.ins) 0 _ m.looped).1 in
    let listed =
      select_inputs-Prefix w (spend_and_fee w) outs 0 (m.ins, m.sofar) m.selected i x.input
        (rw same at spent) in
    let (s, run) = input-verifies c sign w outs pairs e i x.input o h lt listed up script size in
    let here : s.txin ≡ x = cc (s.found, at) in rw (← here) (s.key, s.signed, s.owned, run)
