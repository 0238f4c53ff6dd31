-- ===== src/Wallet/Signed.antt =====
-- wallet/wallet.go: the loop of `make_signed_tx` that signs the inputs one after the other, while
-- the scripts of the inputs before stand in the transaction already.
use yoin.Base.{
  ℕ, zero, suc, ◌+◌, ◌≤◌, ◌<◌, ◌≡◌, refl, ap, ◌∙◌, List, some, length, map, get_elem?, All, arith,
}
use yoin.Bytes.{Bytes}
use yoin.Crypto.{Crypto, rimp160_after_sha256}
use yoin.Tx.{TxPrevOut, TxIn, TxOut, Tx}
use native.Mathlib.Decide.{dec_lt}
use yoin.Addr.{BtcAddr, new_addr_from_pub_key}
use yoin.Addr.Scripts.{hash_script}
use yoin.Wallet.{done, KeyPair, Wallet, uo, owner, >>=-eq-done, or_panic-eq-done, or_exit-eq-done}
use yoin.Wallet.Spend.{Signer, set_script, input_script, sign_input, sign_loop}
use yoin.Wallet.Inputs.{IsPair, IsSigned, owner-hash_script, input_script_lem}
use yoin.Wallet.Digests.{
  length-set_script, get_elem?-set_script_self, get_elem?-set_script_ne, inputs-set_script,
  SameDigests, signature_hash-set_script, IsSigned-digests,
}

-- Input `j` of the transaction has a script that signs it for the output, by a key with the hash.
pub record SignedAt (c : Crypto) (t : Tx) (j : ℕ) (o : TxOut) (h : Bytes) : Type 0 where
  pub txin : TxIn
  pub key : Bytes
  pub found : get_elem? t.tx_ins j ≡ some txin
  pub owned : h ≡ rimp160_after_sha256 c key
  pub signed : IsSigned c t j o key txin.script_sig

abbrev pub outpoints : Tx → List TxPrevOut
outpoints t = map (λ (x : TxIn). x.input) t.tx_ins

module _ (c : Crypto) (sign : Signer) (w : Wallet) (outs : List TxPrevOut) where
  -- What a round has done.
  record Round (t t' : Tx) (i : ℕ) : Type 0 where
    prev : TxPrevOut
    out : TxOut
    pair : KeyPair
    script : Bytes
    listed : get_elem? outs i ≡ some prev
    looked_up : uo w prev ≡ done out
    owned : owner c w.keys out.script_pub_key ≡ done (some pair)
    scripted : input_script c sign t i out pair ≡ done script
    result : t' ≡ record t { tx_ins = set_script i script t.tx_ins }

  sign_input-Round :
      (t : Tx) (i : ℕ) {t' : Tx} → sign_input c sign w outs t i ≡ done t' → Round t t' i
  unfolding sign_input
  sign_input-Round t i e =
      let (p, e₁, f₁) = >>=-eq-done _ _ e in
      let (o, e₂, f₂) = >>=-eq-done _ _ f₁ in
      let (k?, e₃, f₃) = >>=-eq-done _ _ f₂ in
      let (k, e₄, f₄) = >>=-eq-done _ _ f₃ in
      let (s, e₅, f₅) = >>=-eq-done _ _ f₄ in
      record {
        prev = p;
        out = o;
        pair = k;
        script = s;
        listed = or_panic-eq-done _ e₁;
        looked_up = e₂;
        owned = e₃ ∙ ap done (or_exit-eq-done k? e₄);
        scripted = e₅;
        result = cc;
      }

  -- The rounds change nothing but the scripts of the inputs.
  pub sign_loop-same :
      (n i : ℕ) (t : Tx) {t' : Tx}
      → sign_loop c sign w outs n i t ≡ done t'
      → (t'.tx_outs ≡ t.tx_outs) × (outpoints t' ≡ outpoints t)
  unfolding sign_loop
  sign_loop-same zero i t {t' = t'} e = let same : t ≡ t' = cc in rw (← same) (refl, refl)
  sign_loop-same (suc n) i t e =
      let (m, e₁, e₂) =
        >>=-eq-done (sign_input c sign w outs t i) (λ m. sign_loop c sign w outs n (suc i) m) e in
      let r = sign_input-Round t i e₁ in
      let (o, p) = sign_loop-same n (suc i) m e₂ in
      (
        o ∙ ap (λ (x : Tx). x.tx_outs) r.result,
        p ∙ rw r.result (inputs-set_script i r.script t.tx_ins),
      )

  -- What the rounds for the inputs from `i` up to `i + n` have done.
  pub record Rounds (t t' : Tx) (i n : ℕ) : Type 0 where
    pub digests : SameDigests c t t'
    pub before : (j : ℕ) → j < i → get_elem? t'.tx_ins j ≡ get_elem? t.tx_ins j
    pub signed_at :
        (j : ℕ) (prev : TxPrevOut) (o : TxOut) (h : Bytes)
        → i ≤ j
        → j < i + n
        → get_elem? outs j ≡ some prev
        → uo w prev ≡ done o
        → o.script_pub_key ≡ hash_script h
        → length h ≡ 20
        → SignedAt c t' j o h

  module _ (pairs : All (IsPair c sign) w.keys) where
    Round-SignedAt :
        (t t' : Tx) (i : ℕ) (prev : TxPrevOut) (o : TxOut) (h : Bytes)
        → i < length t.tx_ins
        → Round t t' i
        → get_elem? outs i ≡ some prev
        → uo w prev ≡ done o
        → o.script_pub_key ≡ hash_script h
        → length h ≡ 20
        → SignedAt c t' i o h
    unfolding new_addr_from_pub_key
    Round-SignedAt t t' i prev o h at r listed up script size =
        let same_prev : r.prev ≡ prev = cc r.listed in
        let same_out : r.out ≡ o = cc (ap (uo w) same_prev, r.looked_up) in
        let by_owner : owner c w.keys (hash_script h) ≡ done (some r.pair) =
          rw (same_out, script) at r.owned in
        let (pair, own) = owner-hash_script c sign h w.keys size pairs by_owner in
        let scripted : input_script c sign t i o r.pair ≡ done r.script =
          rw same_out at r.scripted in
        let signs = input_script_lem c sign t i o r.pair pair scripted in
        let (x, found, is) = get_elem?-set_script_self i r.script t.tx_ins at in
        rw r.result (record {
          txin = x;
          key = pair.key;
          found = found;
          owned = own ∙ ap (λ (a : BtcAddr). a.hash160) pair.made;
          signed = rw is (IsSigned-digests (signature_hash-set_script c t i r.script) signs);
        })

    Rounds-zero : (t t' : Tx) (i : ℕ) → t ≡ t' → Rounds t t' i 0
    Rounds-zero t t' i e = rw (← e) (record {
      digests = λ script n. refl;
      before = λ j h. refl;
      signed_at = λ j prev o h lo hi. absurd (omega arith);
    })

    -- A later round leaves the inputs before it alone.
    SignedAt-later :
        {t t' : Tx} {i n j : ℕ} {o : TxOut} {h : Bytes}
        → Rounds t t' i n
        → j < i
        → SignedAt c t j o h
        → SignedAt c t' j o h
    SignedAt-later {j = j} rs lt s = record {
      txin = s.txin;
      key = s.key;
      found = rs.before j lt ∙ s.found;
      owned = s.owned;
      signed = IsSigned-digests rs.digests s.signed;
    }

    Rounds-suc :
        (t m t' : Tx) (i n : ℕ)
        → i < length t.tx_ins
        → Round t m i
        → Rounds m t' (suc i) n
        → Rounds t t' i (suc n)
    Rounds-suc t m t' i n at r rs = record {
      digests = λ script k.
          rs.digests script k ∙ rw r.result (signature_hash-set_script c t i r.script script k);
      before = λ j lt.
          rs.before j (omega arith)
          ∙ rw r.result (get_elem?-set_script_ne i j r.script t.tx_ins (λ e. absurd (omega arith)));
      signed_at = λ j prev o h lo hi listed up script size. elim (dec_lt i j) [
        | yes later ↦ rs.signed_at j prev o h (omega arith) (omega arith) listed up script size
        | no now ↦
            let same : j ≡ i = omega arith in
            let listed' : get_elem? outs i ≡ some prev = rw same at listed in
            SignedAt-later rs (omega arith)
              (rw same (Round-SignedAt t m i prev o h at r listed' up script size))
      ];
    }

    pub sign_loop-Rounds :
        (n i : ℕ) (t : Tx) {t' : Tx}
        → i + n ≤ length t.tx_ins
        → sign_loop c sign w outs n i t ≡ done t'
        → Rounds t t' i n
    unfolding sign_loop
    sign_loop-Rounds zero i t {t' = t'} le e = Rounds-zero t t' i (cc)
    sign_loop-Rounds (suc n) i t {t' = t'} le e =
        let (m, e₁, e₂) =
          >>=-eq-done (sign_input c sign w outs t i) (λ m. sign_loop c sign w outs n (suc i) m) e in
        let r = sign_input-Round t i e₁ in
        let size : length m.tx_ins ≡ length t.tx_ins =
          rw r.result (length-set_script i r.script t.tx_ins) in
        Rounds-suc t m t' i n (omega arith) r (sign_loop-Rounds n (suc i) m (omega arith) e₂)
