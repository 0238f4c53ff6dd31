-- ===== src/Wallet/Made.antt =====
-- wallet/wallet.go: the parts of `make_signed_tx`, and the inputs that it selects.
use yoin.Base.{
  ℕ, zero, suc, Bool-cases, inl, inr, leb, map, ◌+◌, ◌-◌, ◌%◌, ◌^◌, ◌≡◌, List, [], ◌∷◌, none, some,
  length, drop, get_elem?,
}
use yoin.Crypto.{Crypto, sha2_sum}
use yoin.Tx.{TxPrevOut, TxIn, TxOut, Tx}
use yoin.Tx.Codec.{serialize}
use yoin.Wallet.{done, Wallet, uo, >>=-eq-done}
use yoin.Wallet.Spend.{
  Signer, spend_and_fee, new_input, select_inputs, make_outputs, sign_loop, make_signed_tx,
}

abbrev pub unsigned : List TxIn → List TxOut → Tx
unsigned ins outs = record {
  version = 1;
  tx_ins = ins;
  tx_outs = outs;
  lock_time = 0;
  size = 0;
  hash = none;
}

module _ (c : Crypto) (sign : Signer) (w : Wallet) (outs : List TxPrevOut) where
  -- The parts of a run that comes to its end.
  pub record Made (tx : Tx) (kept : List TxPrevOut) : Type 0 where
    pub ins : List TxIn
    pub sofar : ℕ
    pub tx_outs : List TxOut
    pub filled : Tx
    pub selected : select_inputs w (spend_and_fee w) outs 0 ≡ done (ins, sofar)
    pub paid : make_outputs c w outs ((sofar + 2 ^ 64 - spend_and_fee w) % 2 ^ 64) ≡ done tx_outs
    pub looped : sign_loop c sign w outs (length ins) 0 (unsigned ins tx_outs) ≡ done filled
    pub result : tx ≡ record filled { hash = some (sha2_sum c (serialize filled)) }
    pub rest : kept ≡ drop (length ins) outs

  pub make_signed_tx-Made :
      {tx : Tx} {kept : List TxPrevOut}
      → make_signed_tx c sign w outs ≡ done (tx, kept)
      → Made tx kept
  unfolding make_signed_tx
  make_signed_tx-Made e =
      let ((ins, sofar), e₁, f₁) = >>=-eq-done (select_inputs w (spend_and_fee w) outs 0) _ e in
      let (tx_outs, e₂, f₂) =
        >>=-eq-done (make_outputs c w outs ((sofar + 2 ^ 64 - spend_and_fee w) % 2 ^ 64)) _ f₁ in
      let (filled, e₃, f₃) =
        >>=-eq-done (sign_loop c sign w outs (length ins) 0 (unsigned ins tx_outs)) _ f₂ in
      record {
        ins = ins;
        sofar = sofar;
        tx_outs = tx_outs;
        filled = filled;
        selected = e₁;
        paid = e₂;
        looped = e₃;
        result = cc;
        rest = cc;
      }

-- The inputs are the first of the outputs.
abbrev pub Prefix : List TxIn → List TxPrevOut → Type 0
Prefix ins ps =
    (i : ℕ) (p : TxPrevOut)
    → get_elem? (map (λ (x : TxIn). x.input) ins) i ≡ some p
    → get_elem? ps i ≡ some p

Prefix-cons :
    (q : TxPrevOut) (ins : List TxIn) (ps : List TxPrevOut)
    → Prefix ins ps
    → Prefix (new_input q ∷ ins) (q ∷ ps)
unfolding new_input
Prefix-cons q ins ps h zero p e = e
Prefix-cons q ins ps h (suc i) p e = h i p e

Prefix-nil : (ps : List TxPrevOut) → Prefix [] ps
Prefix-nil ps i p e = cc

pub select_inputs-Prefix :
    (w : Wallet) (goal : ℕ) (ps : List TxPrevOut) (sofar : ℕ) (r : List TxIn × ℕ)
    → select_inputs w goal ps sofar ≡ done r
    → Prefix r.0 ps
unfolding select_inputs
select_inputs-Prefix w goal [] sofar r e =
    let same : ([], sofar) ≡ r = cc in rw (← same) (Prefix-nil [])
select_inputs-Prefix w goal (q ∷ ps) sofar r e =
    let (o, e₁, f₁) = >>=-eq-done (uo w q) _ e in
    let sofar' = (sofar + o.value) % 2 ^ 64 in
    elim (Bool-cases (leb goal sofar')) [
      | inl reached ↦
          let same : (new_input q ∷ [], sofar') ≡ r = cc (rw reached at f₁) in
          rw (← same) (Prefix-cons q [] ps (Prefix-nil ps))
      | inr short ↦
          let (r', e₂, f₂) =
            >>=-eq-done (select_inputs w goal ps sofar') (λ u. done (new_input q ∷ u.0, u.1))
              (rw short at f₁) in
          let same : (new_input q ∷ r'.0, r'.1) ≡ r = cc in
          rw (← same) (Prefix-cons q r'.0 ps (select_inputs-Prefix w goal ps sofar' r' e₂))
    ]
