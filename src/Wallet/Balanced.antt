-- ===== src/Wallet/Balanced.antt =====
-- wallet/wallet.go: what a payment spends and what it pays.
use yoin.Base.{
  ℕ, ◌+◌, ◌^◌, ◌≤◌, ◌<◌, ◌≡◌, refl, ap, ◌∙◌, List, [], ◌++◌, some, ltb, length, drop, Bool-cases,
  inl, inr, arith,
}
use yoin.Crypto.{Crypto}
use yoin.Tx.{TxPrevOut, Tx}
use yoin.Tx.Check.Sound.{total}
use yoin.Wallet.{done, Wallet, load_balance, >>=-eq-done}
use yoin.Wallet.Spend.{Signer, spend_and_fee, make_signed_tx, send_money}
use yoin.Wallet.Signed.{outpoints, sign_loop-same}
use yoin.Wallet.Made.{unsigned, Made, make_signed_tx-Made}
use yoin.Wallet.Amounts.{
  total_value, total_value-append, total_amount, load_balance-Counted, select_inputs-Selected,
  spend_and_fee-total, make_outputs-total,
}

Made-balances :
    (c : Crypto) (sign : Signer) (w : Wallet) (outs : List TxPrevOut) {tx : Tx}
    {kept : List TxPrevOut} (m : Made c sign w outs tx kept)
    → total_amount w.send_to + w.fee_btc < 2 ^ 64
    → total_value w outs < 2 ^ 64
    → spend_and_fee w ≤ total_value w outs
    → (total_value w (outpoints tx) ≡ total tx.tx_outs + w.fee_btc) × (outpoints tx ++ kept ≡ outs)
Made-balances c sign w outs m asked below covered =
    let t = spend_and_fee-total w asked in
    let (enough, sum, parts) =
      select_inputs-Selected w (spend_and_fee w) outs 0 (m.ins, m.sofar) m.selected (omega arith)
        (omega arith) in
    let spent : m.sofar ≡ total_value w (outpoints (unsigned m.ins m.tx_outs)) =
      sum ∙ omega arith in
    let within : m.sofar ≤ total_value w outs = omega (
      arith,
      ap (total_value w) parts,
      total_value-append w (outpoints (unsigned m.ins m.tx_outs)) (drop (length m.ins) outs),
      spent,
    ) in
    let (same_outs, same_inputs) =
      sign_loop-same c sign w outs (length m.ins) 0 (unsigned m.ins m.tx_outs) m.looped in
    let paid = make_outputs-total c w outs _ m.tx_outs m.paid in
    rw (m.result, m.rest, same_inputs, same_outs) (omega arith, parts)

-- A payment that goes through pays what was asked and the fee: the values of the outputs that it
-- spends are those of its own outputs and the fee together. It spends the first of the wallet's
-- outputs that are listed, and the others are kept. The values of the listed outputs, and the
-- amounts and the fee, are less than 2^64 in all.
pub send_money-balances :
    (c : Crypto) (sign : Signer) (w : Wallet) (listed : List TxPrevOut) {tx : Tx}
    {kept : List TxPrevOut}
    → total_amount w.send_to + w.fee_btc < 2 ^ 64
    → total_value w listed < 2 ^ 64
    → send_money c sign w listed ≡ done (some (tx, kept))
    → (total_value w (outpoints tx) ≡ total tx.tx_outs + w.fee_btc)
      × ((tot : ℕ) × (load_balance c w listed ([], 0) ≡ done (outpoints tx ++ kept, tot)))
unfolding send_money total_value
send_money-balances c sign w listed {tx = tx} {kept = kept} asked held e =
    let ((outs, tot), e₁, f₁) = >>=-eq-done (load_balance c w listed ([], 0)) _ e in
    let (counted, below) = load_balance-Counted c w listed [] outs 0 tot e₁ refl (omega arith) in
    elim (Bool-cases (ltb tot (spend_and_fee w))) [
      | inl short ↦ absurd (cc (rw short at f₁))
      | inr covered ↦
          let (r, e₂, f₂) =
            >>=-eq-done (make_signed_tx c sign w outs) (λ r. done (some r)) (rw covered at f₁) in
          let made : r ≡ (tx, kept) = cc in
          let m = make_signed_tx-Made c sign w outs (e₂ ∙ ap done made) in
          let (balanced, parts) =
            Made-balances c sign w outs m asked below (ground (arith, covered, counted)) in
          (balanced, (tot, rw parts e₁))
    ]
