-- ===== src/Wallet/Amounts.antt =====
-- wallet/wallet.go: the amounts of `load_balance`, of the selection of inputs and of the outputs.
use yoin.Base.{
  ℕ, ◌+◌, ◌%◌, ◌^◌, ◌≤◌, ◌<◌, ◌≡◌, refl, ap, List, [], ◌∷◌, ◌++◌, none, some, ltb, leb,
  if◌then◌else◌, length, map, drop, Bool-cases, inl, inr, arith, Option,
}
use yoin.Crypto.{Crypto}
use yoin.Addr.{out_script}
use yoin.Tx.{TxPrevOut, TxIn, TxOut}
use yoin.Tx.Check.Sound.{total}
use yoin.Wallet.{
  done, exits, panics, KeyPair, OneSendTo, Wallet, uo, owner, keep_owned, load_balance, ◌>>=◌,
  >>=-eq-done,
}
use yoin.Wallet.Spend.{
  spend_btc, spend_and_fee, new_input, select_inputs, send_out, get_change_addr, make_outputs,
}

-- The value of an output, and the exact sums.
abbrev pub value_of : Wallet → TxPrevOut → ℕ
value_of w p = elim (uo w p) [ done o ↦ o.value | exits ↦ 0 | panics ↦ 0 ]

unfoldable pub total_value : Wallet → List TxPrevOut → ℕ
total_value w [] = 0
total_value w (p ∷ ps) = value_of w p + total_value w ps

unfoldable pub total_amount : List OneSendTo → ℕ
total_amount [] = 0
total_amount (s ∷ ss) = s.amount + total_amount ss

pub total_value-append :
    (w : Wallet) (ps qs : List TxPrevOut)
    → total_value w (ps ++ qs) ≡ total_value w ps + total_value w qs
unfolding total_value
total_value-append w [] qs = omega arith
total_value-append w (p ∷ ps) qs = omega (arith, total_value-append w ps qs)

pub value_of_done :
    (w : Wallet) (p : TxPrevOut) {o : TxOut} → uo w p ≡ done o → value_of w p ≡ o.value
value_of_done w p e = rw (e, value_of)

total_value-snoc :
    (w : Wallet) (ps : List TxPrevOut) (p : TxPrevOut)
    → total_value w (ps ++ p ∷ []) ≡ total_value w ps + value_of w p
unfolding total_value
total_value-snoc w ps p = omega (arith, total_value-append w ps (p ∷ []))

-- The outputs are kept with the sum of their values.
abbrev pub Counted : Wallet → List TxPrevOut × ℕ → Type 0
Counted w (outs, tot) = tot ≡ total_value w outs

keep_owned-Counted :
    (w : Wallet) (k : Option KeyPair) (p : TxPrevOut) (v : ℕ) (outs : List TxPrevOut) (tot rest : ℕ)
    → value_of w p ≡ v
    → Counted w (outs, tot)
    → total_value w outs + (v + rest) < 2 ^ 64
    → let (outs', tot') = keep_owned k p v (outs, tot) in
      Counted w (outs', tot') × (total_value w outs' + rest < 2 ^ 64)
unfolding keep_owned
keep_owned-Counted w none p v outs tot rest value same below = (same, omega arith)
keep_owned-Counted w (some k) p v outs tot rest value same below =
    (omega (arith, total_value-snoc w outs p), omega (arith, total_value-snoc w outs p))

module _ (c : Crypto) (w : Wallet) where
  -- `totBtc` is the sum of the outputs that are kept, as long as the sums do not wrap around.
  pub load_balance-Counted :
      (ps outs outs' : List TxPrevOut) (tot tot' : ℕ)
      → load_balance c w ps (outs, tot) ≡ done (outs', tot')
      → Counted w (outs, tot)
      → total_value w outs + total_value w ps < 2 ^ 64
      → Counted w (outs', tot') × (total_value w outs' < 2 ^ 64)
  unfolding load_balance total_value
  load_balance-Counted [] outs outs' tot tot' e same below = ground arith
  load_balance-Counted (p ∷ ps) outs outs' tot tot' e same below =
      let (o, e₁, f₁) = >>=-eq-done (uo w p) _ e in
      let (k, e₂, f₂) =
        >>=-eq-done (owner c w.keys o.script_pub_key)
          (λ k. load_balance c w ps (keep_owned k p o.value (outs, tot))) f₁ in
      let value = value_of_done w p e₁ in
      let (same', below') =
        keep_owned-Counted w k p o.value outs tot (total_value w ps) value same (omega arith) in
      let (outs'', tot'') = keep_owned k p o.value (outs, tot) in
      load_balance-Counted ps outs'' outs' tot'' tot' f₂ same' below'

abbrev pub inputs : List TxIn → List TxPrevOut
inputs ins = map (λ (x : TxIn). x.input) ins

-- The inputs are the first of the outputs, as many as are needed, with the sum of their values.
abbrev pub Selected : Wallet → ℕ → List TxPrevOut → ℕ → List TxIn × ℕ → Type 0
Selected w goal ps sofar (ins, sum) =
    (goal ≤ sum)
    × (sum ≡ sofar + total_value w (inputs ins))
    × (inputs ins ++ drop (length ins) ps ≡ ps)

Selected-cons :
    (w : Wallet) (goal : ℕ) (p : TxPrevOut) (ps : List TxPrevOut) (sofar v : ℕ)
    (q r : List TxIn × ℕ)
    → value_of w p ≡ v
    → Selected w goal ps (sofar + v) q
    → done (new_input p ∷ q.0, q.1) ≡ done r
    → Selected w goal (p ∷ ps) sofar r
unfolding total_value new_input
Selected-cons w goal p ps sofar v q r value (enough, sum, all) e =
    let same : (new_input p ∷ q.0, q.1) ≡ r = cc in
    rw (← same) (enough, omega arith, ap (λ t. p ∷ t) all)

-- One round of the selection, by what the later rounds come to.
select_round-Selected :
    (w : Wallet) (goal : ℕ) (p : TxPrevOut) (ps : List TxPrevOut) (sofar v : ℕ) (r : List TxIn × ℕ)
    → value_of w p ≡ v
    → sofar + v < 2 ^ 64
    → ((q : List TxIn × ℕ)
        → select_inputs w goal ps (sofar + v) ≡ done q
        → Selected w goal ps (sofar + v) q)
    → ((if leb goal ((sofar + v) % 2 ^ 64)
          then done ([], (sofar + v) % 2 ^ 64)
          else select_inputs w goal ps ((sofar + v) % 2 ^ 64))
        >>= λ q. done (new_input p ∷ q.0, q.1))
      ≡ done r
    → Selected w goal (p ∷ ps) sofar r
unfolding total_value
select_round-Selected w goal p ps sofar v r value below later e =
    let sum : (sofar + v) % 2 ^ 64 ≡ sofar + v = omega arith in
    elim (Bool-cases (leb goal (sofar + v))) [
      | inl reached ↦
          Selected-cons w goal p ps sofar v ([], sofar + v) r value
            (ground arith, omega arith, refl) (rw (sum, reached) at e)
      | inr short ↦
          let (q, e₁, e₂) =
            >>=-eq-done (select_inputs w goal ps (sofar + v)) (λ q. done (new_input p ∷ q.0, q.1))
              (rw (sum, short) at e) in
          Selected-cons w goal p ps sofar v q r value (later q e₁) e₂
    ]

pub select_inputs-Selected :
    (w : Wallet) (goal : ℕ) (ps : List TxPrevOut) (sofar : ℕ) (r : List TxIn × ℕ)
    → select_inputs w goal ps sofar ≡ done r
    → sofar + total_value w ps < 2 ^ 64
    → goal ≤ sofar + total_value w ps
    → Selected w goal ps sofar r
unfolding select_inputs total_value new_input
select_inputs-Selected w goal [] sofar r e below enough =
    let same : ([], sofar) ≡ r = cc in rw (← same) (omega arith, omega arith, refl)
select_inputs-Selected w goal (p ∷ ps) sofar r e below enough =
    let (o, e₁, f₁) = >>=-eq-done (uo w p) _ e in
    let value = value_of_done w p e₁ in
    select_round-Selected w goal p ps sofar o.value r value (omega arith)
      (λ q h. select_inputs-Selected w goal ps (sofar + o.value) q h (omega arith) (omega arith)) f₁

spend_btc-total :
    (ss : List OneSendTo) (sum : ℕ)
    → sum + total_amount ss < 2 ^ 64
    → spend_btc ss sum ≡ sum + total_amount ss
unfolding spend_btc total_amount
spend_btc-total [] sum below = omega arith
spend_btc-total (s ∷ ss) sum below =
    let small : (sum + s.amount) % 2 ^ 64 ≡ sum + s.amount = omega arith in
    rw small (omega (arith, spend_btc-total ss (sum + s.amount) (omega arith)))

pub spend_and_fee-total :
    (w : Wallet)
    → total_amount w.send_to + w.fee_btc < 2 ^ 64
    → spend_and_fee w ≡ total_amount w.send_to + w.fee_btc
unfolding spend_and_fee
spend_and_fee-total w below = omega (arith, spend_btc-total w.send_to 0 (omega arith))

total-append : (xs ys : List TxOut) → total (xs ++ ys) ≡ total xs + total ys
unfolding total
total-append [] ys = omega arith
total-append (x ∷ xs) ys = omega (arith, total-append xs ys)

total-send_out : (ss : List OneSendTo) → total (map send_out ss) ≡ total_amount ss
unfolding total total_amount send_out
total-send_out [] = refl
total-send_out (s ∷ ss) = ap (λ n. s.amount + n) (total-send_out ss)

-- The outputs are what is sent and the change.
pub make_outputs-total :
    (c : Crypto) (w : Wallet) (outs : List TxPrevOut) (change : ℕ) (tx_outs : List TxOut)
    → make_outputs c w outs change ≡ done tx_outs
    → total tx_outs ≡ total_amount w.send_to + change
unfolding make_outputs
make_outputs-total c w outs change tx_outs e = elim (Bool-cases (ltb 0 change)) [
  | inl some_change ↦
      let (a, e₁, e₂) = >>=-eq-done (get_change_addr c w outs) _ (rw some_change at e) in
      let change_out : TxOut = record {
        value = change;
        block_height = 0;
        script_pub_key = out_script a;
      } in
      let whole : map send_out w.send_to ++ change_out ∷ [] ≡ tx_outs = cc in
      rw (← whole) (
        unfold total in
        omega (
          arith,
          total-append (map send_out w.send_to) (change_out ∷ []),
          total-send_out w.send_to,
        ))
  | inr no_change ↦
      let whole : done (map send_out w.send_to) ≡ done tx_outs =
        rw (no_change, make_outputs) at e in
      let same : map send_out w.send_to ≡ tx_outs = cc in
      rw (← same) (ground (arith, total-send_out w.send_to, no_change))
]
