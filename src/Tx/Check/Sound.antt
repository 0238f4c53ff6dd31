-- ===== src/Tx/Check/Sound.antt =====
-- What `CheckTransaction` accepts, in slow mode.
use mathlib.Core.List.{cons-ne-nil}
use yoin.Base.{
  ℕ, ◌+◌, ◌%◌, ◌^◌, ◌≤◌, ◌≡◌, ◌≢◌, ◌↔◌, refl, Bool, true, false, List, [], ◌∷◌, ltb, ◌==◌,
  if◌then◌else◌, length, All, arith, Bool-cases, inl, inr,
}
use yoin.Bytes.Laws.{bytes_equal_iff}
use yoin.Tx.{TxPrevOut, TxIn, TxOut, Tx, is_null, is_coin_base}
use yoin.Tx.Check.{
  max_block_size, max_money, CheckError, Verdict, accepted, rejected, ◌>>◌, reject_if, check_values,
  prev_out_equal, present, check_duplicates, check_prevouts, check_coinbase_script,
  check_transaction,
}

-- The exact sum of the values.
unfoldable pub total : List TxOut → ℕ
total [] = 0
total (o ∷ os) = o.value + total os

abbrev pub Unseen : List TxPrevOut → TxIn → Type 0
Unseen seen i = All (λ p. i.input ≢ p) seen

-- No two inputs spend the same output.
abbrev pub Distinct : List TxIn → Type 0
Distinct [] = Unit
Distinct (i ∷ is) = All (λ (j : TxIn). j.input ≢ i.input) is × Distinct is

prev_out_equal_iff : (p q : TxPrevOut) → (prev_out_equal p q ≡ true) ↔ (p ≡ q)
unfolding prev_out_equal
prev_out_equal_iff p q = ground (arith, bytes_equal_iff p.pre_out_tx_hash q.pre_out_tx_hash)

present_iff : (i : TxIn) (seen : List TxPrevOut) → (present i.input seen ≡ false) ↔ Unseen seen i
unfolding present
present_iff i [] = (λ _. tt, λ _. refl)
present_iff i (q ∷ seen) = elim (Bool-cases (prev_out_equal i.input q)) [
  | inl e ↦ rw e ((λ h. cc), (λ (ne, _). absurd (ne ((prev_out_equal_iff i.input q).0 e))))
  | inr e ↦ rw e (
    (λ h. ((λ same. cc ((prev_out_equal_iff i.input q).1 same)), (present_iff i seen).0 h)),
    (λ (_, rest). (present_iff i seen).1 rest),
  )
]

-- The running sum never wraps around while no test fails.
values_iff :
    (os : List TxOut) (s : ℕ)
    → s ≤ max_money
    → (check_values os s ≡ accepted)
      ↔ (All (λ (o : TxOut). o.value ≤ max_money) os × (s + total os ≤ max_money))
unfolding check_values total
values_iff [] s h = ((λ _. (tt, omega arith)), (λ _. refl))
values_iff (o ∷ os) s h = elim (Bool-cases (ltb max_money o.value)) [
  | inl e ↦ rw e ((λ c. cc), (λ ((v, _), _). absurd (ground arith)))
  | inr e ↦
      let m : (s + o.value) % 2 ^ 64 ≡ s + o.value = ground arith in
      rw (e, m)
        (elim (Bool-cases (ltb max_money (s + o.value))) [
          | inl big ↦ rw big ((λ c. cc), (λ (_, t). absurd (ground arith)))
          | inr fits ↦
              let ih = values_iff os (s + o.value) (ground arith) in
              rw fits (
                (λ c. ((ground arith, (ih.0 c).0), omega (arith, (ih.0 c).1))),
                (λ ((_, vs), t). ih.1 (vs, omega arith)),
              )
        ])
]

both_iff :
    (is : List TxIn) (p : TxPrevOut) (seen : List TxPrevOut)
    → All (Unseen (p ∷ seen)) is ↔ (All (λ (j : TxIn). j.input ≢ p) is × All (Unseen seen) is)
both_iff [] p seen = ((λ _. (tt, tt)), (λ _. tt))
both_iff (i ∷ is) p seen =
    let ih = both_iff is p seen in
    (
      (λ ((a, b), r). let (x, y) = ih.0 r in ((a, x), (b, y))),
      (λ ((a, x), (b, y)). ((a, b), ih.1 (x, y))),
    )

duplicates_iff :
    (is : List TxIn) (seen : List TxPrevOut)
    → (check_duplicates is seen ≡ accepted) ↔ (Distinct is × All (Unseen seen) is)
unfolding check_duplicates
duplicates_iff [] seen = ((λ _. (tt, tt)), (λ _. refl))
duplicates_iff (i ∷ is) seen = elim (Bool-cases (present i.input seen)) [
  | inl e ↦ rw e ((λ c. cc), (λ (_, (u, _)). cc ((present_iff i seen).1 u)))
  | inr e ↦
      let ih = duplicates_iff is (i.input ∷ seen) in
      let both = both_iff is i.input seen in
      rw e (
        (λ c.
            let (d, u) = ih.0 c in
            let (x, y) = both.0 u in ((x, d), ((present_iff i seen).0 e, y))),
        (λ ((x, d), (_, y)). ih.1 (d, both.1 (x, y))),
      )
]

prevouts_iff :
    (is : List TxIn)
    → (check_prevouts is ≡ accepted) ↔ All (λ (i : TxIn). is_null i.input ≡ false) is
unfolding check_prevouts
prevouts_iff [] = ((λ _. tt), (λ _. refl))
prevouts_iff (i ∷ is) = elim (Bool-cases (is_null i.input)) [
  | inl e ↦ rw e ((λ c. cc), (λ (h, _). cc))
  | inr e ↦ rw e ((λ c. (refl, (prevouts_iff is).0 c)), (λ (_, r). (prevouts_iff is).1 r))
]

-- The conditions of the last stage: the script size of a coin base, real outputs for the others.
abbrev pub InputsFit : Bool → List TxIn → Type 0
InputsFit true is = All (λ (i : TxIn). (2 ≤ length i.script_sig) × (length i.script_sig ≤ 100)) is
InputsFit false is = All (λ (i : TxIn). is_null i.input ≡ false) is

pub record IsSound (t : Tx) : Type 0 where
  pub has_inputs : t.tx_ins ≢ []
  pub has_outputs : t.tx_outs ≢ []
  pub within_block : t.size ≤ 1000000
  pub values : All (λ (o : TxOut). o.value ≤ 2100000000000000) t.tx_outs
  pub money : total t.tx_outs ≤ 2100000000000000
  pub distinct : Distinct t.tx_ins
  pub inputs : InputsFit (is_coin_base t) t.tx_ins

coinbase_script_iff :
    (is : List TxIn) → length is ≡ 1 → (check_coinbase_script is ≡ accepted) ↔ InputsFit true is
unfolding check_coinbase_script
coinbase_script_iff [] h = absurd (omega arith)
coinbase_script_iff (i ∷ []) h = ground arith
coinbase_script_iff (i ∷ j ∷ is) h = absurd (omega arith)

length-coin_base : (t : Tx) → is_coin_base t ≡ true → length t.tx_ins ≡ 1
unfolding is_coin_base
length-coin_base t h = ground arith

last_iff :
    (t : Tx)
    → ((if is_coin_base t then check_coinbase_script t.tx_ins else check_prevouts t.tx_ins)
        ≡ accepted)
      ↔ InputsFit (is_coin_base t) t.tx_ins
last_iff t = elim (Bool-cases (is_coin_base t)) [
  | inl e ↦ rw e (coinbase_script_iff t.tx_ins (length-coin_base t e))
  | inr e ↦ rw e (prevouts_iff t.tx_ins)
]

>>_iff : (v w : Verdict) → ((v >> w) ≡ accepted) ↔ ((v ≡ accepted) × (w ≡ accepted))
>>_iff accepted w = ((λ h. (refl, h)), (λ (_, h). h))
>>_iff (rejected e) w = ((λ h. cc), (λ (h, _). cc))

stages_iff :
    (v₁ v₂ v₃ v₄ v₅ v₆ : Verdict)
    → ((v₁ >> v₂ >> v₃ >> (v₄ >> v₅) >> v₆) ≡ accepted) ↔ (
        (v₁ ≡ accepted)
        × (v₂ ≡ accepted)
        × (v₃ ≡ accepted)
        × (v₄ ≡ accepted)
        × (v₅ ≡ accepted)
        × (v₆ ≡ accepted))
stages_iff accepted accepted accepted accepted v₅ v₆ =
    let e = >>_iff v₅ v₆ in
    ((λ h. (refl, refl, refl, refl, (e.0 h).0, (e.0 h).1)), (λ (_, _, _, _, a, b). e.1 (a, b)))
stages_iff (rejected e) v₂ v₃ v₄ v₅ v₆ = ((λ h. cc), (λ (a, _, _, _, _, _). cc))
stages_iff accepted (rejected e) v₃ v₄ v₅ v₆ = ((λ h. cc), (λ (_, a, _, _, _, _). cc))
stages_iff accepted accepted (rejected e) v₄ v₅ v₆ = ((λ h. cc), (λ (_, _, a, _, _, _). cc))
stages_iff accepted accepted accepted (rejected e) v₅ v₆ = ((λ h. cc), (λ (_, _, _, a, _, _). cc))

some_iff {ℓ} :
    {A : Type ℓ} (xs : List A) (e : CheckError)
    → (reject_if (length xs == 0) e ≡ accepted) ↔ (xs ≢ [])
some_iff [] e = ((λ h. cc), (λ h. absurd (h refl)))
some_iff (x ∷ xs) e = ((λ _. cons-ne-nil x xs), (λ _. ground arith))

size_iff : (n m : ℕ) (e : CheckError) → (reject_if (ltb m n) e ≡ accepted) ↔ (n ≤ m)
size_iff n m e = ground arith

none_seen : (is : List TxIn) → All (Unseen []) is
none_seen [] = tt
none_seen (i ∷ is) = (tt, none_seen is)

-- In slow mode `CheckTransaction` accepts exactly the sound transactions: some input and some
-- output, size at most 1000000, every value and the exact sum of the values at most 21 million
-- coins (the `uint64` sum cannot wrap around unnoticed), no output spent twice, and a coin base
-- script of 2 to 100 bytes, or no null previous output in any other transaction.
pub check_transaction_iff : (t : Tx) → (check_transaction true t ≡ accepted) ↔ IsSound t
unfolding check_transaction
check_transaction_iff t =
    let inputs = some_iff t.tx_ins CheckError.vin_empty in
    let outputs = some_iff t.tx_outs CheckError.vout_empty in
    let size = size_iff t.size max_block_size CheckError.size_limits in
    let values = values_iff t.tx_outs 0 (omega arith) in
    let duplicates = duplicates_iff t.tx_ins [] in
    let last = last_iff t in
    let stages = stages_iff _ _ _ _ _ _ in
    (
      (λ h.
          let (a, b, c, d, e, f) = stages.0 h in
          record {
            has_inputs = inputs.0 a;
            has_outputs = outputs.0 b;
            within_block = size.0 c;
            values = (values.0 d).0;
            money = omega (arith, (values.0 d).1);
            distinct = (duplicates.0 e).0;
            inputs = last.0 f;
          }),
      (λ s. stages.1 (
        inputs.1 s.has_inputs,
        outputs.1 s.has_outputs,
        size.1 s.within_block,
        values.1 (s.values, omega (arith, s.money)),
        duplicates.1 (s.distinct, none_seen t.tx_ins),
        last.1 s.inputs,
      )),
    )
