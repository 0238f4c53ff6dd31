-- ===== src/Script/Eval/Total.antt =====
-- The loop of `evalScript` ends, and a way to run it step by step.
use yoin.Base.{
  ℕ, zero, suc, ◌+◌, ◌≤◌, ◌<◌, ◌≡◌, ◌≢◌, ◌⊎◌, refl, Bool, true, false, [], Option, ltb, length,
  arith, Bool-cases, Option-cases, inl, inr, lt→ltb, le→ltb_false, ◌==◌,
}
use yoin.Bytes.{Bytes, from?}
use yoin.Bytes.Laws.{length-from?}
use yoin.Crypto.{Crypto}
use yoin.Tx.{Tx}
use yoin.Script.Stack.{Stack, Flow, next, finished, panicked, exited, ◌>>=◌, empties}
use yoin.Script.Opcode.{OpcodeError, Fetched, fetched, bad_script, fetch_panic, get_opcode}
use yoin.Script.Opcode.Bounds.{get_opcode_bounds}
use yoin.Script.Control.{State}
use yoin.Script.Eval.{
  instruction, round, round_with, Outcome, returned, panics, exits, out_of_fuel, close, eval_loop,
  initial, eval_script, verify_tx_script,
}

-- How a round ends: a round that goes on has read at least one byte, and none behind the script.
pub data Moves (p : Bytes) (idx : ℕ) : Flow (ℕ × State) → Type 0 where
  moves : {idx' : ℕ} {st' : State} → idx < idx' → idx' ≤ length p → Moves p idx (next (idx', st'))
  stops : {b : Bool} {s : Stack} → Moves p idx (finished b s)
  faults : Moves p idx panicked
  quits : Moves p idx exited

bind-Moves :
    {p : Bytes} {idx : ℕ} (n : ℕ) (f : Flow State)
    → idx < n
    → n ≤ length p
    → Moves p idx (◌>>=◌ {B = ℕ × State} f (λ s. next (n, s)))
bind-Moves n (next s) h k = moves h k
bind-Moves n (finished b s) h k = stops
bind-Moves n panicked h k = faults
bind-Moves n exited h k = quits

pub Fetched-cases :
    (g : Fetched)
    → ((op : ℕ) × (v : Option Bytes) × (n : ℕ) × (g ≡ fetched op v n))
      ⊎ (((e : OpcodeError) × (g ≡ bad_script e)) ⊎ (g ≡ fetch_panic))
Fetched-cases (fetched op v n) = inl (op, v, n, refl)
Fetched-cases (bad_script e) = inr (inl (e, refl))
Fetched-cases fetch_panic = inr (inr refl)

pub Flow-cases {ℓ} :
    {A : Type ℓ} (f : Flow A)
    → ((a : A) × (f ≡ next a))
      ⊎ (((b : Bool) × (s : Stack) × (f ≡ finished b s)) ⊎ ((f ≡ panicked) ⊎ (f ≡ exited)))
Flow-cases (next a) = inl (a, refl)
Flow-cases (finished b s) = inr (inl (b, s, refl))
Flow-cases panicked = inr (inr (inl refl))
Flow-cases exited = inr (inr (inr refl))

pub Outcome-cases :
    (o : Outcome)
    → ((b : Bool) × (s : Stack) × (o ≡ returned b s))
      ⊎ ((o ≡ panics) ⊎ ((o ≡ exits) ⊎ (o ≡ out_of_fuel)))
Outcome-cases (returned b s) = inl (b, s, refl)
Outcome-cases panics = inr (inl refl)
Outcome-cases exits = inr (inr (inl refl))
Outcome-cases out_of_fuel = inr (inr (inr refl))

close-ne : (st : State) → close st ≢ out_of_fuel
close-ne st = ground arith

module _ (c : Crypto) (t : Tx) (inp : ℕ) (p : Bytes) where
  round_with-Moves :
      (f_exec : Bool) (idx : ℕ) (st : State) → Moves p idx (round_with c t inp p f_exec idx st)
  unfolding round_with
  round_with-Moves f_exec idx st = elim (Option-cases (from? idx p)) [
    | inl e ↦ rw (e, round_with) faults
    | inr (rest, e) ↦ elim (Fetched-cases (get_opcode rest)) [
      | inl (op, v, n, g) ↦
          let b = get_opcode_bounds rest op v n g in
          rw (e, g, round_with)
            (bind-Moves (idx + n) (instruction c t inp p (idx + n) f_exec op v st)
              (omega (arith, b.0)) (omega (arith, b.1, length-from? idx p rest e)))
      | inr (inl (x, g)) ↦ rw (e, g, round_with) stops
      | inr (inr g) ↦ rw (e, g, round_with) faults
    ]
  ]

  round-Moves : (idx : ℕ) (st : State) → Moves p idx (round c t inp p idx st)
  unfolding round
  round-Moves idx st = round_with-Moves (empties st.vf_exec == 0) idx st

  Moves-next :
      {idx idx' : ℕ} {st' : State}
      → Moves p idx (next (idx', st'))
      → (idx < idx') × (idx' ≤ length p)
  Moves-next (moves h k) = (h, k)

  -- With fuel for the bytes that are left the loop comes to an end.
  eval_loop_total :
      (fuel idx : ℕ) (st : State)
      → idx ≤ length p
      → length p < fuel + idx
      → eval_loop c t inp p fuel idx st ≢ out_of_fuel
  unfolding eval_loop
  eval_loop_total zero idx st k h = absurd (omega arith)
  eval_loop_total (suc fuel) idx st k h = elim (Bool-cases (ltb idx (length p))) [
    | inr e ↦ rw (e, eval_loop) (close-ne st)
    | inl e ↦ elim (Flow-cases (round c t inp p idx st)) [
      | inl ((idx', st'), r) ↦
          let m = Moves-next (rw r at (round-Moves idx st)) in
          rw (e, r, eval_loop) (eval_loop_total fuel idx' st' m.1 (omega arith))
      | inr (inl (b, s, r)) ↦ rw (e, r, eval_loop) (λ x. cc)
      | inr (inr (inl r)) ↦ rw (e, r, eval_loop) (λ x. cc)
      | inr (inr (inr r)) ↦ rw (e, r, eval_loop) (λ x. cc)
    ]
  ]

-- `evalScript` ends on every script and every stack: one round for each byte, and one more, is
-- enough, so the fuel of the model never runs out.
pub eval_script_total :
    (c : Crypto) (t : Tx) (inp : ℕ) (p : Bytes) (s : Stack) → eval_script c t inp p s ≢ out_of_fuel
unfolding eval_script
eval_script_total c t inp p s =
    eval_loop_total c t inp p (suc (length p)) 0 (initial s) (omega arith) (omega arith)

-- `VerifyTxScript` ends on every pair of scripts: it returns, panics or ends the process.
pub verify_tx_script_total :
    (c : Crypto) (t : Tx) (inp : ℕ) (sig_scr pk_scr : Bytes)
    → verify_tx_script c t inp sig_scr pk_scr ≢ out_of_fuel
unfolding verify_tx_script
verify_tx_script_total c t inp sig_scr pk_scr =
    elim (Outcome-cases (eval_script c t inp sig_scr [])) [
      | inl (true, s, e) ↦ rw (e, verify_tx_script) (eval_script_total c t inp pk_scr s)
      | inl (false, s, e) ↦ rw (e, verify_tx_script) (λ x. cc)
      | inr (inl e) ↦ rw (e, verify_tx_script) (λ x. cc)
      | inr (inr (inl e)) ↦ rw (e, verify_tx_script) (λ x. cc)
      | inr (inr (inr e)) ↦ absurd (eval_script_total c t inp sig_scr [] e)
    ]

-- A run of the loop, round by round.
pub data Runs (c : Crypto) (t : Tx) (inp : ℕ) (p : Bytes) : ℕ → State → Outcome → Type 0 where
  reaches_end :
      {idx : ℕ} {st : State} {o : Outcome} → length p ≤ idx → close st ≡ o → Runs c t inp p idx st o
  goes_on :
      {idx idx' : ℕ} {st st' : State} {o : Outcome}
      → idx < length p
      → round c t inp p idx st ≡ next (idx', st')
      → Runs c t inp p idx' st' o
      → Runs c t inp p idx st o
  stops_here :
      {idx : ℕ} {st : State} {b : Bool} {s : Stack}
      → idx < length p
      → round c t inp p idx st ≡ finished b s
      → Runs c t inp p idx st (returned b s)

eval_loop-Runs :
    {c : Crypto} {t : Tx} {inp : ℕ} {p : Bytes} {idx : ℕ} {st : State} {o : Outcome} (fuel : ℕ)
    → length p < fuel + idx
    → idx ≤ length p
    → Runs c t inp p idx st o
    → eval_loop c t inp p fuel idx st ≡ o
unfolding eval_loop
eval_loop-Runs zero h k r = absurd (omega arith)
eval_loop-Runs (suc fuel) h k (reaches_end e q) = rw (le→ltb_false _ _ e, eval_loop) q
eval_loop-Runs {c} {t} {inp} {p} {idx} {st} (suc fuel) h k (goes_on lt r rest) =
    let m = Moves-next c t inp p (rw r at (round-Moves c t inp p idx st)) in
    rw (lt→ltb _ _ lt, r, eval_loop) (eval_loop-Runs fuel (omega arith) m.1 rest)
eval_loop-Runs (suc fuel) h k (stops_here lt r) = rw (lt→ltb _ _ lt, r, eval_loop)

-- What a run comes to is the result of `evalScript`.
pub eval_script-Runs :
    {c : Crypto} {t : Tx} {inp : ℕ} {p : Bytes} {s : Stack} {o : Outcome}
    → Runs c t inp p 0 (initial s) o
    → eval_script c t inp p s ≡ o
unfolding eval_script
eval_script-Runs {p} r = eval_loop-Runs (suc (length p)) (omega arith) (omega arith) r
