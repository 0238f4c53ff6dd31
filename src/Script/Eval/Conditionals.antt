-- ===== src/Script/Eval/Conditionals.antt =====
-- core/script.go: what the open conditionals do to the execution of the opcodes behind them.
use mathlib.Core.List.{cons-ne-nil}
use yoin.Base.{
  ℕ, zero, suc, ◌+◌, ◌≡◌, ◌≢◌, refl, Bool, true, false, ◌&&◌, ◌||◌, [], ◌∷◌, Option, ltb, leb, ◌==◌,
  if◌then◌else◌, length, All, Bool-cases, Option-cases, inl, inr,
}
use yoin.Bytes.{Bytes, from?}
use yoin.Crypto.{Crypto}
use yoin.Tx.{Tx}
use yoin.Script.Stack.{
  Stack, Flow, next, finished, panicked, exited, ◌>>=◌, ◌>>◌, empties, push_bool, need, pop_int,
  pop, top_int,
}
use yoin.Script.Opcode.{get_opcode}
use yoin.Script.Control.{State, control_op}
use yoin.Script.Eval.{
  on_stack, exec_op, execute, counted, too_long, unsupported, stop_if, instruction, round,
  round_with, Outcome, returned, panics, exits, out_of_fuel, close, eval_loop, initial, eval_script,
}
use yoin.Script.Shuffle.{shuffle_op}
use yoin.Script.Numeric.{numeric_op}
use yoin.Script.Hashing.{hash_op}
use yoin.Script.Signing.{check_sig, check_multisig}
use yoin.Script.Eval.Total.{Flow-cases, Fetched-cases}

-- No open conditional counts as false.
abbrev pub NoEmpty : State → Type 0
NoEmpty st = All (λ (d : Bytes). d ≢ []) st.vf_exec

empties-NoEmpty : (s : Stack) → All (λ (d : Bytes). d ≢ []) s → empties s ≡ 0
unfolding empties
empties-NoEmpty [] h = refl
empties-NoEmpty ([] ∷ s) (h, hs) = absurd (h refl)
empties-NoEmpty ((x ∷ d) ∷ s) (h, hs) = empties-NoEmpty s hs

-- A step that goes on keeps it.
data Keeps {A : Type 0} (P : A → Type 0) : Flow A → Type 0 where
  keeps : {a : A} → P a → Keeps P (next a)
  stops : {b : Bool} {s : Stack} → Keeps P (finished b s)
  faults : Keeps P panicked
  quits : Keeps P exited

Keeps-next : {A : Type 0} {P : A → Type 0} {a : A} → Keeps P (next a) → P a
Keeps-next (keeps h) = h

if_Keeps :
    (b : Bool) {x y : Flow State}
    → Keeps NoEmpty x
    → Keeps NoEmpty y
    → Keeps NoEmpty (if b then x else y)
if_Keeps true h k = h
if_Keeps false h k = k

-- What only works on the main stack keeps it.
on_stack-Keeps : (st : State) (f : Flow Stack) → NoEmpty st → Keeps NoEmpty (on_stack st f)
on_stack-Keeps st (next s) h = keeps h
on_stack-Keeps st (finished b s) h = stops
on_stack-Keeps st panicked h = faults
on_stack-Keeps st exited h = quits

bind-Keeps {ℓ} :
    {A : Type ℓ} (f : Flow A) {g : A → Flow State}
    → ((a : A) → Keeps NoEmpty (g a))
    → Keeps NoEmpty (f >>= g)
bind-Keeps (next a) k = k a
bind-Keeps (finished b s) k = stops
bind-Keeps panicked k = faults
bind-Keeps exited k = quits

-- What is left of the open conditionals after a `pop`.
pop-Keeps :
    (v : Stack) {g : Bytes → Stack → Flow State}
    → All (λ (d : Bytes). d ≢ []) v
    → ((d : Bytes) (s : Stack) → All (λ (d : Bytes). d ≢ []) s → Keeps NoEmpty (g d s))
    → Keeps NoEmpty (pop v >>= λ r. g r.0 r.1)
pop-Keeps [] h k = faults
pop-Keeps (d ∷ v) (_, h) k = k d v h

pop_int-Keeps :
    (v : Stack) {g : ℕ → Stack → Flow State}
    → All (λ (d : Bytes). d ≢ []) v
    → ((n : ℕ) (s : Stack) → All (λ (d : Bytes). d ≢ []) s → Keeps NoEmpty (g n s))
    → Keeps NoEmpty (pop_int v >>= λ r. g r.0 r.1)
pop_int-Keeps [] h k = faults
pop_int-Keeps (d ∷ v) (_, h) k = k _ v h

push_bool-NoEmpty :
    (b : Bool) (v : Stack)
    → All (λ (d : Bytes). d ≢ []) v
    → All (λ (d : Bytes). d ≢ []) (push_bool b v)
unfolding push_bool
push_bool-NoEmpty true v h = (cons-ne-nil 0 [], h)
push_bool-NoEmpty false v h = (cons-ne-nil 1 [], h)

control_op-Keeps : (op : ℕ) (st : State) → NoEmpty st → Keeps NoEmpty (control_op true op st)
unfolding control_op
control_op-Keeps op st h =
    if_Keeps (op == 0x63 || op == 0x64)
      (bind-Keeps (need 1 st.stack)
        λ _. bind-Keeps (pop_int st.stack) λ _. keeps (push_bool-NoEmpty _ st.vf_exec h))
      (if_Keeps (op == 0x67) (pop_int-Keeps st.vf_exec h λ n v k. keeps (push_bool-NoEmpty _ v k)) (
        if_Keeps (op == 0x68) (pop-Keeps st.vf_exec h λ d v k. keeps k) (
          if_Keeps (op == 0x69)
            (bind-Keeps (need 1 st.stack) λ _.
              bind-Keeps (top_int 1 st.stack)
                λ n. bind-Keeps (pop st.stack) λ _. if_Keeps (n == 0) stops (keeps h))
            (if_Keeps (op == 0x6b)
              (bind-Keeps (need 1 st.stack) λ _. bind-Keeps (pop st.stack) λ _. keeps h)
              (if_Keeps (op == 0x6c)
                (bind-Keeps (need 1 st.altstack) λ _. bind-Keeps (pop st.altstack) λ _. keeps h)
                quits)))))

module _ (c : Crypto) (t : Tx) (inp : ℕ) (p : Bytes) where
  exec_op-Keeps :
      (idx op : ℕ) (st : State) → NoEmpty st → Keeps NoEmpty (exec_op c t inp p idx true op st)
  unfolding exec_op
  exec_op-Keeps idx op st h = if_Keeps (op == 0x4f) (keeps h) (
      if_Keeps (leb 0x51 op && leb op 0x60) (keeps h) (
        if_Keeps (op == 0x61 || op == 0x62) (keeps h) (
          if_Keeps (leb 0x63 op && leb op 0x6c) (control_op-Keeps op st h) (
            if_Keeps (leb 0x6d op && leb op 0x82) (on_stack-Keeps st (shuffle_op op st.stack) h) (
              if_Keeps (leb 0x87 op && leb op 0xa5) (on_stack-Keeps st (numeric_op op st.stack) h) (
                if_Keeps (leb 0xa6 op && leb op 0xaa) (on_stack-Keeps st (hash_op c op st.stack) h)
                  (if_Keeps (op == 0xab) (keeps h) (
                    if_Keeps (op == 0xac)
                      (on_stack-Keeps st (check_sig c t inp p st.sta st.stack) h)
                      (if_Keeps (op == 0xae)
                        (on_stack-Keeps st (check_multisig c t inp p st.sta st.op_count st.stack) h)
                        (if_Keeps (leb 0xb0 op && leb op 0xb9) (keeps h)
                          (if_Keeps (leb 0xba op) stops quits)))))))))))

  instruction-Keeps :
      (idx op : ℕ) (v : Option Bytes) (st : State)
      → NoEmpty st
      → Keeps NoEmpty (instruction c t inp p idx true op v st)
  unfolding instruction
  instruction-Keeps idx op v st h = bind-Keeps (stop_if (too_long v)) λ _.
      bind-Keeps (stop_if (ltb 0x60 op && ltb 201 (counted op st).op_count)) λ _.
        bind-Keeps (stop_if (unsupported op)) λ _.
          after (execute c t inp p idx true op v (counted op st))
            (if_Keeps (leb op 0x4e) (keeps h) (exec_op-Keeps idx op (counted op st) h))
    where
      after :
          (f : Flow State)
          → Keeps NoEmpty f
          → Keeps NoEmpty
              (f >>= λ st₂. stop_if (ltb 1000 (length st₂.stack + length st₂.altstack)) >> next st₂)
      after f (keeps {a = st₂} k) =
          bind-Keeps (stop_if (ltb 1000 (length st₂.stack + length st₂.altstack))) λ _. keeps k
      after f stops = stops
      after f faults = faults
      after f quits = quits

-- The interpreter with `fExec` always true, as a description to compare with.
module _ (c : Crypto) (t : Tx) (inp : ℕ) (p : Bytes) where
  unfoldable pub loop_always : ℕ → ℕ → State → Outcome
  loop_always zero idx st = out_of_fuel
  loop_always (suc fuel) idx st = elim (ltb idx (length p)) [
    | false ↦ close st
    | true ↦ elim (round_with c t inp p true idx st) [
      | next (idx', st') ↦ loop_always fuel idx' st'
      | finished b s ↦ returned b s
      | panicked ↦ panics
      | exited ↦ exits
    ]
  ]

  round-always :
      (idx : ℕ) (st : State)
      → NoEmpty st
      → round c t inp p idx st ≡ round_with c t inp p true idx st
  unfolding round
  round-always idx st h = rw (empties-NoEmpty st.vf_exec h)

  with_offset-Keeps :
      (n : ℕ) (f : Flow State)
      → Keeps NoEmpty f
      → Keeps (λ (r : ℕ × State). NoEmpty r.1) (◌>>=◌ {B = ℕ × State} f (λ s. next (n, s)))
  with_offset-Keeps n f (keeps k) = keeps k
  with_offset-Keeps n f stops = stops
  with_offset-Keeps n f faults = faults
  with_offset-Keeps n f quits = quits

  round-Keeps :
      (idx : ℕ) (st : State)
      → NoEmpty st
      → Keeps (λ (r : ℕ × State). NoEmpty r.1) (round_with c t inp p true idx st)
  unfolding round_with
  round-Keeps idx st h = elim (Option-cases (from? idx p)) [
    | inl e ↦ rw (e, round_with) faults
    | inr (rest, e) ↦ elim (Fetched-cases (get_opcode rest)) [
      | inl (op, v, n, g) ↦
          rw (e, g, round_with)
            (with_offset-Keeps (idx + n) (instruction c t inp p (idx + n) true op v st)
              (instruction-Keeps c t inp p (idx + n) op v st h))
      | inr (inl (x, g)) ↦ rw (e, g, round_with) stops
      | inr (inr g) ↦ rw (e, g, round_with) faults
    ]
  ]

  loop-always :
      (fuel idx : ℕ) (st : State)
      → NoEmpty st
      → eval_loop c t inp p fuel idx st ≡ loop_always fuel idx st
  unfolding eval_loop loop_always
  loop-always zero idx st h = refl
  loop-always (suc fuel) idx st h = elim (Bool-cases (ltb idx (length p))) [
    | inr e ↦ rw (e, eval_loop, loop_always)
    | inl e ↦ elim (Flow-cases (round_with c t inp p true idx st)) [
      | inl ((idx', st'), r) ↦
          let h' : NoEmpty st' = Keeps-next (rw r at (round-Keeps idx st h)) in
          rw (e, eval_loop, loop_always, round-always idx st h, r, loop-always fuel idx' st' h')
      | inr (inl (b, s, r)) ↦ rw (e, eval_loop, loop_always, round-always idx st h, r)
      | inr (inr (inl r)) ↦ rw (e, eval_loop, loop_always, round-always idx st h, r)
      | inr (inr (inr r)) ↦ rw (e, eval_loop, loop_always, round-always idx st h, r)
    ]
  ]

-- `evalScript` does on every script and stack what it does with `fExec` always true: the statements
-- of both branches of a conditional are executed, whatever its condition.
pub eval_script-always :
    (c : Crypto) (t : Tx) (inp : ℕ) (p : Bytes) (s : Stack)
    → eval_script c t inp p s ≡ loop_always c t inp p (suc (length p)) 0 (initial s)
unfolding eval_script
eval_script-always c t inp p s = loop-always c t inp p (suc (length p)) 0 (initial s) tt
