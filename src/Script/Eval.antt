-- ===== src/Script/Eval.antt =====
-- core/script.go: the loop of `evalScript`, and `VerifyTxScript`.
pub mod Total
pub mod Conditionals
pub mod Steps
pub mod Payments
mod Examples
use yoin.Base.{
  ℕ, zero, suc, ◌+◌, ◌-◌, ◌^◌, Bool, true, false, ◌&&◌, ◌||◌, not, List, [], ◌∷◌, Option, none,
  some, ltb, leb, ◌==◌, if◌then◌else◌, length,
}
use yoin.Bytes.{Bytes, from?}
use yoin.Crypto.{Crypto}
use yoin.Tx.{Tx}
use yoin.Script.Stack.{
  Stack, Flow, next, finished, panicked, exited, failed, ◌>>=◌, ◌>>◌, push, push_int, empties,
}
use yoin.Script.Opcode.{fetched, bad_script, fetch_panic, get_opcode}
use yoin.Script.Control.{State, control_op}
use yoin.Script.Shuffle.{shuffle_op}
use yoin.Script.Numeric.{numeric_op}
use yoin.Script.Hashing.{hash_op}
use yoin.Script.Signing.{check_sig, check_multisig}

abbrev pub max_script_element_size : ℕ
max_script_element_size = 520

abbrev pub on_stack : State → Flow Stack → Flow State
on_stack st f = f >>= λ s. next (record st { stack = s })

-- OP_CAT and the others that are refused wherever they stand.
unfoldable pub unsupported : ℕ → Bool
unsupported op =
    op == 0x7e
    || op == 0x7f
    || op == 0x80
    || op == 0x81
    || op == 0x83
    || op == 0x84
    || op == 0x85
    || op == 0x86
    || op == 0x8d
    || op == 0x8e
    || op == 0x95
    || op == 0x96
    || op == 0x97
    || op == 0x98
    || op == 0x99

abbrev pub too_long : Option Bytes → Bool
too_long none = false
too_long (some v) = ltb max_script_element_size (length v)

abbrev pub pushed : Option Bytes → Bytes
pushed none = []
pushed (some v) = v

abbrev pub stop_if : Bool → Flow (Unit {0})
stop_if b = if b then failed else next tt

-- `nOpCount++` for the opcodes above 0x60.
abbrev pub counted : ℕ → State → State
counted op st = record st { op_count = if ltb 0x60 op then st.op_count + 1 else st.op_count }

-- The script, the input's transaction and its index.
module _ (c : Crypto) (t : Tx) (inp : ℕ) (p : Bytes) where
  -- The cases of the switch in the order of their opcodes; `idx` is behind the instruction.
  unfoldable pub exec_op : ℕ → Bool → ℕ → State → Flow State
  exec_op idx f_exec op st =
      if op == 0x4f
      then next (record st { stack = push_int (2 ^ 32 - 1) st.stack })
      else if leb 0x51 op && leb op 0x60
      then next (record st { stack = push_int (op - 0x50) st.stack })
      else if op == 0x61 || op == 0x62
      then next st
      else if leb 0x63 op && leb op 0x6c
      then control_op f_exec op st
      else if leb 0x6d op && leb op 0x82
      then on_stack st (shuffle_op op st.stack)
      else if leb 0x87 op && leb op 0xa5
      then on_stack st (numeric_op op st.stack)
      else if leb 0xa6 op && leb op 0xaa
      then on_stack st (hash_op c op st.stack)
      else if op == 0xab
      then next (record st { sta = idx })
      else if op == 0xac
      then on_stack st (check_sig c t inp p st.sta st.stack)
      else if op == 0xae
      then on_stack st (check_multisig c t inp p st.sta st.op_count st.stack)
      else if leb 0xb0 op && leb op 0xb9
      then next st
      else if leb 0xba op
      then failed
      else exited

  -- The effect of an instruction that passed the tests.
  unfoldable pub execute : ℕ → Bool → ℕ → Option Bytes → State → Flow State
  unfolding exec_op
  execute idx f_exec op v st =
      if f_exec && leb op 0x4e
      then next (record st { stack = push (pushed v) st.stack })
      else if f_exec || (leb 0x63 op && leb op 0x68)
      then exec_op idx f_exec op st
      else next st

  -- An instruction with its tests.
  unfoldable pub instruction : ℕ → Bool → ℕ → Option Bytes → State → Flow State
  unfolding execute unsupported
  instruction idx f_exec op v st = do
    stop_if (too_long v)
    let st₁ = counted op st
    stop_if (ltb 0x60 op && ltb 201 st₁.op_count)
    stop_if (unsupported op)
    st₂ ← execute idx f_exec op v st₁
    stop_if (ltb 1000 (length st₂.stack + length st₂.altstack))
    next st₂

  -- One round of the loop, for `idx < len(p)`, with the given `fExec`.
  unfoldable pub round_with : Bool → ℕ → State → Flow (ℕ × State)
  unfolding instruction
  round_with f_exec idx st = elim (from? idx p) [
    | none ↦ panicked
    | some rest ↦ elim (get_opcode rest) [
      | bad_script e ↦ failed
      | fetch_panic ↦ panicked
      | fetched op v n ↦ do st' ← instruction (idx + n) f_exec op v st; next (idx + n, st')
    ]
  ]

  unfoldable pub round : ℕ → State → Flow (ℕ × State)
  unfolding round_with
  round idx st = round_with (empties st.vf_exec == 0) idx st

-- What a call of `evalScript` comes to: the result and the main stack, a panic, the end of the
-- process, or, in the model only, that the fuel was not enough.
pub data Outcome : Type 0 where
  returned : Bool → Stack → Outcome
  panics exits out_of_fuel : Outcome

-- The code behind the loop.
abbrev pub close : State → Outcome
close st = if ltb 0 (length st.vf_exec) then returned false st.stack else returned true st.stack

unfoldable pub eval_loop : Crypto → Tx → ℕ → Bytes → ℕ → ℕ → State → Outcome
unfolding round
eval_loop c t inp p zero idx st = out_of_fuel
eval_loop c t inp p (suc fuel) idx st = elim (ltb idx (length p)) [
  | false ↦ close st
  | true ↦ elim (round c t inp p idx st) [
    | next (idx', st') ↦ eval_loop c t inp p fuel idx' st'
    | finished b s ↦ returned b s
    | panicked ↦ panics
    | exited ↦ exits
  ]
]

abbrev pub initial : Stack → State
initial s = record { stack = s; altstack = []; vf_exec = []; op_count = 0; sta = 0 }

unfoldable pub eval_script : Crypto → Tx → ℕ → Bytes → Stack → Outcome
unfolding eval_loop
eval_script c t inp p s = eval_loop c t inp p (suc (length p)) 0 (initial s)

-- The result does not look at the stack that the second script leaves.
unfoldable pub verify_tx_script : Crypto → Tx → ℕ → Bytes → Bytes → Outcome
verify_tx_script c t inp sig_scr pk_scr = elim (eval_script c t inp sig_scr []) [
  | returned false s ↦ returned false s
  | returned true s ↦ eval_script c t inp pk_scr s
  | panics ↦ panics
  | exits ↦ exits
  | out_of_fuel ↦ out_of_fuel
]
