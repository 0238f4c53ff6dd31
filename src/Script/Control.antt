-- ===== src/Script/Control.antt =====
-- core/script.go: the state of `evalScript`, and the cases OP_IF to OP_FROMALTSTACK, 0x63 to 0x6c.
use yoin.Base.{ℕ, Bool, false, ◌||◌, not, ◌==◌, if◌then◌else◌}
use yoin.Script.Stack.{
  Stack, Flow, next, exited, failed, ◌>>=◌, ◌>>◌, need, push, pop, push_bool, pop_int, top_int,
}

-- The main and the other stack, the stack of the open conditionals, the count of the opcodes above
-- 0x60, and the offset behind the last OP_CODESEPARATOR.
pub record State : Type 0 where
  pub stack : Stack
  pub altstack : Stack
  pub vf_exec : Stack
  pub op_count : ℕ
  pub sta : ℕ

op_if : ℕ → Bool → State → Flow State
op_if op f_exec st =
    if f_exec
    then (do
      need 1 st.stack
      (n, s) ← pop_int st.stack
      next (record st {
        stack = s;
        vf_exec = push_bool (if op == 0x63 then not (n == 0) else n == 0) st.vf_exec;
      }))
    else next (record st { vf_exec = push_bool false st.vf_exec })

-- An empty stack of conditionals is only reported; then the pop panics.
op_else : State → Flow State
op_else st = do (n, v) ← pop_int st.vf_exec; next (record st { vf_exec = push_bool (n == 0) v })

op_endif : State → Flow State
op_endif st = do (_, v) ← pop st.vf_exec; next (record st { vf_exec = v })

op_verify : State → Flow State
op_verify st = do
  need 1 st.stack
  n ← top_int 1 st.stack
  (_, s) ← pop st.stack
  if n == 0 then failed else next (record st { stack = s })

op_toaltstack : State → Flow State
op_toaltstack st = do
  need 1 st.stack
  (d, s) ← pop st.stack
  next (record st { stack = s; altstack = push d st.altstack })

op_fromaltstack : State → Flow State
op_fromaltstack st = do
  need 1 st.altstack
  (d, s) ← pop st.altstack
  next (record st { stack = push d st.stack; altstack = s })

unfoldable pub control_op : Bool → ℕ → State → Flow State
unfolding op_if op_else op_endif op_verify op_toaltstack op_fromaltstack
control_op f_exec op st =
    if op == 0x63 || op == 0x64
    then op_if op f_exec st
    else if op == 0x67
    then op_else st
    else if op == 0x68
    then op_endif st
    else if op == 0x69
    then op_verify st
    else if op == 0x6b
    then op_toaltstack st
    else if op == 0x6c
    then op_fromaltstack st
    else exited
