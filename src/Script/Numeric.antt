-- ===== src/Script/Numeric.antt =====
-- core/script.go: the cases of `evalScript` that compare, calculate and test, 0x87 to 0xa5.
-- Numbers are `popInt` results, from 0 to 2^32 - 1; a negative result is pushed modulo 2^32.
pub mod Tests
use yoin.Base.{
  ℕ, ◌+◌, ◌-◌, ◌^◌, Bool, not, ◌&&◌, ◌||◌, List, [], ◌∷◌, ltb, leb, ◌==◌, if◌then◌else◌, length,
}
use yoin.Bytes.{Bytes, bytes_equal}
use yoin.Script.Stack.{
  Stack, Flow, next, finished, exited, ◌>>=◌, ◌>>◌, need, push, pop, push_int, push_bool, pop_int,
}

op_equal : Stack → Flow Stack
op_equal s = do
  need 2 s
  (a, s₁) ← pop s
  (b, s₂) ← pop s₁
  next (if bytes_equal a b then push (1 ∷ []) s₂ else push (0 ∷ []) s₂)

-- The script ends here, with the result of the comparison.
op_equalverify : Stack → Flow Stack
op_equalverify s = do need 2 s; (a, s₁) ← pop s; (b, s₂) ← pop s₁; finished (bytes_equal a b) s₂

abbrev unary : (ℕ → Stack → Stack) → Stack → Flow Stack
unary f s = do need 1 s; (a, s₁) ← pop_int s; next (f a s₁)

abbrev binary : (ℕ → ℕ → Stack → Stack) → Stack → Flow Stack
binary f s = do need 2 s; (a, s₁) ← pop_int s; (b, s₂) ← pop_int s₁; next (f a b s₂)

abbrev test : (ℕ → ℕ → Bool) → Stack → Flow Stack
test p = binary (λ a b. push_bool (p a b))

-- `stack.popInt() != 0 && stack.popInt() != 0`: the second number stays where the first is 0.
op_booland : Stack → Flow Stack
op_booland s = do
  need 2 s
  (a, s₁) ← pop_int s
  if a == 0
      then next (push_bool Bool.false s₁)
      else (do (b, s₂) ← pop_int s₁; next (push_bool (not (b == 0)) s₂))

-- `stack.popInt() != 0 || stack.popInt() != 0`: the second number stays where the first is not 0.
op_boolor : Stack → Flow Stack
op_boolor s = do
  need 2 s
  (a, s₁) ← pop_int s
  if a == 0
      then (do (b, s₂) ← pop_int s₁; next (push_bool (not (b == 0)) s₂))
      else next (push_bool Bool.true s₁)

-- OP_NUMEQUALVERIFY ends the script with the result of the comparison.
op_numequalverify : Stack → Flow Stack
op_numequalverify s = do need 2 s; (a, s₁) ← pop_int s; (b, s₂) ← pop_int s₁; finished (a == b) s₂

op_within : Stack → Flow Stack
op_within s = do
  need 3 s
  (x, s₁) ← pop_int s
  (mi, s₂) ← pop_int s₁
  (ma, s₃) ← pop_int s₂
  next (push_bool (leb mi x && ltb x ma) s₃)

-- The cases up to OP_0NOTEQUAL. `-x` and `x - 1` are taken modulo 2^32; an `int` from the stack is
-- never negative, so OP_ABS pushes it as it is.
unfoldable pub compare_op : ℕ → Stack → Flow Stack
unfolding op_equal op_equalverify
compare_op op s =
    if op == 0x87
    then op_equal s
    else if op == 0x88
    then op_equalverify s
    else if op == 0x8c
    then unary (λ a. push_int (a + 2 ^ 32 - 1)) s
    else if op == 0x8f
    then unary (λ a. push_int (2 ^ 32 - a)) s
    else if op == 0x90
    then unary push_int s
    else if op == 0x91
    then unary (λ a. push_bool (a == 0)) s
    else if op == 0x92
    then unary (λ a. push_bool (not (a == 0))) s
    else exited

-- The cases from OP_ADD on. The first number popped is `a`.
unfoldable pub arith_op : ℕ → Stack → Flow Stack
unfolding op_booland op_boolor op_numequalverify op_within
arith_op op s =
    if op == 0x93
    then binary (λ a b. push_int (a + b)) s
    else if op == 0x94
    then binary (λ a b. push_int (a + 2 ^ 32 - b)) s
    else if op == 0x9a
    then op_booland s
    else if op == 0x9b
    then op_boolor s
    else if op == 0x9c
    then test ◌==◌ s
    else if op == 0x9d
    then op_numequalverify s
    else if op == 0x9e
    then test (λ a b. not (a == b)) s
    else if op == 0x9f
    then test ltb s
    else if op == 0xa0
    then test (λ a b. ltb b a) s
    else if op == 0xa1
    then test leb s
    else if op == 0xa2
    then test (λ a b. leb b a) s
    else if op == 0xa3
    then binary (λ a b. push_int (if ltb a b then a else b)) s
    else if op == 0xa4
    then binary (λ a b. push_int (if ltb b a then a else b)) s
    else if op == 0xa5
    then op_within s
    else exited

unfoldable pub numeric_op : ℕ → Stack → Flow Stack
unfolding compare_op arith_op
numeric_op op s = if ltb op 0x93 then compare_op op s else arith_op op s
