-- ===== src/Script/Stack/Numbers.antt =====
-- Numbers on the stack.
use yoin.Base.{ℕ, ◌%◌, ◌^◌, ◌≡◌, refl, Bool, true, false, if◌then◌else◌, take, arith}
use yoin.Bytes.{le_bytes, le_value}
use yoin.Bytes.Laws.{le_value-le_bytes}
use yoin.Script.Stack.{Stack, next, push_bool, push_int, pop_int, int_of}

take-le_bytes : (v : ℕ) → take 4 (le_bytes 4 v) ≡ le_bytes 4 v
unfolding le_bytes
take-le_bytes v = refl

-- What `pushInt` pushes is popped as the number modulo 2^32, and the stack is as it was.
pub pop-push_int : (v : ℕ) (s : Stack) → pop_int (push_int v s) ≡ next (v % 2 ^ 32, s)
unfolding push_int int_of
pop-push_int v s = rw (take-le_bytes (v % 2 ^ 32), le_value-le_bytes 4 (v % 2 ^ 32) (omega arith))

-- What `pushBool` pushes is popped as 0 for true and as 1 for false.
pub pop-push_bool :
    (v : Bool) (s : Stack) → pop_int (push_bool v s) ≡ next ((if v then 0 else 1), s)
unfolding push_bool int_of le_value
pop-push_bool true s = refl
pop-push_bool false s = refl
