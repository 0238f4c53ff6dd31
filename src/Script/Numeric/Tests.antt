-- ===== src/Script/Numeric/Tests.antt =====
-- The results of the tests on numbers, as numbers.
use yoin.Base.{ℕ, ◌≡◌, Bool, not, ◌∷◌, ltb, leb, ◌==◌, if◌then◌else◌, arith}
use yoin.Bytes.{Bytes}
use yoin.Script.Stack.{Stack, next, ◌>>=◌, int_of, pop_int, push_bool}
use yoin.Script.Stack.Numbers.{pop-push_bool}
use yoin.Script.Numeric.{numeric_op}

-- The six comparisons, of the number `a` on top with the number `b` under it.
pub data Comparison : Type 0 where
  num_equal num_not_equal less_than greater_than less_or_equal greater_or_equal : Comparison

abbrev pub opcode_of : Comparison → ℕ
opcode_of Comparison.num_equal = 0x9c
opcode_of Comparison.num_not_equal = 0x9e
opcode_of Comparison.less_than = 0x9f
opcode_of Comparison.greater_than = 0xa0
opcode_of Comparison.less_or_equal = 0xa1
opcode_of Comparison.greater_or_equal = 0xa2

abbrev pub holds : Comparison → ℕ → ℕ → Bool
holds Comparison.num_equal a b = a == b
holds Comparison.num_not_equal a b = not (a == b)
holds Comparison.less_than a b = ltb a b
holds Comparison.greater_than a b = ltb b a
holds Comparison.less_or_equal a b = leb a b
holds Comparison.greater_or_equal a b = leb b a

pushes :
    (k : Comparison) (a b : Bytes) (s : Stack)
    → numeric_op (opcode_of k) (a ∷ b ∷ s) ≡ next (push_bool (holds k (int_of a) (int_of b)) s)
unfolding numeric_op
pushes Comparison.num_equal a b s = ground arith
pushes Comparison.num_not_equal a b s = ground arith
pushes Comparison.less_than a b s = ground arith
pushes Comparison.greater_than a b s = ground arith
pushes Comparison.less_or_equal a b s = ground arith
pushes Comparison.greater_or_equal a b s = ground arith

-- Every comparison leaves the number 0 where it holds and 1 where it does not, in place of its two
-- operands, the first popped on its left: the truth values are the wrong way round.
pub comparison_inverted :
    (k : Comparison) (a b : Bytes) (s : Stack)
    → (numeric_op (opcode_of k) (a ∷ b ∷ s) >>= pop_int)
      ≡ next ((if holds k (int_of a) (int_of b) then 0 else 1), s)
comparison_inverted k a b s = rw (pushes k a b s) (pop-push_bool (holds k (int_of a) (int_of b)) s)
