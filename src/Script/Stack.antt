-- ===== src/Script/Stack.antt =====
-- core/stack.go: `scrStack`. The slice grows at its end; the list has the last element first, so
-- `top(-k)` is the element with index k - 1.
pub mod Numbers
use yoin.Base.{
  ℕ, zero, suc, ◌+◌, ◌-◌, ◌%◌, ◌^◌, Bool, true, false, List, [], ◌∷◌, Option, none, some, ltb,
  if◌then◌else◌, length, get_elem?, take,
}
use yoin.Bytes.{Bytes, le_bytes, le_value}

abbrev pub Stack : Type 0
Stack = List Bytes

-- How a piece of the interpreter goes on: with a value, by `return b` from `evalScript` with the
-- main stack as it is then, by a run-time panic, or by `os.Exit(0)`.
pub data Flow {ℓ} (A : Type ℓ) : Type ℓ where
  next : A → Flow A
  finished : Bool → Stack → Flow A
  panicked : Flow A
  exited : Flow A

infixl 5 ◌>>=◌ ◌>>◌
abbrev pub ◌>>=◌ {ℓ κ} : {A : Type ℓ} {B : Type κ} → Flow A → (A → Flow B) → Flow B
next a >>= f = f a
finished b s >>= f = finished b s
panicked >>= f = panicked
exited >>= f = exited

abbrev pub ◌>>◌ {ℓ} : {B : Type ℓ} → Flow (Unit {0}) → Flow B → Flow B
m >> k = m >>= λ _. k

-- `return false`; what is left on the stack is not looked at.
abbrev pub failed {ℓ} : {A : Type ℓ} → Flow A
failed = finished false []

-- `if stack.size() < n { return false }`
abbrev pub need : ℕ → Stack → Flow (Unit {0})
need n s = if ltb (length s) n then failed else next tt

abbrev pub push : Bytes → Stack → Stack
push d s = d ∷ s

-- The test of the source, `1 == 0`, never holds: the index is out of range on an empty stack.
abbrev pub pop : Stack → Flow (Bytes × Stack)
pop [] = panicked
pop (d ∷ s) = next (d, s)

-- A true value is the byte 0 and a false value the byte 1.
unfoldable pub push_bool : Bool → Stack → Stack
push_bool v s = if v then (0 ∷ []) ∷ s else (1 ∷ []) ∷ s

-- A value of type `int` stands as its remainder modulo 2^32, which is all that `uint32(val)` keeps.
unfoldable pub push_int : ℕ → Stack → Stack
push_int v s = le_bytes 4 (v % 2 ^ 32) ∷ s

-- The bytes from the fifth on are shifted out of the `uint32`. The `int` is never negative.
unfoldable pub int_of : Bytes → ℕ
int_of d = le_value (take 4 d)

abbrev pub pop_int : Stack → Flow (ℕ × Stack)
pop_int s = do (d, s') ← pop s; next (int_of d, s')

-- `top(-k)`
abbrev pub top : ℕ → Stack → Flow Bytes
top zero s = panicked
top (suc i) s = elim (get_elem? s i) [ none ↦ panicked | some d ↦ next d ]

abbrev pub top_int : ℕ → Stack → Flow ℕ
top_int k s = do d ← top k s; next (int_of d)

-- The number of empty elements.
unfoldable pub empties : Stack → ℕ
empties [] = 0
empties ([] ∷ s) = suc (empties s)
empties ((_ ∷ _) ∷ s) = empties s
