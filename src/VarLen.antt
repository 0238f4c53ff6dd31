-- ===== src/VarLen.antt =====
-- core/util.go: the variable-length integers of the Bitcoin protocol.
-- `StoreVarLen` writes into a buffer that the caller owns; its callers pass nine bytes and take the
-- first n of them. `WriteVarLen` and `ReadVarLen` work on a writer and on a `bytes.Reader`.
pub mod RoundTrip
mod Examples
use yoin.Base.{
  ℕ, ◌+◌, ◌-◌, ◌*◌, ◌/◌, ◌%◌, ◌^◌, List, [], ◌∷◌, Option, none, some, ◌>>=◌, ltb, leb,
  if◌then◌else◌, replicate, take, length,
}
use yoin.Bytes.{Bytes, le_bytes, le_value, prefix?, from?}

-- The assignments `b[0] = w[0]`, `b[1] = w[1]`, ...
unfoldable pub overwrite : Bytes → Bytes → Option Bytes
overwrite [] b = some b
overwrite (x ∷ w) [] = none
overwrite (x ∷ w) (_ ∷ b) = do r ← overwrite w b; some (x ∷ r)

-- The buffer afterwards, and the count that is returned. The branch for values up to 0xffff has no
-- `return`: its three bytes are written, and then the five bytes over them.
unfoldable pub store_var_len : Bytes → ℕ → Option (Bytes × ℕ)
unfolding overwrite le_bytes
store_var_len b value =
    let u = value % 2 ^ 32 in
    if ltb u 0xfd then (do b₁ ← overwrite (u ∷ []) b; some (b₁, 1)) else do
      b₁ ← if leb u 0xffff then overwrite (0xfd ∷ le_bytes 2 u) b else some b
      b₂ ← overwrite (0xfe ∷ le_bytes 4 u) b₁
      some (b₂, 5)

-- `tmpBuf[:StoreVarLen(tmpBuf[:], value)]`, as the callers write it, with a fresh `[9]byte`.
unfoldable pub var_len_field : ℕ → Bytes
unfolding store_var_len
var_len_field value = elim (store_var_len (replicate 9 0) value) [
  | some (b, n) ↦ take n b
  | none ↦ []
]

-- `2 << (2 - (0xff - c))`, for c from 0xfd.
unfoldable pub field_width : ℕ → ℕ
field_width c = 2 * 2 ^ (2 - (0xff - c))

-- The value and the size of the field; `none` where the source panics.
unfoldable pub load_var_len : Bytes → Option (ℕ × ℕ)
unfolding field_width
load_var_len [] = none
load_var_len (c ∷ r) = if ltb c 0xfd then some (c, 1) else do
  d ← prefix? (field_width c) r
  if ltb 0x7fffffff (le_value d) then none else some (le_value d, 1 + field_width c)

-- What `WriteVarLen` writes for a `uint32`.
unfoldable pub write_var_len : ℕ → Bytes
unfolding le_bytes
write_var_len v =
    if ltb v 0xfd
    then v ∷ []
    else if ltb v 0x10000
    then 0xfd ∷ le_bytes 2 v
    else 0xfe ∷ le_bytes 4 v

-- The errors of `ReadVarLen`: the reader's own at its end, and a short read.
pub data ReadError : Type 0 where
  end_of_input too_short : ReadError

pub data Read : Type 0 where
  value : ℕ → Bytes → Read
  failed : ReadError → Read

read_bytes : ℕ → Bytes → Read
read_bytes c [] = failed end_of_input
read_bytes c (x ∷ r) = elim (prefix? c (x ∷ r)) [
  | none ↦ failed too_short
  | some d ↦ elim (from? c (x ∷ r)) [
    | none ↦ failed too_short
    | some rest ↦ value (le_value d) rest
  ]
]

-- On a `bytes.Reader` that holds the given bytes; a value comes with the bytes left.
unfoldable pub read_var_len : Bytes → Read
unfolding read_bytes field_width
read_var_len [] = failed end_of_input
read_var_len (c ∷ r) = if ltb c 0xfd then value c r else read_bytes (field_width c) r
