-- ===== src/VarLen/RoundTrip.antt =====
-- Reading back what `StoreVarLen` and `WriteVarLen` write, and the sizes of both encodings.
use mathlib.Core.List.{cons-ne-nil}
use yoin.Base.{
  ℕ, suc, ◌+◌, ◌%◌, ◌^◌, ◌≤◌, ◌<◌, ◌≡◌, ◌≢◌, refl, [], ◌∷◌, ◌++◌, some, ltb, if◌then◌else◌, arith,
  length, inl, inr, Bool-cases, lt→ltb, ltb→lt, le→ltb_false,
}
use yoin.Bytes.{Bytes, le_bytes, le_value, prefix?, from?}
use yoin.Bytes.Laws.{length-le_bytes, le_value-le_bytes, prefix?-append, from?-append}
use yoin.VarLen.{
  store_var_len, var_len_field, field_width, load_var_len, write_var_len, read_var_len, value,
  read_bytes,
}

-- The field has one byte below 0xfd and five bytes from there on.
pub var_len_field_lem :
    (v : ℕ) → v < 2 ^ 32 → var_len_field v ≡ (if ltb v 0xfd then v ∷ [] else 0xfe ∷ le_bytes 4 v)
unfolding var_len_field
var_len_field_lem v h = let e : v % 2 ^ 32 ≡ v = omega arith in rw (var_len_field, e) (ground arith)

-- The whole effect of `StoreVarLen` on a buffer with five places or more.
pub store_var_len_lem :
    (v x₀ x₁ x₂ x₃ x₄ : ℕ) (r : Bytes)
    → v < 2 ^ 32
    → store_var_len (x₀ ∷ x₁ ∷ x₂ ∷ x₃ ∷ x₄ ∷ r) v ≡ (
        if ltb v 0xfd
        then some (v ∷ x₁ ∷ x₂ ∷ x₃ ∷ x₄ ∷ r, 1)
        else some (0xfe ∷ (le_bytes 4 v ++ r), 5))
unfolding store_var_len
store_var_len_lem v x₀ x₁ x₂ x₃ x₄ r h = let e : v % 2 ^ 32 ≡ v = omega arith in rw e (ground arith)

pub length-var_len_field_small : (v : ℕ) → v < 0xfd → length (var_len_field v) ≡ 1
length-var_len_field_small v h = rw (var_len_field_lem v (omega arith)) (ground arith)

pub length-var_len_field_large : (v : ℕ) → 0xfd ≤ v → v < 2 ^ 32 → length (var_len_field v) ≡ 5
unfolding le_bytes
length-var_len_field_large v l h = rw (var_len_field_lem v h) (ground arith)

-- Reading `w` bytes behind a first byte `c` that announces them.
load_wide :
    (c w v : ℕ) (r : Bytes)
    → 0xfd ≤ c
    → field_width c ≡ w
    → v < 256 ^ w
    → v ≤ 0x7fffffff
    → load_var_len (c ∷ (le_bytes w v ++ r)) ≡ some (v, 1 + w)
unfolding load_var_len
load_wide c w v r hc hw hv h = rw (
  le→ltb_false c 0xfd hc,
  hw,
  prefix?-append w (le_bytes w v) r (length-le_bytes w v),
  le_value-le_bytes w v hv,
  le→ltb_false 0x7fffffff v h,
)

load_narrow : (v : ℕ) (r : Bytes) → v < 0xfd → load_var_len (v ∷ r) ≡ some (v, 1)
unfolding load_var_len
load_narrow v r h = rw (lt→ltb v 0xfd h)

-- A field that the serialiser writes is read back with its size, whatever follows it.
pub load-var_len_field :
    (v : ℕ) (r : Bytes)
    → v ≤ 0x7fffffff
    → load_var_len (var_len_field v ++ r) ≡ some (v, length (var_len_field v))
unfolding le_bytes field_width
load-var_len_field v r h = elim (Bool-cases (ltb v 0xfd)) [
  | inl small ↦
      rw (var_len_field_lem v (omega arith), small) (load_narrow v r (ltb→lt v 0xfd small))
  | inr large ↦
      rw (var_len_field_lem v (omega arith), large)
        (load_wide 0xfe 4 v r (omega arith) refl (omega arith) h)
]

-- What `WriteVarLen` writes is read back with its size, whatever follows it.
pub load-write_var_len :
    (v : ℕ) (r : Bytes)
    → v ≤ 0x7fffffff
    → load_var_len (write_var_len v ++ r) ≡ some (v, length (write_var_len v))
unfolding write_var_len field_width
load-write_var_len v r h = elim (Bool-cases (ltb v 0xfd)) [
  | inl a ↦ rw a (load_narrow v r (ltb→lt v 0xfd a))
  | inr a ↦ elim (Bool-cases (ltb v 0x10000)) [
    | inl b ↦ rw (a, b) (load_wide 0xfd 2 v r (omega arith) refl (ltb→lt v 0x10000 b) h)
    | inr b ↦ rw (a, b) (load_wide 0xfe 4 v r (omega arith) refl (omega arith) h)
  ]
]

read_bytes_lem :
    (c : ℕ) (b d rest : Bytes)
    → b ≢ []
    → prefix? c b ≡ some d
    → from? c b ≡ some rest
    → read_bytes c b ≡ value (le_value d) rest
unfolding read_bytes
read_bytes_lem c [] d rest ne p f = absurd (ne refl)
read_bytes_lem c (x ∷ b) d rest ne p f = rw (p, f, read_bytes)

read_wide :
    (c w v : ℕ) (r : Bytes)
    → 0xfd ≤ c
    → field_width c ≡ suc w
    → v < 256 ^ suc w
    → read_var_len (c ∷ (le_bytes (suc w) v ++ r)) ≡ value v r
unfolding read_var_len
read_wide c w v r hc hw hv =
    let k : length (le_bytes (suc w) v) ≡ suc w = length-le_bytes (suc w) v in
    let step =
      read_bytes_lem (suc w) (le_bytes (suc w) v ++ r) (le_bytes (suc w) v) r
        (unfold le_bytes in cons-ne-nil _ _) (prefix?-append (suc w) _ r k)
        (from?-append (suc w) _ r k) in
    rw (le→ltb_false c 0xfd hc, hw, step, le_value-le_bytes (suc w) v hv)

-- `ReadVarLen` reads every `uint32` that `WriteVarLen` wrote, and leaves what follows it.
pub read-write_var_len :
    (v : ℕ) (r : Bytes) → v < 2 ^ 32 → read_var_len (write_var_len v ++ r) ≡ value v r
unfolding write_var_len field_width
read-write_var_len v r h = elim (Bool-cases (ltb v 0xfd)) [
  | inl a ↦ rw a (unfold read_var_len in rw a)
  | inr a ↦ elim (Bool-cases (ltb v 0x10000)) [
    | inl b ↦ rw (a, b) (read_wide 0xfd 1 v r (omega arith) refl (ltb→lt v 0x10000 b))
    | inr b ↦ rw (a, b) (read_wide 0xfe 3 v r (omega arith) refl (omega arith))
  ]
]

-- From 0xfd to 0xffff `StoreVarLen` takes five bytes where `WriteVarLen` takes three.
pub length-var_len_field-write :
    (v : ℕ)
    → 0xfd ≤ v
    → v ≤ 0xffff
    → (length (var_len_field v) ≡ 5) × (length (write_var_len v) ≡ 3)
unfolding write_var_len
length-var_len_field-write v l h = (length-var_len_field_large v l (omega arith), ground arith)
