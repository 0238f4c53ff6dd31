-- ===== src/Bytes.antt =====
-- Byte slices as lists of numbers: little-endian integers (encoding/binary) and Go's slice
-- expressions, which panic out of range. The capacity of every slice that core/ cuts is its length,
-- so `b[i:j]` panics exactly if not i <= j <= len(b).
pub mod Laws
use yoin.Base.{
  ℕ, zero, suc, ◌+◌, ◌-◌, ◌*◌, ◌/◌, ◌%◌, ◌<◌, Bool, true, false, ◌&&◌, List, [], ◌∷◌, Option, none,
  some, ◌>>=◌, ltb, ◌==◌, if◌then◌else◌, All,
}

abbrev pub Bytes : Type 0
Bytes = List ℕ

abbrev pub IsByte : ℕ → Type 0
IsByte b = b < 256

-- `PutUint16`, `PutUint32`, `PutUint64` for k = 2, 4, 8.
unfoldable pub le_bytes : ℕ → ℕ → Bytes
le_bytes zero v = []
le_bytes (suc k) v = (v % 256) ∷ le_bytes k (v / 256)

-- `Uint16`, `Uint32`, `Uint64`, and every loop of the source that joins bytes by `<<` and `|`.
unfoldable pub le_value : Bytes → ℕ
le_value [] = 0
le_value (b ∷ bs) = b + 256 * le_value bs

-- `SetBytes` of `big.Int`: the big-endian value behind what was read before.
unfoldable pub be_value_from : ℕ → Bytes → ℕ
be_value_from acc [] = acc
be_value_from acc (x ∷ b) = be_value_from (acc * 256 + x) b

unfoldable pub be_value : Bytes → ℕ
unfolding be_value_from
be_value b = be_value_from 0 b

-- `b[n:]`
unfoldable pub from? : ℕ → Bytes → Option Bytes
from? zero b = some b
from? (suc n) [] = none
from? (suc n) (x ∷ b) = from? n b

-- `b[:n]`
unfoldable pub prefix? : ℕ → Bytes → Option Bytes
prefix? zero b = some []
prefix? (suc n) [] = none
prefix? (suc n) (x ∷ b) = do p ← prefix? n b; some (x ∷ p)

-- `b[lo:hi]`
unfoldable pub slice? : Bytes → ℕ → ℕ → Option Bytes
slice? b lo hi = do r ← from? lo b; if ltb hi lo then none else prefix? (hi - lo) r

-- `bytes.Equal`
unfoldable pub bytes_equal : Bytes → Bytes → Bool
bytes_equal [] [] = true
bytes_equal [] (y ∷ ys) = false
bytes_equal (x ∷ xs) [] = false
bytes_equal (x ∷ xs) (y ∷ ys) = x == y && bytes_equal xs ys
