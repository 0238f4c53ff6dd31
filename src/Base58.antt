-- ===== src/Base58.antt =====
-- core/base58.go: a byte string as a number in the base 58. A text is the list of its bytes.
-- The loop over the runes of a text stops at the first byte above 127, as at any other that is not in
-- the set, so going byte by byte gives the same.
pub mod RoundTrip
pub mod Fits
mod Examples
use yoin.Base.{
  ℕ, zero, suc, ◌+◌, ◌*◌, ◌/◌, ◌%◌, Bool, List, [], ◌∷◌, Option, none, some, ◌>>=◌, ◌==◌,
  if◌then◌else◌, length, get_elem?,
}
use yoin.Bytes.{Bytes, be_value}

abbrev pub b58set : Bytes
b58set =
    49 ∷ 50 ∷ 51 ∷ 52 ∷ 53 ∷ 54 ∷ 55 ∷ 56 ∷ 57 ∷ 65 ∷ 66 ∷ 67 ∷ 68 ∷ 69 ∷ 70 ∷ 71 ∷ 72 ∷ 74 ∷ 75
    ∷ 76 ∷ 77 ∷ 78 ∷ 80 ∷ 81 ∷ 82 ∷ 83 ∷ 84 ∷ 85 ∷ 86 ∷ 87 ∷ 88 ∷ 89 ∷ 90 ∷ 97 ∷ 98 ∷ 99 ∷ 100 ∷ 101
    ∷ 102 ∷ 103 ∷ 104 ∷ 105 ∷ 106 ∷ 107 ∷ 109 ∷ 110 ∷ 111 ∷ 112 ∷ 113 ∷ 114 ∷ 115 ∷ 116 ∷ 117 ∷ 118
    ∷ 119 ∷ 120 ∷ 121 ∷ 122 ∷ []

unfoldable pub index_from : ℕ → ℕ → Bytes → Option ℕ
index_from i chr [] = none
index_from i chr (x ∷ xs) = let r = index_from (suc i) chr xs in if x == chr then some i else r

-- `none` for -1
unfoldable pub b58chr2int : ℕ → Option ℕ
unfolding index_from
b58chr2int chr = index_from 0 chr b58set

-- `b58set[i]`
unfoldable pub b58chr : ℕ → ℕ
b58chr i = elim (get_elem? b58set i) [ none ↦ 0 | some c ↦ c ]

-- The digits are written from the end of a buffer, of which `idx` bytes are free. A digit more is
-- out of range.
unfoldable pub encode_digits : ℕ → ℕ → Bytes → Option (ℕ × Bytes)
unfolding b58chr
encode_digits zero bn s = if bn == 0 then some (0, s) else none
encode_digits (suc idx) bn s =
    let rest = encode_digits idx (bn / 58) (b58chr (bn % 58) ∷ s) in
    if bn == 0 then some (suc idx, s) else rest

-- The loop over the leading zeros.
unfoldable pub encode_zeros : Bytes → ℕ → Bytes → Option Bytes
unfolding b58chr
encode_zeros [] idx s = some s
encode_zeros (x ∷ a) zero s = if x == 0 then none else some s
encode_zeros (x ∷ a) (suc idx) s =
    let rest = encode_zeros a idx (b58chr 0 ∷ s) in if x == 0 then rest else some s

-- `none` is a panic.
unfoldable pub encodeb58 : Bytes → Option Bytes
unfolding encode_digits encode_zeros be_value
encodeb58 a = do
  (idx, s) ← encode_digits (length a * 138 / 100 + 1) (be_value a) []
  encode_zeros a idx s

-- `Bytes` of `big.Int`: big-endian, without zeros in front.
unfoldable pub big_bytes : ℕ → ℕ → Bytes → Bytes
big_bytes zero n acc = acc
big_bytes (suc fuel) n acc =
    let rest = big_bytes fuel (n / 256) (n % 256 ∷ acc) in if n == 0 then acc else rest

unfoldable pub decode_digits : Bytes → ℕ → Option ℕ
unfolding b58chr2int
decode_digits [] bn = some bn
decode_digits (c ∷ s) bn = do v ← b58chr2int c; decode_digits s (bn * 58 + v)

-- `none` for nil
unfoldable pub decodeb58 : Bytes → Option Bytes
unfolding decode_digits big_bytes
decodeb58 s = do bn ← decode_digits s 0; some (big_bytes bn bn [])
