-- ===== src/Uint256.antt =====
-- core/uint256.go: hashes of 32 bytes, shown as hexadecimal text with the last byte first.
-- A text is the list of its bytes.
pub mod RoundTrip
mod Examples
use mathlib.Core.List.{reverse}
use yoin.Base.{
  ℕ, zero, suc, ◌+◌, ◌-◌, ◌*◌, ◌/◌, ◌%◌, Bool, ◌&&◌, ◌||◌, List, [], ◌∷◌, Option, none, some, ◌>>=◌,
  ltb, leb, ◌==◌, if◌then◌else◌,
}
use yoin.Bytes.{Bytes, be_value, prefix?, bytes_equal}
use yoin.Crypto.{Crypto, sha2_sum}
use yoin.Addr.{copy_into}

unfoldable pub new_uint256 : Bytes → Bytes
unfolding copy_into
new_uint256 h = copy_into 32 h

unfoldable pub new_sha2_hash : Crypto → Bytes → Bytes
unfolding sha2_sum
new_sha2_hash c data_ = sha2_sum c data_

unfoldable pub equal : Bytes → Bytes → Bool
unfolding bytes_equal
equal u o = bytes_equal u o

-- `h[:Uint256IdxLen]`
unfoldable pub b_idx : Bytes → Option Bytes
b_idx u = prefix? 6 u

unfoldable pub big_int : Bytes → ℕ
big_int u = be_value (reverse u)

-- `%02x`
abbrev pub hex_digit : ℕ → ℕ
hex_digit d = if ltb d 10 then 48 + d else 87 + d

abbrev pub to_text : Bytes → Bytes
to_text [] = []
to_text (x ∷ b) = hex_digit (x / 16) ∷ hex_digit (x % 16) ∷ to_text b

unfoldable pub string : Bytes → Bytes
string u = to_text (reverse u)

abbrev pub hex_value : ℕ → Option ℕ
hex_value c =
    if leb 48 c && leb c 57
    then some (c - 48)
    else if leb 97 c && leb c 102
    then some (c - 87)
    else if leb 65 c && leb c 70
    then some (c - 55)
    else none

abbrev is_space : ℕ → Bool
is_space c = c == 9 || c == 11 || c == 12 || c == 13 || c == 32

-- `fmt.Sscanf(.., "%x", &v)` on two characters, for `byte(v)`: spaces in front are skipped, a sign is
-- taken, and v keeps its old value where no digit follows.
unfoldable pub scan_hex : ℕ → ℕ → ℕ → ℕ
scan_hex v c1 c2 = elim (hex_value c1) [
  | some a ↦ elim (hex_value c2) [ some b ↦ a * 16 + b | none ↦ a ]
  | none ↦ elim (hex_value c2) [
    | some b ↦ if is_space c1 || c1 == 43 then b else if c1 == 45 then (256 - b) % 256 else v
    | none ↦ v
  ]
]

-- The loop, in the order of the text; `none` where `s[2*i:2*i+2]` is out of range.
unfoldable pub scan_bytes : ℕ → ℕ → Bytes → Option Bytes
unfolding scan_hex
scan_bytes zero v s = some []
scan_bytes (suc n) v [] = none
scan_bytes (suc n) v (c1 ∷ []) = none
scan_bytes (suc n) v (c1 ∷ c2 ∷ s) = do
  rest ← scan_bytes n (scan_hex v c1 c2) s
  some (scan_hex v c1 c2 ∷ rest)

unfoldable pub new_uint256_from_string : Bytes → Option Bytes
unfolding scan_bytes
new_uint256_from_string s = do b ← scan_bytes 32 0 s; some (reverse b)
