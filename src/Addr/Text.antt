-- ===== src/Addr/Text.antt =====
-- core/addr.go: `NewAddrFromString` and `String`. A checksum or a text that an address holds already
-- is not computed again; `addr_string` is what is computed otherwise.
pub mod RoundTrip
use yoin.Base.{
  ℕ, ◌-◌, Bool, List, [], ◌∷◌, ◌++◌, Option, none, some, ◌>>=◌, ltb, ◌==◌, if◌then◌else◌, length,
  take, drop, replicate,
}
use yoin.Bytes.{Bytes, bytes_equal}
use yoin.Crypto.{Crypto, sha2_sum}
use yoin.Base58.{encodeb58, decodeb58}
use yoin.Addr.{BtcAddr, new_addr_from_hash160}

pub data AddrError : Type 0 where
  cannot_decode checksum_error unsupported_length : AddrError

pub data ParsedAddr : Type 0 where
  parsed : BtcAddr → ParsedAddr
  refused : AddrError → ParsedAddr

-- The 25 bytes behind the text: the version, the hash and the first four bytes of the checksum.
unfoldable pub with_checksum : Crypto → Bytes → Bytes
unfolding sha2_sum
with_checksum c ad = ad ++ take 4 (sha2_sum c ad)

-- `none` is a panic in `Encodeb58`.
unfoldable pub addr_string : Crypto → BtcAddr → Option Bytes
unfolding with_checksum encodeb58
addr_string c a = encodeb58 (with_checksum c (a.version ∷ a.hash160))

-- A short number is filled up with zeros in front.
unfoldable pub fill_up : Bytes → Bytes
fill_up dec = if ltb (length dec) 25 then replicate (25 - length dec) 0 ++ dec else dec

unfoldable pub read_addr : Crypto → Bytes → ParsedAddr
unfolding sha2_sum bytes_equal
read_addr c [] = refused AddrError.unsupported_length
read_addr c (ver ∷ b) =
    if length (ver ∷ b) == 25
    then if bytes_equal (take 4 (sha2_sum c (take 21 (ver ∷ b)))) (drop 20 b)
      then parsed (record { version = ver; hash160 = take 20 b; pub_key = none })
      else refused AddrError.checksum_error
    else refused AddrError.unsupported_length

unfoldable pub new_addr_from_string : Crypto → Bytes → ParsedAddr
unfolding decodeb58 fill_up read_addr
new_addr_from_string c s = elim (decodeb58 s) [
  | none ↦ refused AddrError.cannot_decode
  | some dec ↦ read_addr c (fill_up dec)
]
