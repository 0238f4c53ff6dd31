-- ===== src/Addr.antt =====
-- core/addr.go: addresses, the scripts that pay to them, and the scripts that an address owns.
-- An address keeps its text (`Enc58str`) and checksum only as caches; they are left out, and so is
-- the Base58 text itself.
pub mod Scripts
pub mod Text
mod Examples
use yoin.Base.{
  ℕ, zero, suc, Bool, true, false, ◌&&◌, ◌||◌, List, [], ◌∷◌, ◌++◌, Option, none, some, ◌==◌,
  if◌then◌else◌, length, get_elem?,
}
use yoin.Bytes.{Bytes, prefix?, slice?, bytes_equal}
use yoin.Crypto.{Crypto, rimp160_after_sha256}

-- `PubKey` is nil until a constructor or `Owns` sets it.
pub record BtcAddr : Type 0 where
  pub version : ℕ
  pub hash160 : Bytes
  pub pub_key : Option Bytes

-- `copy(a.Hash160[:], in[:])` into 20 zero bytes.
unfoldable pub copy_into : ℕ → Bytes → Bytes
copy_into zero b = []
copy_into (suc n) [] = 0 ∷ copy_into n []
copy_into (suc n) (x ∷ b) = x ∷ copy_into n b

unfoldable pub new_addr_from_hash160 : Bytes → ℕ → BtcAddr
unfolding copy_into
new_addr_from_hash160 b ver = record { version = ver; hash160 = copy_into 20 b; pub_key = none }

unfoldable pub new_addr_from_pub_key : Crypto → Bytes → ℕ → BtcAddr
unfolding rimp160_after_sha256
new_addr_from_pub_key c b ver = record {
  version = ver;
  hash160 = rimp160_after_sha256 c b;
  pub_key = some b;
}

-- `scr[i] == v`
unfoldable pub byte_at : Bytes → ℕ → ℕ → Bool
byte_at scr i v = elim (get_elem? scr i) [ none ↦ false | some x ↦ x == v ]

-- The templates of the scripts that addresses know.
unfoldable pub pays_to_hash : Bytes → Bool
unfolding byte_at
pays_to_hash scr =
    length scr == 25
    && byte_at scr 0 0x76
    && byte_at scr 1 0xa9
    && byte_at scr 2 0x14
    && byte_at scr 23 0x88
    && byte_at scr 24 0xac

unfoldable pub pays_to_long_key : Bytes → Bool
unfolding byte_at
pays_to_long_key scr =
    length scr == 67 && byte_at scr 0 0x41 && byte_at scr 1 0x04 && byte_at scr 66 0xac

unfoldable pub pays_to_short_key : Bytes → Bool
unfolding byte_at
pays_to_short_key scr =
    length scr == 35
    && byte_at scr 0 0x21
    && (byte_at scr 1 0x02 || byte_at scr 1 0x03)
    && byte_at scr 34 0xac

unfoldable pub pays_to_script : Bytes → Bool
unfolding byte_at
pays_to_script scr =
    length scr == 23 && byte_at scr 0 0xa9 && byte_at scr 1 0x14 && byte_at scr 22 0x87

-- The outer `none` is a slice out of range, the inner one the result nil.
unfoldable pub new_addr_from_pk_script : Crypto → Bytes → ℕ → Option (Option BtcAddr)
unfolding pays_to_hash pays_to_long_key pays_to_script new_addr_from_hash160 new_addr_from_pub_key
    slice?
new_addr_from_pk_script c scr ver =
    if pays_to_hash scr
    then elim (slice? scr 3 23) [ none ↦ none | some h ↦ some (some (new_addr_from_hash160 h ver)) ]
    else if pays_to_long_key scr
    then elim (slice? scr 1 66) [
      | none ↦ none
      | some k ↦ some (some (new_addr_from_pub_key c k ver))
    ]
    else if pays_to_script scr
    then elim (slice? scr 2 22) [ none ↦ none | some h ↦ some (some (new_addr_from_hash160 h ver)) ]
    else some none

-- The answer of `Owns` with the address behind it: a key that is found is kept.
pub data Owned : Type 0 where
  owned : Bool → BtcAddr → Owned
  owns_panic : Owned

-- `a.PubKey == nil`: the key of the script is kept if its hash is the address. Otherwise the first
-- 33 bytes of the keys are compared.
unfoldable pub owns_key : Crypto → BtcAddr → Bytes → Bytes → Owned
unfolding rimp160_after_sha256 bytes_equal prefix?
owns_key c a key first = elim a.pub_key [
  | none ↦
      if bytes_equal (rimp160_after_sha256 c key) a.hash160
      then owned true (record a { pub_key = some key })
      else owned false a
  | some k ↦ elim (prefix? 33 k) [ none ↦ owns_panic | some p ↦ owned (bytes_equal first p) a ]
]

unfoldable pub owns : Crypto → BtcAddr → Bytes → Owned
unfolding pays_to_hash pays_to_long_key pays_to_short_key owns_key slice? bytes_equal
owns c a scr =
    if pays_to_hash scr
    then elim (slice? scr 3 23) [ none ↦ owns_panic | some h ↦ owned (bytes_equal h a.hash160) a ]
    else if pays_to_long_key scr
    then elim (slice? scr 1 66) [
      | none ↦ owns_panic
      | some key ↦ elim (slice? scr 1 34) [
        | none ↦ owns_panic
        | some first ↦ owns_key c a key first
      ]
    ]
    else if pays_to_short_key scr
    then elim (slice? scr 1 34) [ none ↦ owns_panic | some key ↦ owns_key c a key key ]
    else owned false a

unfoldable pub out_script : BtcAddr → Bytes
unfolding copy_into
out_script a = 0x76 ∷ 0xa9 ∷ 20 ∷ copy_into 20 a.hash160 ++ (0x88 ∷ 0xac ∷ [])
