-- ===== src/Wallet/Keys.antt =====
-- wallet/wallet.go: `getPubKey`, the key pairs that `make_wallet` generates, and the one that
-- `load_others` takes from a line, behind its Base58 text. `inverse` is `ModInverse` of `big.Int`.
use yoin.Base.{
  ℕ, zero, suc, ◌+◌, ◌-◌, ◌%◌, Bool, true, false, not, ◌&&◌, List, [], ◌∷◌, ◌++◌, Option, none,
  some, ltb, ◌==◌, if◌then◌else◌, length, take, drop, replicate,
}
use yoin.Bytes.{Bytes, bytes_equal}
use yoin.Crypto.{Crypto, sha2_sum}
use yoin.Base58.{big_bytes}
use yoin.Curve.{secp256k1, scalar_base_mult, copy_at}
use yoin.Addr.{new_addr_from_pub_key, byte_at}
use yoin.Wallet.{Ran, done, ◌>>=◌, ◌>>◌, or_panic, exit_if, KeyPair}

-- The bytes of a point; x.Bytes() of a nil x panics.
unfoldable pub key_bytes : Bool → ℕ → ℕ → Ran Bytes
unfolding big_bytes copy_at
key_bytes true x y = do
  let xd = big_bytes x x []
  exit_if (ltb 32 (length xd))
  or_panic (copy_at (1 + 32 - length xd) xd ((2 + y % 2) ∷ replicate 32 0))
key_bytes false x y = do
  let xd = big_bytes x x []
  let yd = big_bytes y y []
  exit_if (ltb 32 (length xd))
  exit_if (ltb 32 (length yd))
  res ← or_panic (copy_at (1 + 32 - length xd) xd (4 ∷ replicate 64 0))
  or_panic (copy_at (33 + 32 - length yd) yd res)

-- The key pair of a line, in front of those of the lines behind it.
abbrev pub add_pair : Option KeyPair → List KeyPair → List KeyPair
add_pair none ks = ks
add_pair (some k) ks = k ∷ ks

module _ (c : Crypto) (inverse : ℕ → ℕ → ℕ) where
  unfoldable pub get_pub_key : Bytes → Bool → Ran Bytes
  unfolding key_bytes
  get_pub_key priv compressed = do
    q ← or_panic (scalar_base_mult secp256k1 inverse priv)
    key_bytes compressed q.0 q.1

  unfoldable pub key_pair : ℕ → Bytes → Bool → Ran KeyPair
  unfolding get_pub_key
  key_pair verbyte priv compressed = do
    publ ← get_pub_key priv compressed
    done (record { priv_key = priv; publ_addr = new_addr_from_pub_key c publ verbyte })

  -- The loop of `make_wallet`, from the seed.
  unfoldable pub generate : ℕ → Bool → ℕ → Bytes → Ran (List KeyPair)
  unfolding sha2_sum key_pair
  generate verbyte compressed zero seed = done []
  generate verbyte compressed (suc n) seed = do
    let seed' = sha2_sum c seed
    k ← key_pair verbyte seed' compressed
    ks ← generate verbyte compressed n seed'
    done (k ∷ ks)

  -- `len(pkb)`, the checksum over all but its last four bytes.
  abbrev checksum_fits : Bytes → ℕ → Bool
  checksum_fits pkb n = bytes_equal (take 4 (sha2_sum c (take n pkb))) (drop n pkb)

  -- The versions (`privver`, `verbyte`) after the test of the key's version; `none` is `continue`.
  unfoldable pub check_version : ℕ × ℕ → Bytes → Option (ℕ × ℕ)
  unfolding byte_at
  check_version vers pkb =
      if byte_at pkb 0 vers.0
      then some vers
      else if byte_at pkb 0 0xef
      then some (0xef, 0x6f)
      else none

  -- Whether the key is a compressed one; `none` is `continue`.
  unfoldable pub key_form : Bytes → Option Bool
  unfolding byte_at sha2_sum bytes_equal
  key_form pkb =
      if length pkb == 37
      then if checksum_fits pkb 33 then some false else none
      else if not (byte_at pkb 33 1)
      then none
      else if checksum_fits pkb 34
      then some true
      else none

  -- One round of `load_others` on a decoded line: the versions, and the key pair if it is taken.
  unfoldable pub load_other : ℕ × ℕ → Bytes → Ran ((ℕ × ℕ) × Option KeyPair)
  unfolding check_version key_form key_pair
  load_other vers pkb =
      if not (length pkb == 37) && not (length pkb == 38)
      then done (vers, none)
      else elim (check_version vers pkb) [
        | none ↦ done (vers, none)
        | some vers' ↦ elim (key_form pkb) [
          | none ↦ done (vers', none)
          | some compr ↦ key_pair vers'.1 (take 32 (drop 1 pkb)) compr >>= λ k. done (vers', some k)
        ]
      ]

  -- `make_wallet`, for the lines of others.sec that decode and the password. The key pairs stand in
  -- the order in which they are appended.
  unfoldable pub load_others : ℕ × ℕ → List Bytes → Ran ((ℕ × ℕ) × List KeyPair)
  unfolding load_other
  load_others vers [] = done (vers, [])
  load_others vers (pkb ∷ lines) = do
    r ← load_other vers pkb
    rest ← load_others r.0 lines
    done (rest.0, add_pair r.1 rest.1)

  unfoldable pub make_wallet : Bool → Bool → ℕ → List Bytes → Bytes → Ran (List KeyPair)
  unfolding load_others sha2_sum generate
  make_wallet testnet uncompressed key_cnt lines [] = do
    r ← load_others (if testnet then (0xef, 0x6f) else (0x80, 0)) lines
    done r.1
  make_wallet testnet uncompressed key_cnt lines (x ∷ pass) = do
    r ← load_others (if testnet then (0xef, 0x6f) else (0x80, 0)) lines
    ks ← generate r.0.1 (not uncompressed) key_cnt (sha2_sum c (x ∷ pass))
    done (r.1 ++ ks)
