-- ===== src/Chain/Target.antt =====
-- core/target.go: targets in compact form, the check of the proof of work, and the work that the
-- next block has to show. `GetDifficulty`, in floating point and for printing only, is left out.
pub mod Compact
pub mod Work
pub mod Required
mod Examples
use yoin.Base.{
  ℕ, zero, suc, ◌+◌, ◌-◌, ◌*◌, ◌/◌, ◌%◌, ◌^◌, Bool, true, false, not, ◌&&◌, ◌||◌, List, [], ◌∷◌,
  Option, none, some, ltb, leb, ◌==◌, if◌then◌else◌, get_elem?,
}
use yoin.Bytes.{Bytes, le_value}

abbrev pub n_target_timespan : ℕ
n_target_timespan = 1209600

abbrev pub n_interval : ℕ
n_interval = 2016

abbrev pub n_proof_of_work_limit : ℕ
n_proof_of_work_limit = 0x1d00ffff

abbrev pub bn_proof_of_work_limit : ℕ
bn_proof_of_work_limit = 0x00000000FFFFFFFFFFFFFFFFFFFFFFFFFFFFFFFFFFFFFFFFFFFFFFFFFFFFFFFF

-- `big.Int`
pub data ℤ : Type 0 where
  pos : ℕ → ℤ
  negsuc : ℕ → ℤ

unfoldable pub negate : ℕ → ℤ
negate zero = pos 0
negate (suc n) = negsuc n

unfoldable pub compact_size : ℕ → ℕ
compact_size n_compact = n_compact / 2 ^ 24

unfoldable pub compact_value : ℕ → ℕ
unfolding compact_size
compact_value n_compact =
    let n_size = compact_size n_compact in
    let n_word = n_compact % 2 ^ 23 in
    if leb n_size 3 then n_word / 256 ^ (3 - n_size) else n_word * 256 ^ (n_size - 3)

unfoldable pub set_compact : ℕ → ℤ
unfolding compact_value negate
set_compact n_compact =
    if n_compact / 2 ^ 23 % 2 == 1
    then negate (compact_value n_compact)
    else pos (compact_value n_compact)

-- `len(b.Bytes())`; a number of n takes at most n bytes.
unfoldable pub bytes_within : ℕ → ℕ → ℕ
bytes_within zero n = 0
bytes_within (suc fuel) zero = 0
bytes_within (suc fuel) (suc n) = suc (bytes_within fuel (suc n / 256))

unfoldable pub byte_len : ℕ → ℕ
unfolding bytes_within
byte_len n = bytes_within n n

-- `a | b` of k bits.
unfoldable pub or_bits : ℕ → ℕ → ℕ → ℕ
or_bits zero a b = 0
or_bits (suc k) a b = (if a % 2 == 1 || b % 2 == 1 then 1 else 0) + 2 * or_bits k (a / 2) (b / 2)

-- `|= n_size << 24`, in 32 bits.
unfoldable pub or_size : ℕ → ℕ → ℕ
unfolding or_bits
or_size n n_size = n % 2 ^ 24 + 2 ^ 24 * or_bits 8 (n / 2 ^ 24) n_size

-- The part of `GetCompact` behind the choice of the mantissa, for the sign of the number.
unfoldable pub with_size : Bool → ℕ → ℕ → ℕ
unfolding or_size
with_size negative n_compact n_size =
    let r =
      if n_compact / 2 ^ 23 % 2 == 1
      then or_size (n_compact / 256) (n_size + 1)
      else or_size n_compact n_size in
    if negative && r / 2 ^ 23 % 2 == 0 then r + 2 ^ 23 else r

-- Three bytes of the number from its first one, in 32 bits.
unfoldable pub mantissa : ℕ → ℕ → ℕ
mantissa n n_size =
    if leb n_size 3 then n * 256 ^ (3 - n_size) % 2 ^ 32 else n / 256 ^ (n_size - 3) % 2 ^ 32

-- A negative number shifted to the right is rounded down; its low bits are those of the two's
-- complement.
unfoldable pub get_compact : ℤ → ℕ
unfolding byte_len with_size mantissa
get_compact (pos n) = with_size false (mantissa n (byte_len n)) (byte_len n)
get_compact (negsuc n) =
    let n_size = byte_len (suc n) in
    if leb n_size 3
    then with_size true ((2 ^ 32 - mantissa (suc n) n_size) % 2 ^ 32) n_size
    else with_size true (2 ^ 32 - 1 - mantissa n n_size) n_size

pub data PowError : Type 0 where
  below_minimum_work hash_mismatch : PowError

-- `none` for nil. `hash.BigInt()` reads the 32 bytes from the last to the first.
unfoldable pub check_proof_of_work : Bytes → ℕ → Option PowError
unfolding set_compact le_value
check_proof_of_work hash n_bits = elim (set_compact n_bits) [
  | negsuc n ↦ some PowError.below_minimum_work
  | pos t ↦
      if t == 0 || ltb bn_proof_of_work_limit t
      then some PowError.below_minimum_work
      else if ltb t (le_value hash)
      then some PowError.hash_mismatch
      else none
]

-- core/chain_node.go: what `GetNextWorkRequired` reads of a `BlockTreeNode`. A node with its
-- ancestors is a list, from the node to the root.
pub record BlockTreeNode : Type 0 where
  pub height : ℕ
  pub bits : ℕ
  pub timestamp : ℕ

-- The difference of two `uint32`, between the bounds.
unfoldable pub actual_timespan : ℕ → ℕ → ℕ
actual_timespan last first =
    let span = (last + 2 ^ 32 - first) % 2 ^ 32 in
    if ltb span (n_target_timespan / 4)
    then n_target_timespan / 4
    else if ltb (n_target_timespan * 4) span
    then n_target_timespan * 4
    else span

-- `Mul` and `Div`, which rounds down for a divisor above 0, and the limit.
unfoldable pub scale : ℤ → ℕ → ℤ
scale (pos n) span =
    let m = n * span / n_target_timespan in
    if ltb bn_proof_of_work_limit m then pos bn_proof_of_work_limit else pos m
scale (negsuc n) span = negsuc ((suc n * span - 1) / n_target_timespan)

-- The loop of the testnet rule, from a node with its ancestors.
unfoldable pub last_regular_bits : BlockTreeNode → List BlockTreeNode → ℕ
last_regular_bits prv [] = prv.bits
last_regular_bits prv (p ∷ ps) =
    let rest = last_regular_bits p ps in
    if not (prv.height % n_interval == 0) && prv.bits == n_proof_of_work_limit
    then rest
    else prv.bits

-- `none` where a parent that is nil is read.
unfoldable pub get_next_work_required : Bool → BlockTreeNode → List BlockTreeNode → ℕ → Option ℕ
unfolding last_regular_bits actual_timespan scale set_compact get_compact
get_next_work_required testnet lst [] ts = some n_proof_of_work_limit
get_next_work_required testnet lst (p ∷ ps) ts =
    if not ((lst.height + 1) % 2 ^ 32 % n_interval == 0)
    then if testnet
      then if ltb ((lst.timestamp + 1200) % 2 ^ 32) ts
        then some n_proof_of_work_limit
        else some (last_regular_bits lst (p ∷ ps))
      else some lst.bits
    else elim (get_elem? (p ∷ ps) 2014) [
      | none ↦ none
      | some prv ↦
          some (
            get_compact
              (scale (set_compact prv.bits) (actual_timespan lst.timestamp prv.timestamp)))
    ]
