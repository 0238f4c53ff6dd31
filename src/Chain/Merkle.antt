-- ===== src/Chain/Merkle.antt =====
-- core/util.go: `getMerkel`, the root of the hashes of a block's transactions.
pub mod Root
mod Examples
use yoin.Base.{
  ℕ, zero, suc, ◌+◌, ◌-◌, ◌/◌, ◌<◌, Bool, true, false, List, [], ◌∷◌, ◌++◌, Option, none, some,
  ◌>>=◌, ltb, if◌then◌else◌, length, get_elem?,
}
use yoin.Bytes.{Bytes}
use yoin.Crypto.{Crypto, sha2_sum}

-- The loop over `i` for a row of `siz` hashes that starts at `j`: `mtr` grows at its end.
unfoldable pub merkle_row : Crypto → ℕ → List Bytes → ℕ → ℕ → ℕ → Option (List Bytes)
merkle_row c zero mtr j siz i = some mtr
merkle_row c (suc fuel) mtr j siz i = elim (ltb i siz) [
  | false ↦ some mtr
  | true ↦ (do
    a ← get_elem? mtr (j + i)
    b ← get_elem? mtr (j + (if ltb (i + 1) (siz - 1) then i + 1 else siz - 1))
    merkle_row c fuel (mtr ++ sha2_sum c (a ++ b) ∷ []) j siz (i + 2))
]

-- The loop over `siz`.
unfoldable pub merkle_rows : Crypto → ℕ → List Bytes → ℕ → ℕ → Option (List Bytes)
unfolding merkle_row
merkle_rows c zero mtr j siz = some mtr
merkle_rows c (suc fuel) mtr j siz = elim (ltb 1 siz) [
  | false ↦ some mtr
  | true ↦ (do row ← merkle_row c siz mtr j siz 0; merkle_rows c fuel row (j + siz) ((siz + 1) / 2))
]

-- `mtr[len(mtr)-1]`, out of range for no transactions.
unfoldable pub last_of : List Bytes → Option Bytes
last_of [] = none
last_of (x ∷ []) = some x
last_of (x ∷ (y ∷ r)) = last_of (y ∷ r)

unfoldable pub get_merkel : Crypto → List Bytes → Option Bytes
unfolding merkle_rows last_of
get_merkel c hashes = do mtr ← merkle_rows c (length hashes) hashes 0 (length hashes); last_of mtr
