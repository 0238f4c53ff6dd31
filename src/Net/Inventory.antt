-- ===== src/Net/Inventory.antt =====
-- client/net.go: what nodes tell each other about their blocks. `none` is a panic.
-- The sets of hashes are maps in Go; here they are lists without repetitions, since the order in which
-- a map gives its keys is not specified. Printing and the counters are left out.
mod Examples
pub mod Branch
pub mod Reply
pub mod Locate
use yoin.Base.{
  ℕ, zero, suc, ◌+◌, ◌*◌, ◌^◌, Bool, true, false, not, List, [], ◌∷◌, ◌++◌, Option, none, some,
  ◌>>=◌, ltb, leb, ◌==◌, if◌then◌else◌, length,
}
use yoin.Bytes.{Bytes, le_bytes, le_value, prefix?, from?, slice?, bytes_equal}
use yoin.VarLen.{load_var_len, write_var_len, read_var_len, Read, value, failed}
use yoin.Addr.{copy_into}
use yoin.Uint256.{b_idx}
use yoin.Chain.Tree.{Nodes}

-- The loop over the entries: the hashes that `InvsNotify` gets, and the number of the other entries.
unfoldable pub inv_entries : ℕ → Bytes → ℕ → Option (List Bytes × ℕ)
inv_entries zero pl of = some ([], 0)
inv_entries (suc n) pl of = do
  typ ← slice? pl of (of + 4)
  (if le_value typ == 2
      then (do
        h ← slice? pl (of + 4) (of + 36)
        (hashes, txs) ← inv_entries n pl (of + 36)
        some (h ∷ hashes, txs))
      else (do (hashes, txs) ← inv_entries n pl (of + 36); some (hashes, suc txs)))

-- A wrong length is printed, and the loop runs all the same.
unfoldable pub process_inv : Bytes → Option (List Bytes × ℕ)
unfolding inv_entries load_var_len
process_inv pl =
    if ltb (length pl) 37
    then some ([], 0)
    else do (cnt, of) ← load_var_len pl; inv_entries cnt pl of

-- The invs that wait for the peers, by connection; one more goes to all but the sender, up to 500.
unfoldable pub net_send_inv :
    ℕ → Bytes → Option ℕ → List (ℕ × List Bytes) → List (ℕ × List Bytes) × ℕ
unfolding le_bytes copy_into
net_send_inv typ h from [] = ([], 0)
net_send_inv typ h from ((id, pending) ∷ cons) =
    let (rest, cnt) = net_send_inv typ h from cons in
    let is_from : Bool = elim from [ none ↦ false | some f ↦ id == f ] in
    if not is_from
    then if ltb (length pending) 500
      then ((id, pending ++ ((le_bytes 4 typ ++ copy_into 32 h) ∷ [])) ∷ rest, suc cnt)
      else ((id, pending) ∷ rest, cnt)
    else ((id, pending) ∷ rest, cnt)

-- `inv[h] = true`
unfoldable pub contains : Bytes → List Bytes → Bool
contains h [] = false
contains h (x ∷ inv) = let r = contains h inv in if bytes_equal h x then true else r

unfoldable pub insert : Bytes → List Bytes → List Bytes
unfolding contains
insert h inv = if contains h inv then inv else h ∷ inv

-- The loop over the children.
unfoldable pub each_child :
    (List Bytes → ℕ → Option (List Bytes)) → List ℕ → List Bytes → Option (List Bytes)
each_child add [] inv = some inv
each_child add (c ∷ cs) inv =
    if leb 500 (length inv) then some inv else (do inv' ← add inv c; each_child add cs inv')

unfoldable pub add_inv_block_branch : Nodes → Bytes → ℕ → List Bytes → ℕ → Option (List Bytes)
unfolding each_child insert
add_inv_block_branch t stop zero inv bl = none
add_inv_block_branch t stop (suc fuel) inv bl = do
  x ← t bl
  (if leb 500 (length inv)
      then some inv
      else if bytes_equal x.block_hash stop
      then some inv
      else each_child (add_inv_block_branch t stop fuel) x.children (insert x.block_hash inv))

-- The hashes of a request, and the bytes left; `none` for a request that is too short.
unfoldable pub read_hashes : ℕ → Bytes → Option (List Bytes × Bytes)
read_hashes zero b = some ([], b)
read_hashes (suc n) b = do
  h ← prefix? 32 b
  b₁ ← from? 32 b
  (hs, b₂) ← read_hashes n b₁
  some (h ∷ hs, b₂)

unfoldable pub locator_and_stop : ℕ → Bytes → Option (List Bytes × Bytes)
unfolding read_hashes
locator_and_stop cnt b = do (hs, b₁) ← read_hashes cnt b; stop ← prefix? 32 b₁; some (hs, stop)

unfoldable pub after_count : Read → Option (List Bytes × Bytes)
unfolding locator_and_stop
after_count (failed e) = none
after_count (value cnt b) = locator_and_stop cnt b

-- The locator and the hash to stop at. The version is only read over; after an error in the count the
-- reader is at its end, so that there is no hash to stop at.
unfoldable pub parse_get_blocks : Bytes → Option (List Bytes × Bytes)
unfolding after_count read_var_len
parse_get_blocks pl = do b ← from? 4 pl; after_count (read_var_len b)

-- The loop over the locator, with what the index of the blocks has for six bytes of a hash.
unfoldable pub locate :
    Nodes → (Bytes → Option ℕ) → ℕ → Bytes → List Bytes → List Bytes → Option (List Bytes)
unfolding add_inv_block_branch b_idx
locate t block_index fuel stop [] invs = some invs
locate t block_index fuel stop (h ∷ hs) invs = do
  idx ← b_idx h
  invs' ← elim (block_index idx) [
    | none ↦ some invs
    | some bl ↦ add_inv_block_branch t stop fuel invs bl
  ]
  (if leb 500 (length invs') then some invs' else locate t block_index fuel stop hs invs')

abbrev pub inv_bodies : List Bytes → Bytes
inv_bodies [] = []
inv_bodies (k ∷ invs) = le_bytes 4 2 ++ (k ++ inv_bodies invs)

unfoldable pub inv_payload : List Bytes → Bytes
unfolding write_var_len
inv_payload invs = write_var_len (length invs) ++ inv_bodies invs

-- `make([]*core.Uint256, cnt)` ends the program; `max_len` is the largest length it takes.
unfoldable pub too_many : ℕ → Bytes → Bool
unfolding read_var_len
too_many max_len pl = elim (from? 4 pl) [
  | none ↦ false
  | some b ↦ elim (read_var_len b) [ failed e ↦ false | value cnt b₁ ↦ ltb max_len cnt ]
]

-- The payload of the reply; nothing is sent for `none` inside.
unfoldable pub process_get_blocks :
    ℕ → Nodes → (Bytes → Option ℕ) → ℕ → Bytes → Option (Option Bytes)
unfolding too_many parse_get_blocks locate inv_payload
process_get_blocks max_len t block_index fuel pl =
    if too_many max_len pl then none else elim (parse_get_blocks pl) [
      | none ↦ some none
      | some (hs, stop) ↦ (do
        invs ← locate t block_index fuel stop hs []
        (if ltb 0 (length invs) then some (some (inv_payload invs)) else some none))
    ]
