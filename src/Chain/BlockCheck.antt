-- ===== src/Chain/BlockCheck.antt =====
-- core/block_check.go: `CheckBlock`.
-- The clock, the map `BlockIndex` and the two package variables are arguments. A node of the tree
-- comes with its ancestors up to the root; the key of the map is the first 6 bytes of a hash.
pub mod Transactions
pub mod Accepts
mod Examples
use yoin.Base.{
  ℕ, zero, suc, ◌+◌, ◌%◌, ◌^◌, Bool, true, false, not, ◌&&◌, ◌||◌, List, [], ◌∷◌, Option, none,
  some, ◌>>=◌, ltb, ◌==◌, if◌then◌else◌, length, take,
}
use yoin.Bytes.{Bytes, bytes_equal}
use yoin.Crypto.{Crypto}
use yoin.Tx.{Tx, is_coin_base}
use yoin.Tx.Check.{CheckError, accepted, rejected, check_transaction}
use yoin.Chain.Target.{BlockTreeNode, get_next_work_required}
use yoin.Chain.Block.{Block, decode_tx_list_from_raw}
use yoin.Chain.Merkle.{get_merkel}

pub data BlockError : Type 0 where
  size_limits too_far_in_future already_in parent_not_found : BlockError
  incorrect_proof_of_work no_coinbase more_than_one_coinbase merkle_mismatch : BlockError
  check_transaction_failed : CheckError → BlockError

-- The nil error, with the block that now has its transactions; the error for the genesis block, with
-- the node that is written; another error with `dos` and `maylater`; or a panic.
pub data Checked : Type 0 where
  passed : Block → Checked
  genesis : BlockTreeNode → Checked
  refused : BlockError → Bool → Bool → Checked
  check_panic : Checked

-- `Hash.Hash[:]` of every transaction; a hash that is nil panics.
unfoldable pub hashes_of : List Tx → Option (List Bytes)
hashes_of [] = some []
hashes_of (t ∷ ts) = do h ← t.hash; hs ← hashes_of ts; some (h ∷ hs)

unfoldable pub first_is_coin_base : List Tx → Bool
first_is_coin_base [] = false
first_is_coin_base (t ∷ ts) = is_coin_base t

unfoldable pub any_coin_base : List Tx → Bool
any_coin_base [] = false
any_coin_base (t ∷ ts) = is_coin_base t || any_coin_base ts

-- `b.Txs[1:]`, as the loop from 1 on sees it.
unfoldable pub tail_of : List Tx → List Tx
tail_of [] = []
tail_of (t ∷ ts) = ts

unfoldable pub check_all : Bool → List Tx → Option CheckError
check_all slow_mode [] = none
check_all slow_mode (t ∷ ts) = elim (check_transaction slow_mode t) [
  | rejected e ↦ some e
  | accepted ↦ check_all slow_mode ts
]

-- The tests of a block that is not trusted.
unfoldable pub check_txs : Crypto → Bool → Block → Checked
unfolding hashes_of first_is_coin_base any_coin_base tail_of check_all
check_txs c slow_mode b =
    if not (first_is_coin_base b.txs)
    then refused no_coinbase true false
    else if any_coin_base (tail_of b.txs)
    then refused more_than_one_coinbase true false
    else elim (hashes_of b.txs >>= get_merkel c) [
      | none ↦ check_panic
      | some root ↦
          if not (bytes_equal root b.merkle_root)
          then refused merkle_mismatch true false
          else elim (check_all slow_mode b.txs) [
            | some e ↦ refused (check_transaction_failed e) true false
            | none ↦ passed b
          ]
    ]

-- From `DecodeTxListFromRaw` on.
unfoldable pub check_decoded : Crypto → Bool → Block → Checked
unfolding check_txs
check_decoded c slow_mode b = elim (decode_tx_list_from_raw c b) [
  | none ↦ check_panic
  | some b' ↦ if b'.trusted then passed b' else check_txs c slow_mode b'
]

module _ (c : Crypto) (testnet slow_mode : Bool) (now : ℕ)
    (index : Bytes → Option (BlockTreeNode × List BlockTreeNode)) where
  -- With the parent and its ancestors.
  unfoldable pub check_work : BlockTreeNode → List BlockTreeNode → Block → Checked
  unfolding check_decoded
  check_work prev ancestors b = elim (get_next_work_required testnet prev ancestors b.create_time) [
    | none ↦ check_panic
    | some gnwr ↦
        if not (b.difficulty_target == gnwr)
          && (not testnet || not ((prev.height + 1) % 2 ^ 32 % 2016 == 0))
        then refused incorrect_proof_of_work true false
        else check_decoded c slow_mode b
  ]

  unfoldable pub check_block : Block → Checked
  unfolding check_work
  check_block b =
      if ltb (length b.raw) 81 || ltb 1000000 (length b.raw)
      then refused size_limits true false
      else if ltb (now + 7200) b.create_time
      then refused too_far_in_future true false
      else elim (index (take 6 b.hash)) [
        | some (node, []) ↦
            genesis (record node { timestamp = b.create_time; bits = b.difficulty_target })
        | some (node, p ∷ ps) ↦ refused already_in false false
        | none ↦ elim (index (take 6 b.pre_block_hash)) [
          | none ↦ refused parent_not_found false true
          | some (prev, ancestors) ↦ check_work prev ancestors b
        ]
      ]
