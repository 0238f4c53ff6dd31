-- ===== src/Chain/Commit.antt =====
-- core/chain_accept.go: `commitTxs`, and `GetBlockReward` of core/block.go.
-- `pick` is `PickUnspent`, which nothing changes while a block is processed, and `script_ok t j pk`
-- the result of `VerifyTxScript` for input j of t. The results of the goroutines are collected
-- before the function goes on, so their order does not matter: one failure is a failure.
pub mod Lost
mod Examples
use yoin.Base.{
  ℕ, zero, suc, ◌+◌, ◌*◌, ◌/◌, ◌%◌, ◌^◌, Bool, true, false, not, ◌&&◌, ◌||◌, List, [], ◌∷◌, ◌++◌,
  map, Option, none, some, ltb, leb, ◌==◌, if◌then◌else◌, length, get_elem?,
}
use yoin.Bytes.{Bytes, bytes_equal}
use yoin.Tx.{TxPrevOut, TxIn, TxOut, Tx}
use yoin.Tx.Check.{prev_out_equal}

-- `50e8 >> (height / 210000)`
unfoldable pub get_block_reward : ℕ → ℕ
get_block_reward height = 5000000000 / 2 ^ (height / 210000)

-- core/dbif.go: `BlockChangeEvent`. A map is a list of its entries.
abbrev pub TxMap : Type 0
TxMap = List (TxPrevOut × TxOut)

pub record BlockChangeEvent : Type 0 where
  pub height : ℕ
  pub added_txs : TxMap
  pub deleted_txs : TxMap

unfoldable pub has_key : TxPrevOut → TxMap → Bool
has_key p [] = false
has_key p ((q, o) ∷ m) = prev_out_equal p q || has_key p m

unfoldable pub remove : TxPrevOut → TxMap → TxMap
remove p [] = []
remove p ((q, o) ∷ m) = let r = remove p m in if prev_out_equal p q then r else (q, o) ∷ r

abbrev pub put : TxPrevOut → TxOut → TxMap → TxMap
put p o m = (p, o) ∷ remove p m

pub data CommitError : Type 0 where
  spent_in_block unknown_input vout_too_big vout_spent verify_failed : CommitError
  more_spent_than_input out_exceeds_in : CommitError

-- `blUnsp`: for each transaction hash the outputs, `none` for one set to nil. The latest entry of
-- a hash stands first.
abbrev pub BlockUnspent : Type 0
BlockUnspent = List (Bytes × List (Option TxOut))

unfoldable pub find_outs : Bytes → BlockUnspent → Option (List (Option TxOut))
find_outs h [] = none
find_outs h ((k, outs) ∷ m) = if bytes_equal h k then some outs else find_outs h m

clear_at : ℕ → List (Option TxOut) → List (Option TxOut)
clear_at i [] = []
clear_at zero (o ∷ os) = none ∷ os
clear_at (suc i) (o ∷ os) = o ∷ clear_at i os

-- `t[i] = nil`, in the slice that the map holds.
unfoldable pub clear_out : Bytes → ℕ → BlockUnspent → BlockUnspent
unfolding clear_at
clear_out h i [] = []
clear_out h i ((k, outs) ∷ m) =
    let r = clear_out h i m in if bytes_equal h k then (k, clear_at i outs) ∷ m else (k, outs) ∷ r

-- A transaction of the block with its hash; the height is written into its outputs.
pub record BlockTx : Type 0 where
  pub tx : Tx
  pub tx_hash : Bytes

unfoldable pub at_height : ℕ → List TxOut → List TxOut
at_height h [] = []
at_height h (o ∷ os) = record o { block_height = h } ∷ at_height h os

unfoldable pub collect_outs : ℕ → List BlockTx → BlockUnspent → BlockUnspent
unfolding at_height
collect_outs h [] m = m
collect_outs h (b ∷ bs) m = collect_outs h bs ((b.tx_hash, map some (at_height h b.tx.tx_outs)) ∷ m)

-- The variables of the loops.
pub record Progress : Type 0 where
  pub deleted : TxMap
  pub added : TxMap
  pub unspent : BlockUnspent
  pub txinsum : ℕ
  pub scripts_ok : Bool
  pub error : Option CommitError

pub data Found : Type 0 where
  found : TxOut → BlockUnspent → Found
  lost : CommitError → Found

-- The output that an input spends, from the database or from this block.
unfoldable pub find_output : (TxPrevOut → Option TxOut) → TxPrevOut → BlockUnspent → Found
find_output pick inp m = elim (pick inp) [
  | some o ↦ found o m
  | none ↦ elim (find_outs inp.pre_out_tx_hash m) [
    | none ↦ lost CommitError.unknown_input
    | some outs ↦ elim (get_elem? outs inp.out_idx_in_tx) [
      | none ↦ lost CommitError.vout_too_big
      | some none ↦ lost CommitError.vout_spent
      | some (some o) ↦ found o (clear_out inp.pre_out_tx_hash inp.out_idx_in_tx m)
    ]
  ]
]

module _ (pick : TxPrevOut → Option TxOut) (script_ok : Tx → ℕ → Bytes → Bool)
    (trusted : Bool) where
  -- The loop over the inputs from index j on; an error leaves it.
  unfoldable pub spend_inputs : Tx → ℕ → List TxIn → Progress → Progress
  unfolding find_output has_key
  spend_inputs t j [] s = s
  spend_inputs t j (x ∷ xs) s =
      if has_key x.input s.deleted
      then record s { error = some CommitError.spent_in_block }
      else elim (find_output pick x.input s.unspent) [
        | lost e ↦ record s { error = some e }
        | found o m ↦ spend_inputs t (j + 1) xs (record s {
          deleted = put x.input o s.deleted;
          unspent = m;
          txinsum = (s.txinsum + o.value) % 2 ^ 64;
          scripts_ok = s.scripts_ok && (trusted || script_ok t j o.script_pub_key);
        })
      ]

-- The loop over the outputs from index j on.
unfoldable pub add_outputs : Bytes → ℕ → List TxOut → Progress → Progress
unfolding has_key remove
add_outputs h j [] s = s
add_outputs h j (o ∷ os) s =
    let key : TxPrevOut = record { pre_out_tx_hash = h; out_idx_in_tx = j % 2 ^ 32 } in
    add_outputs h (j + 1) os (
      if has_key key s.deleted
      then record s { deleted = remove key s.deleted }
      else record s { added = put key o s.added })

-- `txoutsum`, a `uint64`, from what was summed before.
unfoldable pub out_sum : List TxOut → ℕ → ℕ
out_sum [] sum = sum
out_sum (o ∷ os) sum = out_sum os ((sum + o.value) % 2 ^ 64)

pub data CommitResult : Type 0 where
  committed : BlockChangeEvent → CommitResult
  refused : CommitError → CommitResult

-- The code behind the loop. It returns nil whatever `e` was set to in the loop.
abbrev pub close : ℕ → ℕ → ℕ → Progress → CommitResult
close height sumblockin sumblockout s =
    if ltb sumblockin sumblockout
    then refused CommitError.out_exceeds_in
    else committed (record { height = height; added_txs = s.added; deleted_txs = s.deleted })

abbrev pub failed : Option CommitError → Bool
failed none = false
failed (some e) = true

module _ (pick : TxPrevOut → Option TxOut) (script_ok : Tx → ℕ → Bytes → Bool) (trusted : Bool)
    (height : ℕ) where
  -- The inputs of the transaction with index i; those of the first are not looked at.
  abbrev pub take_inputs : ℕ → BlockTx → Progress → Progress
  take_inputs i b s =
      let fresh = record s { txinsum = 0; scripts_ok = true; error = none } in
      if i == 0 then fresh else spend_inputs pick script_ok trusted b.tx 0 b.tx.tx_ins fresh

  -- The loop over the transactions from index i on.
  unfoldable pub commit_loop : ℕ → List BlockTx → ℕ → ℕ → Progress → CommitResult
  unfolding spend_inputs add_outputs out_sum at_height
  commit_loop i [] sumblockin sumblockout s = close height sumblockin sumblockout s
  commit_loop i (b ∷ bs) sumblockin sumblockout s =
      let s₁ = take_inputs i b s in
      let s₂ = add_outputs b.tx_hash 0 (at_height height b.tx.tx_outs) s₁ in
      let txoutsum = out_sum b.tx.tx_outs 0 in
      let in' = (sumblockin + s₁.txinsum) % 2 ^ 64 in
      let out' = (sumblockout + txoutsum) % 2 ^ 64 in
      let rest = commit_loop (i + 1) bs in' out' s₂ in
      if not s₁.scripts_ok
      then refused CommitError.verify_failed
      else if ltb 0 i && ltb s₁.txinsum txoutsum
      then refused CommitError.more_spent_than_input
      else if failed s₁.error
      then close height in' out' s₂
      else rest

  unfoldable pub commit_txs : List BlockTx → CommitResult
  unfolding commit_loop collect_outs get_block_reward
  commit_txs bs = commit_loop 0 bs (get_block_reward height) 0 (record {
    deleted = [];
    added = [];
    unspent = collect_outs height bs [];
    txinsum = 0;
    scripts_ok = true;
    error = none;
  })
