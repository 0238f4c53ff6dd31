-- ===== src/Chain/Commit/Examples.antt =====
-- Blocks that `commitTxs` sees, for core/chain_accept.go.
use yoin.Base.{
  ℕ, ◌+◌, ◌^◌, ◌%◌, ◌≡◌, ◌≤◌, ◌↔◌, refl, Bool, false, List, [], ◌∷◌, Option, none, some, replicate,
}
use yoin.Bytes.{Bytes}
use yoin.Tx.{TxPrevOut, TxIn, TxOut, Tx}
use yoin.Tx.Check.Sound.{total}
use yoin.Chain.Commit.{
  BlockTx, refused, verify_failed, commit_txs, get_block_reward, commit_loop, collect_outs,
  spend_inputs, add_outputs, out_sum, find_output, find_outs, has_key, remove, at_height,
}
use yoin.Chain.Commit.Lost.{Accepted, IsReported, commit_txs-coin_base, commit_txs-IsReported}

abbrev no_outputs : TxPrevOut → Option TxOut
no_outputs p = none

abbrev one_output : TxPrevOut → Option TxOut
one_output p = some (record { value = 9; script_pub_key = []; block_height = 1 })

abbrev all_fail : Tx → ℕ → Bytes → Bool
all_fail t j pk = false

abbrev paying : List TxIn → List TxOut → Tx
paying is os = record {
  version = 1;
  tx_ins = is;
  tx_outs = os;
  lock_time = 0;
  size = 100;
  hash = none;
}

abbrev out : ℕ → TxOut
out v = record { value = v; script_pub_key = []; block_height = 0 }

-- The outputs add up to 2^64 + 1.
abbrev rich : BlockTx
rich = record { tx = paying [] (out (2 ^ 63) ∷ out (2 ^ 63 + 1) ∷ []); tx_hash = replicate 32 1 }

abbrev unsigned : BlockTx
unsigned = record {
  tx =
      paying
        (record {
          input = record { pre_out_tx_hash = replicate 32 3; out_idx_in_tx = 0 };
          script_sig = [];
          sequence = 0;
        }
          ∷ [])
        (out 5 ∷ []);
  tx_hash = replicate 32 2;
}

commit_txs-coin_base_example :
    Accepted (commit_txs no_outputs all_fail false 7 (rich ∷ []))
    ↔ (total rich.tx.tx_outs % 2 ^ 64 ≤ get_block_reward 7)
commit_txs-coin_base_example = commit_txs-coin_base no_outputs all_fail false 7 rich

fails : commit_txs one_output all_fail false 7 (rich ∷ unsigned ∷ []) ≡ refused verify_failed
unfolding commit_txs commit_loop collect_outs spend_inputs add_outputs out_sum find_output find_outs
    has_key remove at_height get_block_reward
fails = refl

commit_txs-IsReported_example : IsReported verify_failed
commit_txs-IsReported_example =
    commit_txs-IsReported one_output all_fail false 7 (rich ∷ unsigned ∷ []) verify_failed fails
