-- ===== src/Accept/Examples.antt =====
-- A chain of the genesis block, and blocks with a coin base of some value on top of it.
use yoin.Base.{
  ℕ, zero, suc, ◌^◌, ◌≡◌, refl, Bool, true, [], ◌∷◌, ◌++◌, none, some, replicate, arith,
}
use yoin.Bytes.{Bytes, bytes_equal, prefix?}
use yoin.Crypto.{Crypto}
use yoin.Tx.{Tx}
use yoin.Chain.Block.{Block}
use yoin.Chain.Commit.{CommitError, BlockChangeEvent}
use yoin.Chain.Tree.{TreeNode, Nodes}
use yoin.Qdb.Store.AssocList.{assoc_kv}
use yoin.Qdb.Outputs
use yoin.Qdb.Unwind
use yoin.Qdb.Facade.{UnspentTdb, commit_block_txs}
use yoin.Accept.{Chain, find_node, process_block_transactions, accept_block}
use yoin.Accept.Refused.{Unchanged, accept_block-Unchanged}
use yoin.Accept.Grown.{Extended, accept_block-Extended}

abbrev c : Crypto
c = record {
  sha256 = λ b. replicate 32 1;
  ripemd160 = λ b. replicate 20 2;
  ecdsa_verify = λ x y h r s. true;
}

abbrev script_ok : Tx → ℕ → Bytes → Bool
script_ok t i pk = true

abbrev genesis : TreeNode
genesis = record {
  block_hash = replicate 32 7;
  height = 0;
  bits = 0;
  timestamp = 0;
  parent = none;
  children = [];
}

abbrev nodes : Nodes
nodes zero = some genesis
nodes (suc n) = none

abbrev empty : UnspentTdb assoc_kv
empty = record {
  unspent = λ i. [];
  unwind = record { tdb = []; last_block_height = 0; last_block_hash = [] };
}

abbrev chain : Chain assoc_kv
chain = record {
  blocks = record { block_idx_map = []; data_file = []; idx_file = []; idx_pos = 0 };
  unspent = empty;
  nodes = nodes;
  next_ref = 1;
  block_index = (replicate 6 7, 0) ∷ [];
  block_tree_root = 0;
  block_tree_end = 0;
}

abbrev block : ℕ → Block
block v = record {
  version = 1;
  pre_block_hash = replicate 32 7;
  merkle_root = replicate 32 0;
  create_time = 9;
  difficulty_target = 0;
  nonce = 0;
  txs =
      record {
        version = 1;
        tx_ins = [];
        tx_outs = record { value = v; block_height = 0; script_pub_key = [] } ∷ [];
        lock_time = 0;
        size = 100;
        hash = some (replicate 32 3);
      }
      ∷ [];
  raw = replicate 100 5;
  hash = replicate 32 8;
  trusted = true;
}

-- More than the reward.
accept_block-Unchanged_example :
    (ch' : Chain assoc_kv) × (accept_block assoc_kv c script_ok 5 chain (block (2 ^ 60))
      ≡ some (some CommitError.out_exceeds_in, ch'))
    × Unchanged assoc_kv c script_ok chain ch'
unfolding find_node process_block_transactions bytes_equal
accept_block-Unchanged_example =
    accept_block-Unchanged assoc_kv c script_ok 5 chain (block (2 ^ 60)) genesis
      CommitError.out_exceeds_in refl refl refl (λ child. child) refl refl

abbrev changes : BlockChangeEvent
changes = record {
  height = 1;
  added_txs =
      (
        record { pre_out_tx_hash = replicate 32 3; out_idx_in_tx = 0 },
        record { value = 50; block_height = 1; script_pub_key = [] },
      )
      ∷ [];
  deleted_txs = [];
}

abbrev spent : UnspentTdb assoc_kv
spent = record {
  unspent = Outputs.commit assoc_kv empty.unspent changes;
  unwind = record {
    tdb =
        (1, replicate 32 8 ++ (Unwind.write_added changes.added_txs ++ Unwind.write_deleted []))
        ∷ [];
    last_block_height = 1;
    last_block_hash = replicate 32 8;
  };
}

spent_lem : commit_block_txs assoc_kv empty changes (replicate 32 8) ≡ some spent
unfolding commit_block_txs Unwind.commit prefix? Unwind.write_deleted
spent_lem = refl

accept_block-Extended_example :
    (ch' : Chain assoc_kv) × (accept_block assoc_kv c script_ok 5 chain (block 50)
      ≡ some (none, ch'))
    × Extended assoc_kv c script_ok chain ch' (block 50) genesis spent
unfolding find_node process_block_transactions bytes_equal
accept_block-Extended_example =
    accept_block-Extended assoc_kv c script_ok 5 chain (block 50) genesis changes spent refl refl
      refl refl spent_lem tt (omega arith) (omega arith)
