-- ===== src/Accept.antt =====
-- core/chain_accept.go, core/chain_node.go and core/chain.go: a block taken into the chain, over the
-- tree of blocks, the index, the file of the blocks and the unspent outputs. `none` is a panic.
-- Syncing, printing and the locks are left out, and the errors of the file of the blocks, which are
-- dropped. A new node is put at the pointer `next_ref`.
mod Examples
pub mod Refused
pub mod Grown
use yoin.Base.{
  ℕ, zero, suc, ◌+◌, ◌%◌, ◌^◌, Bool, true, false, List, [], ◌∷◌, Option, none, some, ◌>>=◌, ltb,
  ◌==◌, if◌then◌else◌, take,
}
use yoin.Bytes.{Bytes, bytes_equal}
use yoin.Crypto.{Crypto}
use yoin.Tx.{Tx, TxPrevOut, TxOut}
use yoin.Chain.Block.{Block, deserialize_block, decode_tx_list_from_raw}
use yoin.Chain.Commit.{
  BlockTx, BlockChangeEvent, CommitError, CommitResult, committed, refused, commit_txs,
}
use yoin.Chain.Tree.{
  TreeNode, Nodes, set_node, add_child, del_child, find_next_node_path_to, find_farthest_node,
  reach_common,
}
use yoin.BlockDb.{BlockDb, add_block, trust_block, invalid_block, get_block}
use yoin.Qdb.Store.{Kv}
use yoin.Qdb.Outputs.{Got, found}
use yoin.Qdb.Facade.{UnspentTdb, commit_block_txs, undo_block_transactions, unspent_get}

-- `map[[Uint256IdxLen]byte] *BlockTreeNode`
abbrev pub BlockIndex : Type 0
BlockIndex = List (Bytes × ℕ)

unfoldable pub find_node : Bytes → BlockIndex → Option ℕ
find_node k [] = none
find_node k ((j, n) ∷ m) = let r = find_node k m in if bytes_equal k j then some n else r

unfoldable pub delete_node : Bytes → BlockIndex → BlockIndex
delete_node k [] = []
delete_node k ((j, n) ∷ m) = let r = delete_node k m in if bytes_equal k j then r else (j, n) ∷ r

abbrev pub put_node : Bytes → ℕ → BlockIndex → BlockIndex
put_node k n m = (k, n) ∷ delete_node k m

-- The transactions with their hashes, which are nil before they are decoded.
unfoldable pub block_txs : List Tx → Option (List BlockTx)
block_txs [] = some []
block_txs (t ∷ ts) = do h ← t.hash; r ← block_txs ts; some (record { tx = t; tx_hash = h } ∷ r)

abbrev pub new_node : Block → ℕ → TreeNode → TreeNode
new_node bl prev x = record {
  block_hash = bl.hash;
  height = (x.height + 1) % 2 ^ 32;
  bits = bl.difficulty_target;
  timestamp = bl.create_time;
  parent = some prev;
  children = [];
}

module _ (kv : Kv) where
  pub record Chain : Type 0 where
    pub blocks : BlockDb
    pub unspent : UnspentTdb kv
    pub nodes : Nodes
    pub next_ref : ℕ
    pub block_index : BlockIndex
    pub block_tree_root : ℕ
    pub block_tree_end : ℕ

  unfoldable pub pick_unspent : Chain → TxPrevOut → Option TxOut
  unfolding unspent_get
  pick_unspent ch txin = elim (unspent_get kv ch.unspent txin) [ found o ↦ some o | _ ↦ none ]

  -- The block is in the tree and in the index.
  abbrev pub linked : Chain → Block → Nodes → Chain
  linked ch bl nodes' = record ch {
    nodes = nodes';
    next_ref = ch.next_ref + 1;
    block_index = put_node (take 6 bl.hash) ch.next_ref ch.block_index;
  }

  -- `script_ok` is the result of `VerifyTxScript` for an input, as in `commit_txs`.
  module _ (c : Crypto) (script_ok : Tx → ℕ → Bytes → Bool) where
    unfoldable pub process_block_transactions : Chain → Block → ℕ → Option CommitResult
    unfolding pick_unspent block_txs commit_txs
    process_block_transactions ch bl height = do
      txs ← block_txs bl.txs
      some (commit_txs (pick_unspent ch) script_ok bl.trusted height txs)

    -- `delAllChildren` changes nothing.
    unfoldable pub delete_branch : Chain → ℕ → Option Chain
    unfolding delete_node del_child invalid_block
    delete_branch ch cur = do
      x ← ch.nodes cur
      p ← x.parent
      nodes' ← del_child ch.nodes p cur
      blocks' ← invalid_block ch.blocks x.block_hash
      some (record ch {
        block_index = delete_node (take 6 x.block_hash) ch.block_index;
        nodes = nodes';
        blocks = blocks';
      })

    -- What a block of the way to the end does: the loop goes on or breaks.
    unfoldable pub parse_block : Chain → ℕ → Bytes → Bool → Option (Bool × Chain)
    unfolding deserialize_block decode_tx_list_from_raw process_block_transactions delete_branch
        trust_block commit_block_txs
    parse_block ch nxt b trusted = do
      x ← ch.nodes nxt
      elim (deserialize_block c b) [
        | none ↦ (do ch' ← delete_branch ch nxt; some (false, ch'))
        | some bl ↦ (do
          bl' ← decode_tx_list_from_raw c (record bl { trusted = trusted })
          result ← process_block_transactions ch bl' x.height
          elim result [
            | refused e ↦ (do ch' ← delete_branch ch nxt; some (false, ch'))
            | committed changes ↦ (do
              unspent' ← commit_block_txs kv ch.unspent changes bl'.hash
              some (
                true,
                record ch {
                  blocks = trust_block ch.blocks bl'.hash;
                  unspent = unspent';
                  block_tree_end = nxt;
                },
              ))
          ])
      ]

    -- The loop of `ParseTillBlock`; the fuel bounds the blocks on the way and the steps up the tree.
    unfoldable pub parse_loop : ℕ → Chain → ℕ → Option Chain
    unfolding find_next_node_path_to get_block parse_block
    parse_loop zero ch dst = none
    parse_loop (suc fuel) ch dst = if ch.block_tree_end == dst then some ch else (do
      way ← find_next_node_path_to ch.nodes (suc fuel) ch.block_tree_end dst
      elim way [
        | none ↦ some ch
        | some nxt ↦ (do
          x ← ch.nodes nxt
          (b, trusted) ← get_block ch.blocks x.block_hash
          (on, ch') ← parse_block ch nxt b trusted
          (if on then parse_loop fuel ch' dst else some ch'))
      ])

    unfoldable pub undo_blocks : List ℕ → UnspentTdb kv → Option (UnspentTdb kv)
    unfolding undo_block_transactions
    undo_blocks [] db = some db
    undo_blocks (h ∷ hs) db = do db' ← undo_block_transactions kv db h; undo_blocks hs db'

    -- `MoveToBlock` with `ParseTillBlock`, which calls it again for another end when a block on the way
    -- is refused.
    unfoldable pub move_to_block : ℕ → Chain → ℕ → Option Chain
    unfolding reach_common undo_blocks parse_loop find_farthest_node
    move_to_block zero ch dst = none
    move_to_block (suc fuel) ch dst = do
      (common, heights) ← reach_common ch.nodes (suc fuel) ch.block_tree_end dst
      unspent' ← undo_blocks heights ch.unspent
      ch' ← parse_loop (suc fuel) (record ch { unspent = unspent'; block_tree_end = common }) dst
      (if ch'.block_tree_end == dst then some ch' else (do
        (farthest, _) ← find_farthest_node ch'.nodes (suc fuel) ch'.block_tree_root
        move_to_block fuel ch' farthest))

    -- At the end of the chain: the error, if any, and the chain after it.
    unfoldable pub settle :
        Chain → Block → ℕ → ℕ → TreeNode → CommitResult → Option (Option CommitError × Chain)
    unfolding del_child delete_node add_block commit_block_txs
    settle ch bl prev cur x (refused e) = do
      nodes' ← del_child ch.nodes prev cur
      some (
        some e,
        record ch { nodes = nodes'; block_index = delete_node (take 6 bl.hash) ch.block_index },
      )
    settle ch bl prev cur x (committed changes) = do
      blocks' ← add_block ch.blocks x.height (record bl { trusted = true })
      unspent' ← commit_block_txs kv ch.unspent changes bl.hash
      some (none, record ch { blocks = blocks'; unspent = unspent'; block_tree_end = cur })

    -- Elsewhere in the tree.
    unfoldable pub accept_aside :
        ℕ → Chain → Block → ℕ → TreeNode → Option (Option CommitError × Chain)
    unfolding add_block move_to_block
    accept_aside fuel ch bl cur x = do
      blocks' ← add_block ch.blocks x.height bl
      last ← ch.nodes ch.block_tree_end
      (if ltb last.height x.height
          then (do ch' ← move_to_block fuel (record ch { blocks = blocks' }) cur; some (none, ch'))
          else some (none, record ch { blocks = blocks' }))

    unfoldable pub accept_linked :
        ℕ → Chain → Block → ℕ → ℕ → TreeNode → Option (Option CommitError × Chain)
    unfolding process_block_transactions settle accept_aside
    accept_linked fuel ch bl prev cur x =
        let at_end = process_block_transactions ch bl x.height >>= settle ch bl prev cur x in
        if ch.block_tree_end == prev then at_end else accept_aside fuel ch bl cur x

    unfoldable pub accept_block : ℕ → Chain → Block → Option (Option CommitError × Chain)
    unfolding find_node add_child accept_linked
    accept_block fuel ch bl = do
      prev ← find_node (take 6 bl.pre_block_hash) ch.block_index
      x ← ch.nodes prev
      let cur = new_node bl prev x
      nodes' ← add_child (set_node ch.nodes ch.next_ref cur) prev ch.next_ref
      accept_linked fuel (linked ch bl nodes') bl prev ch.next_ref cur
