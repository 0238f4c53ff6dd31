-- ===== src/Accept/Grown.antt =====
-- A block at the end of the chain whose transactions are committed.
use yoin.Base.{
  ℕ, ◌+◌, ◌%◌, ◌^◌, ◌≤◌, ◌<◌, ◌≡◌, refl, ap, ◌∙◌, Bool, true, false, List, [], ◌∷◌, ◌++◌, none,
  some, ◌>>=◌, ◌==◌, length, take, ==_refl, arith, le→ltb_false,
}
use yoin.Bytes.{Bytes}
use yoin.Bytes.Laws.{bytes_equal_refl}
use yoin.Crypto.{Crypto}
use yoin.Tx.{Tx}
use yoin.Chain.Block.{Block}
use yoin.Chain.Commit.{BlockChangeEvent, committed}
use yoin.Chain.Tree.{TreeNode, Nodes, set_node, add_child}
use yoin.BlockDb.{BlockDb, add_block, added_block, get_block, hash2idx}
use yoin.BlockDb.Stored.{EntriesIn, get_block-added_block}
use yoin.Qdb.Store.{Kv}
use yoin.Qdb.Facade.{UnspentTdb, commit_block_txs}
use yoin.Accept.{
  find_node, Chain, process_block_transactions, pick_unspent, new_node, linked, settle,
  accept_block,
}
use yoin.Accept.Refused.{Result, elsewhere, accept_block_step, at_end}

find_node-first : (k : Bytes) (n : ℕ) (m : List (Bytes × ℕ)) → find_node k ((k, n) ∷ m) ≡ some n
unfolding find_node
find_node-first k n m = rw (bytes_equal_refl k) refl

added_fits :
    (db : BlockDb) (h : ℕ) (b : Block)
    → 36 ≤ length b.raw
    → add_block db h b ≡ some (added_block db h b)
unfolding add_block
added_fits db h b long = rw (le→ltb_false (length b.raw) 36 long) refl

stored :
    (db : BlockDb) (h : ℕ) (b : Block)
    → EntriesIn (length db.data_file) db.block_idx_map
    → length b.raw < 2 ^ 32
    → get_block (added_block db h b) b.hash ≡ some (b.raw, b.trusted)
stored db h b inside short =
    get_block-added_block db h b b.hash inside short ∙ rw (bytes_equal_refl (hash2idx b.hash)) refl

add_child_lem :
    (t : Nodes) (n c : ℕ) (x : TreeNode)
    → t n ≡ some x
    → add_child t n c ≡ some (set_node t n (record x { children = x.children ++ (c ∷ []) }))
unfolding add_child
add_child_lem t n c x at_n = rw at_n refl

module _ (kv : Kv) (c : Crypto) (script_ok : Tx → ℕ → Bytes → Bool) where
  -- The chain ends in the new block.
  pub record Extended (ch ch' : Chain kv) (bl : Block) (x : TreeNode) (unspent' : UnspentTdb kv)
      : Type 0 where
    pub block_tree_end : ch'.block_tree_end ≡ ch.next_ref
    pub last : ch'.nodes ch.next_ref ≡ some (new_node bl ch.block_tree_end x)
    pub parent :
        ch'.nodes ch.block_tree_end
        ≡ some (record x { children = x.children ++ (ch.next_ref ∷ []) })
    pub indexed : find_node (take 6 bl.hash) ch'.block_index ≡ some ch.next_ref
    pub unspent : ch'.unspent ≡ unspent'
    pub block : get_block ch'.blocks bl.hash ≡ some (bl.raw, true)

  settle-committed :
      (g : Chain kv) (bl : Block) (prev cur : ℕ) (x : TreeNode) (changes : BlockChangeEvent)
      (blocks' : BlockDb) (unspent' : UnspentTdb kv)
      → add_block g.blocks x.height (record bl { trusted = true }) ≡ some blocks'
      → commit_block_txs kv g.unspent changes bl.hash ≡ some unspent'
      → settle kv c script_ok g bl prev cur x (committed changes)
        ≡ some (none, record g { blocks = blocks'; unspent = unspent'; block_tree_end = cur })
  unfolding settle
  settle-committed g bl prev cur x changes blocks' unspent' wrote spent =
      let finish : BlockDb → UnspentTdb kv → Result kv c script_ok =
        λ b u. some (none, record g { blocks = b; unspent = u; block_tree_end = cur }) in
      let spend : BlockDb → Result kv c script_ok =
        λ b. commit_block_txs kv g.unspent changes bl.hash >>= finish b in
      ap (λ o. o >>= spend) wrote ∙ ap (λ o. o >>= finish blocks') spent

  -- If commitTxs commits a block that follows the end of the chain and CommitBlockTxs takes the changes,
  -- AcceptBlock ends without an error, the chain ends in the new block, which the index and its parent
  -- know, the outputs are those after the changes, and GetBlock has the block, as a trusted one.
  pub accept_block-Extended :
      (fuel : ℕ) (ch : Chain kv) (bl : Block) (x : TreeNode) (changes : BlockChangeEvent)
      (unspent' : UnspentTdb kv)
      → find_node (take 6 bl.pre_block_hash) ch.block_index ≡ some ch.block_tree_end
      → ch.nodes ch.block_tree_end ≡ some x
      → ch.nodes ch.next_ref ≡ none
      → process_block_transactions kv c script_ok ch bl ((x.height + 1) % 2 ^ 32)
        ≡ some (committed changes)
      → commit_block_txs kv ch.unspent changes bl.hash ≡ some unspent'
      → EntriesIn (length ch.blocks.data_file) ch.blocks.block_idx_map
      → 36 ≤ length bl.raw
      → length bl.raw < 2 ^ 32
      → (ch' : Chain kv) × (accept_block kv c script_ok fuel ch bl ≡ some (none, ch'))
        × Extended ch ch' bl x unspent'
  unfolding process_block_transactions pick_unspent
  accept_block-Extended fuel ch bl x changes unspent' indexed at_last fresh commits spent inside
        long short =
      let prev = ch.block_tree_end in
      let cur = new_node bl prev x in
      let t = set_node ch.nodes ch.next_ref cur in
      let other : (prev == ch.next_ref) ≡ false =
        elsewhere ch.nodes prev ch.next_ref x at_last fresh in
      let other' : (ch.next_ref == prev) ≡ false = ground (arith, other) in
      let at_prev : t prev ≡ some x = rw other at_last in
      let trusted = record bl { trusted = true } in
      let nodes' = set_node t prev (record x { children = x.children ++ (ch.next_ref ∷ []) }) in
      let grown = linked kv ch bl nodes' in
      let blocks' = added_block ch.blocks cur.height trusted in
      (
        record grown { blocks = blocks'; unspent = unspent'; block_tree_end = ch.next_ref },
        accept_block_step kv c script_ok fuel ch bl prev x nodes' indexed at_last
              (add_child_lem t prev ch.next_ref x at_prev)
            ∙ (at_end kv c script_ok fuel grown bl prev ch.next_ref cur (==_refl prev)
                ∙ (ap (λ o. o >>= settle kv c script_ok grown bl prev ch.next_ref cur) commits
                    ∙ settle-committed grown bl prev ch.next_ref cur changes blocks' unspent'
                        (added_fits ch.blocks cur.height trusted long) spent)),
        record {
          block_tree_end = refl;
          last = rw (other', ==_refl ch.next_ref) refl;
          parent = rw (==_refl prev) refl;
          indexed = find_node-first (take 6 bl.hash) ch.next_ref _;
          unspent = refl;
          block = stored ch.blocks cur.height trusted inside short;
        },
      )
