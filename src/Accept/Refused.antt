-- ===== src/Accept/Refused.antt =====
-- A block at the end of the chain whose transactions are refused.
use yoin.Base.{
  ℕ, ◌+◌, ◌%◌, ◌^◌, ◌≡◌, refl, sym, ap, ◌∙◌, Bool, true, false, [], ◌∷◌, Option, none, some, ◌>>=◌,
  ◌==◌, if◌then◌else◌, take, Bool-cases, Option-cases, inl, inr, ==_iff, ==_refl,
}
use yoin.Bytes.{Bytes, bytes_equal}
use yoin.Bytes.Laws.{bytes_equal_refl}
use yoin.Crypto.{Crypto}
use yoin.Tx.{Tx}
use yoin.Chain.Block.{Block}
use yoin.Chain.Commit.{CommitError, refused}
use yoin.Chain.Tree.{TreeNode, Nodes, set_node, add_child, del_child}
use yoin.Chain.Tree.Farthest.{IsChild}
use yoin.Chain.Tree.Children.{del_child-add_child}
use yoin.Qdb.Store.{Kv}
use yoin.Accept.{
  BlockIndex, find_node, delete_node, put_node, Chain, process_block_transactions, pick_unspent,
  new_node, linked, settle, accept_aside, accept_linked, accept_block,
}

delete_node-absent : (k : Bytes) (m : BlockIndex) → find_node k m ≡ none → delete_node k m ≡ m
unfolding find_node delete_node
delete_node-absent k [] h = refl
delete_node-absent k ((j, n) ∷ m) h = elim (Bool-cases (bytes_equal k j)) [
  | inl e ↦ let h' = rw e at h in absurd cc
  | inr e ↦
      let h' : find_node k m ≡ none = rw e at h in
      rw e (ap (λ r. (j, n) ∷ r) (delete_node-absent k m h'))
]

delete_node-put_node :
    (k : Bytes) (n : ℕ) (m : BlockIndex) → find_node k m ≡ none → delete_node k (put_node k n m) ≡ m
unfolding delete_node
delete_node-put_node k n m absent =
    rw (delete_node-absent k m absent, bytes_equal_refl k) (delete_node-absent k m absent)

apart : (m n : ℕ) → (m ≡ n → ⊥) → (m == n) ≡ false
apart m n differ = elim (Bool-cases (m == n)) [
  | inl e ↦ absurd (differ ((==_iff m n).0 e))
  | inr e ↦ e
]

-- A node that is there is not where the next one goes.
pub elsewhere : (t : Nodes) (m n : ℕ) (x : TreeNode) → t m ≡ some x → t n ≡ none → (m == n) ≡ false
elsewhere t m n x there free =
    apart m n (λ e. let h : some x ≡ none = sym there ∙ (ap t e ∙ free) in cc)

module _ (kv : Kv) (c : Crypto) (script_ok : Tx → ℕ → Bytes → Bool) where
  -- The chain as it was; only the node of the block stays behind, where nothing refers to it.
  pub record Unchanged (ch ch' : Chain kv) : Type 0 where
    pub blocks : ch'.blocks ≡ ch.blocks
    pub unspent : ch'.unspent ≡ ch.unspent
    pub block_index : ch'.block_index ≡ ch.block_index
    pub block_tree_end : ch'.block_tree_end ≡ ch.block_tree_end
    pub nodes : (m : ℕ) → (m ≡ ch.next_ref → ⊥) → ch'.nodes m ≡ ch.nodes m

  abbrev pub Result : Type 0
  Result = Option (Option CommitError × Chain kv)

  pub accept_block_step :
      (fuel : ℕ) (ch : Chain kv) (bl : Block) (prev : ℕ) (x : TreeNode) (nodes' : Nodes)
      → find_node (take 6 bl.pre_block_hash) ch.block_index ≡ some prev
      → ch.nodes prev ≡ some x
      → add_child (set_node ch.nodes ch.next_ref (new_node bl prev x)) prev ch.next_ref
        ≡ some nodes'
      → accept_block kv c script_ok fuel ch bl
        ≡ accept_linked kv c script_ok fuel
            (linked kv ch bl nodes')
            bl
            prev
            ch.next_ref
            (new_node bl prev x)
  unfolding accept_block
  accept_block_step fuel ch bl prev x nodes' indexed at_prev added =
      let link : ℕ → TreeNode → Nodes → Result = λ prev x nodes'.
        accept_linked kv c script_ok fuel (linked kv ch bl nodes') bl prev ch.next_ref
          (new_node bl prev x) in
      let attach : ℕ → TreeNode → Result = λ prev x.
        add_child (set_node ch.nodes ch.next_ref (new_node bl prev x)) prev ch.next_ref
        >>= link prev x in
      let at : ℕ → Result = λ prev. ch.nodes prev >>= attach prev in
      ap (λ o. o >>= at) indexed
      ∙ (ap (λ o. o >>= attach prev) at_prev ∙ ap (λ o. o >>= link prev x) added)

  pub at_end :
      (fuel : ℕ) (g : Chain kv) (bl : Block) (prev cur : ℕ) (x : TreeNode)
      → (g.block_tree_end == prev) ≡ true
      → accept_linked kv c script_ok fuel g bl prev cur x ≡ (
          process_block_transactions kv c script_ok g bl x.height
          >>= settle kv c script_ok g bl prev cur x)
  unfolding accept_linked
  at_end fuel g bl prev cur x last =
      ap
        (λ b.
          if b
          then process_block_transactions kv c script_ok g bl x.height
            >>= settle kv c script_ok g bl prev cur x
          else accept_aside kv c script_ok fuel g bl cur x)
        last

  accept_linked-refused :
      (fuel : ℕ) (g : Chain kv) (bl : Block) (prev cur : ℕ) (x : TreeNode) (e : CommitError)
      (t' : Nodes)
      → (g.block_tree_end == prev) ≡ true
      → process_block_transactions kv c script_ok g bl x.height ≡ some (refused e)
      → del_child g.nodes prev cur ≡ some t'
      → accept_linked kv c script_ok fuel g bl prev cur x
        ≡ some (
          some e,
          record g { nodes = t'; block_index = delete_node (take 6 bl.hash) g.block_index },
        )
  unfolding accept_linked settle
  accept_linked-refused fuel g bl prev cur x e t' last refuses deleted =
      let forget : Nodes → Result = λ nodes'. some (
        some e,
        record g { nodes = nodes'; block_index = delete_node (take 6 bl.hash) g.block_index },
      ) in
      at_end fuel g bl prev cur x last
      ∙ (ap (λ o. o >>= settle kv c script_ok g bl prev cur x) refuses
          ∙ ap (λ o. o >>= forget) deleted)

  -- If commitTxs refuses a block that follows the end of the chain, AcceptBlock returns its error, and
  -- the file of the blocks, the unspent outputs, the index, the end of the chain and every node that
  -- was there before are what they were.
  pub accept_block-Unchanged :
      (fuel : ℕ) (ch : Chain kv) (bl : Block) (x : TreeNode) (e : CommitError)
      → find_node (take 6 bl.pre_block_hash) ch.block_index ≡ some ch.block_tree_end
      → ch.nodes ch.block_tree_end ≡ some x
      → ch.nodes ch.next_ref ≡ none
      → (IsChild ch.next_ref x.children → ⊥)
      → find_node (take 6 bl.hash) ch.block_index ≡ none
      → process_block_transactions kv c script_ok ch bl ((x.height + 1) % 2 ^ 32) ≡ some (refused e)
      → (ch' : Chain kv) × (accept_block kv c script_ok fuel ch bl ≡ some (some e, ch'))
        × Unchanged ch ch'
  unfolding process_block_transactions pick_unspent
  accept_block-Unchanged fuel ch bl x e indexed at_end fresh childless new refuses =
      let prev = ch.block_tree_end in
      let cur = new_node bl prev x in
      let t = set_node ch.nodes ch.next_ref cur in
      let other : (prev == ch.next_ref) ≡ false =
        elsewhere ch.nodes prev ch.next_ref x at_end fresh in
      let at_prev : t prev ≡ some x = rw other at_end in
      let (t', undone, same) = del_child-add_child t prev ch.next_ref x at_prev childless in
      elim (Option-cases (add_child t prev ch.next_ref)) [
        | inl gone ↦ let h = rw gone at undone in absurd cc
        | inr (nodes', added) ↦
            let deleted : del_child nodes' prev ch.next_ref ≡ some t' = rw added at undone in
            let grown = linked kv ch bl nodes' in
            let index = delete_node-put_node (take 6 bl.hash) ch.next_ref ch.block_index new in
            (
              record grown {
                nodes = t';
                block_index = delete_node (take 6 bl.hash) grown.block_index;
              },
              accept_block_step fuel ch bl prev x nodes' indexed at_end added
                  ∙ accept_linked-refused fuel grown bl prev ch.next_ref cur e t' (==_refl prev)
                      refuses deleted,
              record {
                blocks = refl;
                unspent = refl;
                block_index = index;
                block_tree_end = refl;
                nodes = λ m old. same m ∙ rw (apart m ch.next_ref old) refl;
              },
            )
      ]
