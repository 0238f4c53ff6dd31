-- ===== src/Chain/Tree.antt =====
-- core/chain_node.go: the tree of blocks, and the loops of `MoveToBlock` over it.
-- A pointer is a number, and `nodes` what the pointers refer to. `none` is a panic, as of a nil
-- pointer. Printing and the map of the tree are left out.
pub mod Farthest
pub mod Ancestors
pub mod Meet
pub mod Children
pub mod Next
mod Examples
use yoin.Base.{
  ℕ, zero, suc, ◌+◌, ◌≤◌, ◌<◌, ◌≡◌, Bool, List, [], ◌∷◌, ◌++◌, Option, none, some, ◌>>=◌, ltb, leb,
  ◌==◌, if◌then◌else◌, length,
}
use yoin.Bytes.{Bytes}

pub record TreeNode : Type 0 where
  pub block_hash : Bytes
  pub height : ℕ
  pub bits : ℕ
  pub timestamp : ℕ
  pub parent : Option ℕ
  pub children : List ℕ

abbrev pub Nodes : Type 0
Nodes = ℕ → Option TreeNode

abbrev pub set_node : Nodes → ℕ → TreeNode → Nodes
set_node t n x m = if m == n then some x else t m

unfoldable pub add_child : Nodes → ℕ → ℕ → Option Nodes
add_child t n c = do x ← t n; some (set_node t n (record x { children = x.children ++ (c ∷ []) }))

unfoldable pub without : ℕ → List ℕ → List ℕ
without c [] = []
without c (x ∷ xs) = let r = without c xs in if x == c then r else x ∷ r

abbrev shorten : Nodes → ℕ → TreeNode → ℕ → List ℕ → Option Nodes
shorten t n x len r =
    if suc (length r) == len then some (set_node t n (record x { children = r })) else none

-- The new slice is one shorter; it is too short if the child is not there, and not filled if it is
-- there twice.
unfoldable pub del_child : Nodes → ℕ → ℕ → Option Nodes
unfolding without
del_child t n c = do x ← t n; shorten t n x (length x.children) (without c x.children)

-- The loop of `FindFarthestNode` over the other children.
unfoldable pub farthest_of : (ℕ → Option (ℕ × ℕ)) → List ℕ → ℕ × ℕ → Option (ℕ × ℕ)
farthest_of find [] best = some best
farthest_of find (c ∷ cs) best = do
  found ← find c
  farthest_of find cs (if ltb best.1 found.1 then found else best)

-- The node and how far below `n` it is.
unfoldable pub find_farthest_node : Nodes → ℕ → ℕ → Option (ℕ × ℕ)
unfolding farthest_of
find_farthest_node t zero n = none
find_farthest_node t (suc fuel) n = do
  x ← t n
  elim x.children [
    | [] ↦ some (n, 0)
    | c ∷ cs ↦ (do
      first ← find_farthest_node t fuel c
      best ← farthest_of (find_farthest_node t fuel) cs first
      some (best.0, suc best.1))
  ]

-- The last loop of `FindNextNodePathTo`.
unfoldable pub walk_up : Nodes → ℕ → ℕ → ℕ → Option ℕ
walk_up t zero n to = none
walk_up t (suc fuel) n to = do
  x ← t to
  p ← x.parent
  if p == n then some to else walk_up t fuel n p

-- What `FindNextNodePathTo` returns; nil is `none` inside.
unfoldable pub find_next_node_path_to : Nodes → ℕ → ℕ → ℕ → Option (Option ℕ)
unfolding walk_up
find_next_node_path_to t fuel n to = do
  x ← t n
  y ← t to
  if leb y.height x.height then none else elim x.children [
    | [] ↦ none
    | c ∷ cs ↦
        if n == to
        then some none
        else elim cs [ [] ↦ some (some c) | _ ∷ _ ↦ (do m ← walk_up t fuel n to; some (some m)) ]
  ]

-- The first loop of `MoveToBlock`: `cur` goes up to the height of the end.
unfoldable pub climb : Nodes → ℕ → ℕ → ℕ → Option ℕ
climb t zero h cur = none
climb t (suc fuel) h cur = do
  x ← t cur
  if ltb h x.height then (do p ← x.parent; climb t fuel h p) else some cur

-- The second loop: the end and `cur` go up together until they are the same. The heights whose
-- blocks are undone on the way come with the node.
unfoldable pub undo_to : Nodes → ℕ → ℕ → ℕ → Option (ℕ × List ℕ)
undo_to t zero tree_end cur = none
undo_to t (suc fuel) tree_end cur = if tree_end == cur then some (tree_end, []) else (do
  x ← t tree_end
  y ← t cur
  p ← x.parent
  q ← y.parent
  r ← undo_to t fuel p q
  some (r.0, x.height ∷ r.1))

-- `MoveToBlock` up to the call of `ParseTillBlock`.
unfoldable pub reach_common : Nodes → ℕ → ℕ → ℕ → Option (ℕ × List ℕ)
unfolding climb undo_to
reach_common t fuel tree_end dst = do
  x ← t tree_end
  cur ← climb t fuel x.height dst
  undo_to t fuel tree_end cur
