-- ===== src/Chain/Tree/Examples.antt =====
-- A fork, for core/chain_node.go: 0 is the root, 1 and 2 its children, and 3 the child of 2.
use mathlib.Core.Path.{subst}
use mathlib.Core.Option.{some-injective}
use yoin.Base.{
  ℕ, zero, suc, ◌≡◌, refl, sym, ap, ◌∙◌, inl, inr, List, [], ◌∷◌, Option, none, some, arith,
  replicate,
}
use yoin.Chain.Tree.{TreeNode, Nodes, find_farthest_node, reach_common}
use yoin.Chain.Tree.Ancestors.{WellFormed, Ancestor}
use yoin.Chain.Tree.Meet.{heights_down, reach_common-Meeting}
use yoin.Chain.Tree.Next.{Towards, find_next_node_path_to-Towards}
use yoin.Chain.Tree.{find_next_node_path_to}
use yoin.Chain.Tree.Ancestors.{itself, above}
use yoin.Chain.Tree.Farthest.{IsChild, Within, Within-children, Deepest, find_farthest_node-Deepest}

abbrev node : ℕ → Option ℕ → List ℕ → TreeNode
node height parent children = record {
  block_hash = replicate 32 height;
  height = height;
  bits = 0x1d00ffff;
  timestamp = 0;
  parent = parent;
  children = children;
}

abbrev fork : Nodes
fork zero = some (node 0 none (1 ∷ 2 ∷ []))
fork (suc zero) = some (node 1 (some 0) [])
fork (suc (suc zero)) = some (node 1 (some 0) (3 ∷ []))
fork (suc (suc (suc zero))) = some (node 2 (some 2) [])
fork (suc (suc (suc (suc n)))) = none

has_parent :
    (h q : ℕ) (cs : List ℕ) (x : TreeNode)
    → some (node h (some q) cs) ≡ some x
    → x.parent ≡ none
    → ⊥
has_parent h q cs x e gone =
    let up : some q ≡ none = ap (λ z. z.parent) (some-injective _ _ e) ∙ gone in cc

root_only : (n : ℕ) (x : TreeNode) → fork n ≡ some x → x.parent ≡ none → (n ≡ 0) × (x.height ≡ 0)
root_only zero x e gone = (refl, ap (λ z. z.height) (sym (some-injective _ _ e)))
root_only (suc zero) x e gone = absurd (has_parent _ _ _ x e gone)
root_only (suc (suc zero)) x e gone = absurd (has_parent _ _ _ x e gone)
root_only (suc (suc (suc zero))) x e gone = absurd (has_parent _ _ _ x e gone)
root_only (suc (suc (suc (suc n)))) x e gone = absurd cc

one_above :
    (h q p : ℕ) (cs : List ℕ) (x y : TreeNode)
    → some (node (suc h) (some q) cs) ≡ some x
    → x.parent ≡ some p
    → fork q ≡ some y
    → y.height ≡ h
    → (z : TreeNode) × (fork p ≡ some z) × (x.height ≡ suc z.height)
one_above h q p cs x y e up at_q level =
    let same = some-injective _ _ e in
    let q_is_p : q ≡ p = some-injective _ _ (ap (λ z. z.parent) same ∙ up) in
    (y, ap fork (sym q_is_p) ∙ at_q, sym (ap (λ z. z.height) same) ∙ ap suc (sym level))

parent_there :
    (n p : ℕ) (x : TreeNode)
    → fork n ≡ some x
    → x.parent ≡ some p
    → (y : TreeNode) × (fork p ≡ some y) × (x.height ≡ suc y.height)
parent_there zero p x e up =
    let h : none ≡ some p = ap (λ z. z.parent) (some-injective _ _ e) ∙ up in absurd cc
parent_there (suc zero) p x e up = one_above 0 0 p [] x (node 0 none (1 ∷ 2 ∷ [])) e up refl refl
parent_there (suc (suc zero)) p x e up =
    one_above 0 0 p (3 ∷ []) x (node 0 none (1 ∷ 2 ∷ [])) e up refl refl
parent_there (suc (suc (suc zero))) p x e up =
    one_above 1 2 p [] x (node 1 (some 0) (3 ∷ [])) e up refl refl
parent_there (suc (suc (suc (suc n)))) p x e up = absurd cc

fork-WellFormed : WellFormed fork 0
fork-WellFormed = record { root_only = root_only; parent_there = parent_there }

-- From the tip 1 to the tip 3.
reach_common-Meeting_example :
    (c : ℕ) × (z : TreeNode) × (fork c ≡ some z)
    × (reach_common fork 3 1 3 ≡ some (c, heights_down 1 z.height))
    × Ancestor fork c 1
    × Ancestor fork c 3
    × ((d : ℕ) → Ancestor fork d 1 → Ancestor fork d 3 → Ancestor fork d c)
reach_common-Meeting_example =
    reach_common-Meeting fork 0 3 1 3 (node 1 (some 0) []) (node 2 (some 2) []) fork-WellFormed refl
      refl (omega arith) (omega arith)

leaf : (depth n h q : ℕ) → fork n ≡ some (node h (some q) []) → Within fork (suc depth) n
leaf depth n h q at_n =
    Within-children fork depth n (node h (some q) []) at_n (λ c child. absurd child)

fork-Within : Within fork 3 0
fork-Within = Within-children fork 2 0 (node 0 none (1 ∷ 2 ∷ [])) refl (λ c child. elim child [
  | inl e ↦ subst (Within fork 2) (sym e) (leaf 1 1 1 0 refl)
  | inr (inl e) ↦ subst (Within fork 2) (sym e) (
      Within-children fork 1 2 (node 1 (some 0) (3 ∷ [])) refl (λ c child. elim child [
        | inl e ↦ subst (Within fork 1) (sym e) (leaf 0 3 2 2 refl)
        | inr h ↦ absurd h
      ]))
  | inr (inr h) ↦ absurd h
])

find_farthest_node-Deepest_example :
    (found : ℕ × ℕ) × (find_farthest_node fork 3 0 ≡ some found) × Deepest fork 0 found
find_farthest_node-Deepest_example = find_farthest_node-Deepest fork 3 0 fork-Within

known :
    (n h q p : ℕ) (cs : List ℕ) (x y z : TreeNode)
    → some (node h (some q) cs) ≡ some x
    → x.parent ≡ some p
    → fork p ≡ some y
    → fork q ≡ some z
    → IsChild n z.children
    → IsChild n y.children
known n h q p cs x y z e up at_p at_q child =
    let q_is_p : q ≡ p = some-injective _ _ (ap (λ z. z.parent) (some-injective _ _ e) ∙ up) in
    let same : z ≡ y = some-injective _ _ (sym at_q ∙ (ap fork q_is_p ∙ at_p)) in
    subst (λ w. IsChild n w.children) same child

fork-KnowsChildren :
    (n p : ℕ) (x y : TreeNode)
    → fork n ≡ some x
    → x.parent ≡ some p
    → fork p ≡ some y
    → IsChild n y.children
fork-KnowsChildren zero p x y e up at_p =
    let h : none ≡ some p = ap (λ z. z.parent) (some-injective _ _ e) ∙ up in absurd cc
fork-KnowsChildren (suc zero) p x y e up at_p =
    known 1 1 0 p [] x y (node 0 none (1 ∷ 2 ∷ [])) e up at_p refl (inl refl)
fork-KnowsChildren (suc (suc zero)) p x y e up at_p =
    known 2 1 0 p (3 ∷ []) x y (node 0 none (1 ∷ 2 ∷ [])) e up at_p refl (inr (inl refl))
fork-KnowsChildren (suc (suc (suc zero))) p x y e up at_p =
    known 3 2 2 p [] x y (node 1 (some 0) (3 ∷ [])) e up at_p refl (inl refl)
fork-KnowsChildren (suc (suc (suc (suc n)))) p x y e up at_p = absurd cc

-- From the root towards the tip 3, past the fork.
find_next_node_path_to-Towards_example :
    (m : ℕ) × (find_next_node_path_to fork 3 0 3 ≡ some (some m)) × Towards fork 0 3 m
find_next_node_path_to-Towards_example =
    find_next_node_path_to-Towards fork 0 3 0 3 (node 0 none (1 ∷ 2 ∷ [])) (node 2 (some 2) [])
      fork-WellFormed fork-KnowsChildren refl refl
      (above (node 2 (some 2) []) refl refl (above (node 1 (some 0) (3 ∷ [])) refl refl itself))
      (omega arith) (omega arith)
