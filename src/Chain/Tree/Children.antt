-- ===== src/Chain/Tree/Children.antt =====
-- A child that is added and taken away, as `AcceptBlock` does with a block that is refused.
use yoin.Base.{
  ℕ, suc, ◌≡◌, refl, sym, ap, inl, inr, true, List, [], ◌∷◌, ◌++◌, some, ◌>>=◌, ◌==◌, length,
  length-append, Bool-cases, ==_iff, ==_refl, arith,
}
use yoin.Chain.Tree.{TreeNode, Nodes, set_node, add_child, without, del_child}
use yoin.Chain.Tree.Farthest.{IsChild}

without-append : (c : ℕ) (xs : List ℕ) → (IsChild c xs → ⊥) → without c (xs ++ (c ∷ [])) ≡ xs
unfolding without
without-append c [] other = rw (==_refl c) refl
without-append c (x ∷ xs) other = elim (Bool-cases (x == c)) [
  | inl e ↦ absurd (other (inl (sym ((==_iff x c).0 e))))
  | inr e ↦ rw e (ap (λ l. x ∷ l) (without-append c xs (λ h. other (inr h))))
]

set_node-twice :
    (t : Nodes) (n : ℕ) (x y : TreeNode)
    → t n ≡ some x
    → (m : ℕ) → set_node (set_node t n y) n x m ≡ t m
set_node-twice t n x y at_n m = elim (Bool-cases (m == n)) [
  | inl e ↦ rw (e, (==_iff m n).0 e) (sym at_n)
  | inr e ↦ rw e refl
]

-- If the child is new, `delChild` undoes `addChild` on every node of the tree.
pub del_child-add_child :
    (t : Nodes) (n c : ℕ) (x : TreeNode)
    → t n ≡ some x
    → (IsChild c x.children → ⊥)
    → (t' : Nodes) × ((add_child t n c >>= (λ t. del_child t n c)) ≡ some t')
      × ((m : ℕ) → t' m ≡ t m)
unfolding add_child del_child
del_child-add_child t n c x at_n new =
    let y = record x { children = x.children ++ (c ∷ []) } in
    let one_more : (suc (length x.children) == length (x.children ++ (c ∷ []))) ≡ true =
      ground (arith, length-append x.children (c ∷ [])) in
    (
      set_node (set_node t n y) n x,
      rw (at_n, ==_refl n, without-append c x.children new, one_more) refl,
      set_node-twice t n x y at_n,
    )
