-- ===== src/Chain/Tree/Next.antt =====
-- The step towards a node that `FindNextNodePathTo` finds.
use mathlib.Core.Path.{subst}
use mathlib.Core.Option.{some-injective}
use yoin.Base.{
  ℕ, zero, suc, ◌+◌, ◌<◌, ◌≡◌, refl, sym, ap, ◌∙◌, inl, inr, false, List, [], ◌∷◌, some, leb, ◌==◌,
  Bool-cases, Option-cases, ==_iff, arith,
}
use yoin.Chain.Tree.{TreeNode, Nodes, walk_up, find_next_node_path_to}
use yoin.Chain.Tree.Ancestors.{WellFormed, Ancestor, itself, above, strictly_below, above-parent}
use yoin.Chain.Tree.Farthest.{IsChild}

-- A node is among the children of its parent.
abbrev pub KnowsChildren : Nodes → Type 0
KnowsChildren t =
    (n p : ℕ) (x y : TreeNode)
    → t n ≡ some x
    → x.parent ≡ some p
    → t p ≡ some y
    → IsChild n y.children

-- A child of `n` on the way down to `to`.
pub record Towards (t : Nodes) (n to m : ℕ) : Type 0 where
  pub node : TreeNode
  pub there : t m ≡ some node
  pub below_n : node.parent ≡ some n
  pub on_the_way : Ancestor t m to

module _ (t : Nodes) (root : ℕ) (well : WellFormed t root) where
  walk_up-step :
      (fuel n to p m : ℕ) (y : TreeNode)
      → t to ≡ some y
      → y.parent ≡ some p
      → (p == n) ≡ false
      → walk_up t fuel n p ≡ some m
      → walk_up t (suc fuel) n to ≡ some m
  unfolding walk_up
  walk_up-step fuel n to p m y at_to up apart done = rw (walk_up, at_to, up, apart, done) refl

  parent_anc :
      (n to p : ℕ) (x y : TreeNode)
      → t n ≡ some x
      → t to ≡ some y
      → x.height < y.height
      → y.parent ≡ some p
      → Ancestor t n to
      → Ancestor t n p
  parent_anc n to p x y at_n at_to lower up anc =
      elim (above-parent t root well n to p y anc at_to up) [
        | inr anc_p ↦ anc_p
        | inl same ↦
            let eq : x ≡ y = some-injective _ _ (sym at_n ∙ (ap t same ∙ at_to)) in
            absurd (omega (arith, lower, ap (λ z. z.height) eq))
      ]

  height_below :
      (n p : ℕ) (x z : TreeNode)
      → t n ≡ some x
      → t p ≡ some z
      → Ancestor t n p
      → (p == n) ≡ false
      → x.height < z.height
  height_below n p x z at_n at_p anc apart = elim (strictly_below t root well n p z anc at_p) [
    | inl same ↦ absurd (ground (arith, apart, same))
    | inr (x', at_n', lower) ↦
        let eq : x ≡ x' = some-injective _ _ (sym at_n ∙ at_n') in
        omega (arith, lower, ap (λ z. z.height) eq)
  ]

  walk_up-Towards :
      (fuel n to : ℕ) (x y : TreeNode)
      → t n ≡ some x
      → t to ≡ some y
      → Ancestor t n to
      → x.height < y.height
      → y.height < fuel + x.height
      → (m : ℕ) × (walk_up t fuel n to ≡ some m) × Towards t n to m
  unfolding walk_up
  walk_up-Towards zero n to x y at_n at_to anc lower enough = absurd (omega (arith, lower, enough))
  walk_up-Towards (suc fuel) n to x y at_n at_to anc lower enough = elim (Option-cases y.parent) [
    | inl gone ↦ let r = well.root_only to y at_to gone in absurd (omega (arith, r.1, lower))
    | inr (p, up) ↦ elim (Bool-cases (p == n)) [
      | inl e ↦ (
        to,
        rw (at_to, up, e) refl,
        record {
          node = y;
          there = at_to;
          below_n = up ∙ ap some ((==_iff p n).0 e);
          on_the_way = itself;
        },
      )
      | inr e ↦
          let (z, at_p, higher) = well.parent_there to p y at_to up in
          let anc_p = parent_anc n to p x y at_n at_to lower up anc in
          let lower_p = height_below n p x z at_n at_p anc_p e in
          let (m, done, w) =
            walk_up-Towards fuel n p x z at_n at_p anc_p lower_p (omega (arith, higher, enough)) in
          (
            m,
            walk_up-step fuel n to p m y at_to up e done,
            record {
              node = w.node;
              there = w.there;
              below_n = w.below_n;
              on_the_way = above y at_to up w.on_the_way;
            },
          )
    ]
  ]

-- In a well-formed tree in which every node is among its parent's children `FindNextNodePathTo` comes,
-- for a node above another one, to the child on the way down to that one; the fuel is any bound on
-- the difference of their heights.
pub find_next_node_path_to-Towards :
    (t : Nodes) (root : ℕ) (fuel n to : ℕ) (x y : TreeNode)
    → WellFormed t root
    → KnowsChildren t
    → t n ≡ some x
    → t to ≡ some y
    → Ancestor t n to
    → x.height < y.height
    → y.height < fuel + x.height
    → (m : ℕ) × (find_next_node_path_to t fuel n to ≡ some (some m)) × Towards t n to m
unfolding find_next_node_path_to
find_next_node_path_to-Towards t root fuel n to x y well knows at_n at_to anc lower enough =
    let (m, done, w) = walk_up-Towards t root well fuel n to x y at_n at_to anc lower enough in
    let child : IsChild m x.children = knows m n w.node x w.there w.below_n at_n in
    let higher : leb y.height x.height ≡ false = ground (arith, lower) in
    let apart : (n == to) ≡ false = elim (Bool-cases (n == to)) [
      | inr e ↦ e
      | inl e ↦
          let same : x ≡ y = some-injective _ _ (sym at_n ∙ (ap t ((==_iff n to).0 e) ∙ at_to)) in
          absurd (omega (arith, lower, ap (λ z. z.height) same))
    ] in
    (m, go x.children refl m done child higher apart, w)
  where
    go :
        (cs : List ℕ)
        → x.children ≡ cs
        → (m : ℕ) → walk_up t fuel n to ≡ some m
        → IsChild m x.children
        → leb y.height x.height ≡ false
        → (n == to) ≡ false
        → find_next_node_path_to t fuel n to ≡ some (some m)
    go [] e m done child higher apart = absurd (subst (IsChild m) e child)
    go (c ∷ []) e m done child higher apart = elim (subst (IsChild m) e child) [
      | inl same ↦
          rw (find_next_node_path_to, at_n, at_to, higher, e, apart)
            (ap (λ z. some (some z)) (sym same))
      | inr h ↦ absurd h
    ]
    go (c ∷ (d ∷ cs)) e m done child higher apart =
        rw (find_next_node_path_to, at_n, at_to, higher, e, apart, done) refl
