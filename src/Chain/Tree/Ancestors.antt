-- ===== src/Chain/Tree/Ancestors.antt =====
-- The nodes between a node of the tree of blocks and the root.
use mathlib.Core.Path.{subst}
use mathlib.Core.Option.{some-injective}
use yoin.Base.{ℕ, suc, ◌≤◌, ◌<◌, ◌≡◌, refl, sym, ap, ◌∙◌, ◌⊎◌, inl, inr, none, some, arith}
use yoin.Chain.Tree.{TreeNode, Nodes}

-- A child is one above its parent, the root alone has no parent and is at the height 0, and every
-- parent is there.
pub record WellFormed (t : Nodes) (root : ℕ) : Type 0 where
  pub root_only :
      (n : ℕ) (x : TreeNode) → t n ≡ some x → x.parent ≡ none → (n ≡ root) × (x.height ≡ 0)
  pub parent_there :
      (n p : ℕ) (x : TreeNode)
      → t n ≡ some x
      → x.parent ≡ some p
      → (y : TreeNode) × (t p ≡ some y) × (x.height ≡ suc y.height)

-- `a` is met on the way from `n` to the root.
pub data Ancestor (t : Nodes) : ℕ → ℕ → Type 0 where
  itself : {n : ℕ} → Ancestor t n n
  above :
      {a n p : ℕ} (x : TreeNode)
      → t n ≡ some x
      → x.parent ≡ some p
      → Ancestor t a p
      → Ancestor t a n

module _ (t : Nodes) (root : ℕ) (well : WellFormed t root) where
  pub strictly_below :
      (d n : ℕ) (y : TreeNode)
      → Ancestor t d n
      → t n ≡ some y
      → (d ≡ n) ⊎ ((x : TreeNode) × (t d ≡ some x) × (x.height < y.height))
  strictly_below d n y itself here = inl refl
  strictly_below d n y (above {p = p} x there up anc) here =
      let same = some-injective _ _ (sym there ∙ here) in
      let up' : y.parent ≡ some p = ap (λ z. z.parent) (sym same) ∙ up in
      let (z, at_p, higher) = well.parent_there n p y here up' in
      elim (strictly_below d p z anc at_p) [
        | inl e ↦ inr (z, ap t e ∙ at_p, omega (arith, higher))
        | inr (x', at_d, lower) ↦ inr (x', at_d, omega (arith, higher, lower))
      ]

  -- An ancestor of `n` at the height of `n` is `n`; any other is one of its parent.
  pub above-parent :
      (d n p : ℕ) (x : TreeNode)
      → Ancestor t d n
      → t n ≡ some x
      → x.parent ≡ some p
      → (d ≡ n) ⊎ Ancestor t d p
  above-parent d n p x itself here up = inl refl
  above-parent d n p x (above {p = q} x' there up' anc) here up =
      let same = some-injective _ _ (sym there ∙ here) in
      let e : q ≡ p = some-injective _ _ (sym up' ∙ (ap (λ z. z.parent) same ∙ up)) in
      inr (subst (λ m. Ancestor t d m) e anc)

  pub same_level :
      (d n : ℕ) (x y : TreeNode)
      → Ancestor t d n
      → t d ≡ some x
      → t n ≡ some y
      → x.height ≡ y.height
      → d ≡ n
  same_level d n x y anc at_d at_n level = elim (strictly_below d n y anc at_n) [
    | inl e ↦ e
    | inr (x', at_d', lower) ↦
        let same = some-injective _ _ (sym at_d ∙ at_d') in
        absurd (omega (arith, ap (λ z. z.height) same, lower, level))
  ]

  pub Ancestor-trans : (a b n : ℕ) → Ancestor t a b → Ancestor t b n → Ancestor t a n
  Ancestor-trans a b n anc itself = anc
  Ancestor-trans a b n anc (above {p = p} x here up anc') =
      above x here up (Ancestor-trans a b p anc anc')

  -- Of two nodes on the way to the root, the one that is not higher stands above the other.
  pub between :
      (d c n : ℕ) (x y : TreeNode)
      → t d ≡ some x
      → t c ≡ some y
      → x.height ≤ y.height
      → Ancestor t c n
      → Ancestor t d n
      → Ancestor t d c
  between d c n x y at_d at_c le itself anc = anc
  between d c n x y at_d at_c le (above {p = p} z here up over) anc =
      elim (above-parent d n p z anc here up) [
        | inr anc' ↦ between d c p x y at_d at_c le over anc'
        | inl same ↦
            let at_n : t d ≡ some z = ap t same ∙ here in
            let eq : x ≡ z = some-injective _ _ (sym at_d ∙ at_n) in
            elim (strictly_below c n z (above z here up over) here) [
              | inl e ↦ subst (λ m. Ancestor t d m) (same ∙ sym e) itself
              | inr (y', at_c', lower) ↦
                  let eq' : y ≡ y' = some-injective _ _ (sym at_c ∙ at_c') in
                  absurd (omega (arith, le, lower, ap (λ z. z.height) eq, ap (λ z. z.height) eq'))
            ]
      ]
