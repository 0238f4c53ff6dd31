-- ===== src/Chain/Tree/Farthest.antt =====
-- The node that `FindFarthestNode` returns.
use mathlib.Core.Option.{some-injective}
use mathlib.Core.Path.{subst}
use yoin.Base.{
  ℕ, zero, suc, ◌≤◌, ◌<◌, ◌≡◌, refl, sym, ap, ◌∙◌, ◌⊎◌, inl, inr, Bool, true, false, List, [], ◌∷◌,
  Option, some, ltb, if◌then◌else◌, Bool-cases, arith,
}
use yoin.Chain.Tree.{TreeNode, Nodes, farthest_of, find_farthest_node}

abbrev pub IsChild : ℕ → List ℕ → Type 0
IsChild c [] = ⊥
IsChild c (x ∷ xs) = (c ≡ x) ⊎ IsChild c xs

-- `m` stands k levels below `n`.
pub data Beneath (t : Nodes) : ℕ → ℕ → ℕ → Type 0 where
  here : {n : ℕ} → Beneath t n 0 n
  further :
      {n k m : ℕ} (x : TreeNode) (c : ℕ)
      → t n ≡ some x
      → IsChild c x.children
      → Beneath t c k m
      → Beneath t n (suc k) m

-- Everything below the node is there, and less than `depth` levels below.
abbrev pub Within : Nodes → ℕ → ℕ → Type 0
Within t depth n = (k m : ℕ) → Beneath t n k m → (k < depth) × ((x : TreeNode) × (t m ≡ some x))

-- A node below `n` that no other one exceeds.
pub record Deepest (t : Nodes) (n : ℕ) (found : ℕ × ℕ) : Type 0 where
  pub stands : Beneath t n found.1 found.0
  pub deepest : (k m : ℕ) → Beneath t n k m → k ≤ found.1

module _ (t : Nodes) where
  -- The best of the candidates from some children, as far as the loop has come.
  record Best (all cs : List ℕ) (find : ℕ → Option (ℕ × ℕ)) (best found : ℕ × ℕ) : Type 0 where
    from : (c : ℕ) × IsChild c all × Beneath t c found.1 found.0
    not_less : best.1 ≤ found.1
    others : (c : ℕ) → IsChild c cs → (k m : ℕ) → Beneath t c k m → k ≤ found.1

  farthest_of-Best :
      (all cs : List ℕ) (find : ℕ → Option (ℕ × ℕ)) (best : ℕ × ℕ)
      → ((c : ℕ) → IsChild c cs → IsChild c all)
      → ((c : ℕ) → IsChild c cs → (r : ℕ × ℕ) × (find c ≡ some r) × Deepest t c r)
      → ((c : ℕ) × IsChild c all × Beneath t c best.1 best.0)
      → (found : ℕ × ℕ) × (farthest_of find cs best ≡ some found) × Best all cs find best found
  unfolding farthest_of
  farthest_of-Best all [] find best sub finds from =
      (best, refl, record { from = from; not_less = omega arith; others = λ c h. absurd h })
  farthest_of-Best all (c ∷ cs) find best sub finds from =
      let (r, e, d) = finds c (inl refl) in
      let from_c : (c : ℕ) × IsChild c all × Beneath t c r.1 r.0 =
        (c, sub c (inl refl), d.stands) in
      let from' = pick (ltb best.1 r.1) best r from from_c in
      let (found, done, b) =
        farthest_of-Best all cs find (if ltb best.1 r.1 then r else best) (λ c h. sub c (inr h))
          (λ c h. finds c (inr h)) from' in
      let (le_best, le_r) = bounds best r found b.not_less in
      (
        found,
        rw (farthest_of, e) done,
        record {
          from = b.from;
          not_less = le_best;
          others = λ c' h k m beneath. elim h [
            | inl same ↦
                let far = d.deepest k m (subst (λ z. Beneath t z k m) same beneath) in
                omega (arith, far, le_r)
            | inr h' ↦ b.others c' h' k m beneath
          ];
        },
      )
    where
      pick :
          (w : Bool) (best r : ℕ × ℕ)
          → ((c : ℕ) × IsChild c all × Beneath t c best.1 best.0)
          → ((c : ℕ) × IsChild c all × Beneath t c r.1 r.0)
          → (c : ℕ) × IsChild c all
            × Beneath t c (if w then r else best).1 (if w then r else best).0
      pick true best r p q = q
      pick false best r p q = p

      bounds :
          (best r found : ℕ × ℕ)
          → (if ltb best.1 r.1 then r else best).1 ≤ found.1
          → (best.1 ≤ found.1) × (r.1 ≤ found.1)
      bounds best r found h = elim (Bool-cases (ltb best.1 r.1)) [
        | inl e ↦ let h' : r.1 ≤ found.1 = rw e at h in ground (arith, e, h')
        | inr e ↦ let h' : best.1 ≤ found.1 = rw e at h in ground (arith, e, h')
      ]

  Beneath-cases :
      (n k m : ℕ) (x : TreeNode)
      → t n ≡ some x
      → Beneath t n k m
      → ((k ≡ 0) × (n ≡ m))
        ⊎ ((c : ℕ) × (j : ℕ) × (k ≡ suc j) × IsChild c x.children × Beneath t c j m)
  Beneath-cases n k m x at_n here = inl (refl, refl)
  Beneath-cases n k m x at_n (further {k = j} x' c at_n' child beneath) =
      let same = some-injective _ _ (sym at_n' ∙ at_n) in
      inr (c, j, refl, subst (λ z. IsChild c z.children) same child, beneath)

  pub Within-children :
      (depth n : ℕ) (x : TreeNode)
      → t n ≡ some x
      → ((c : ℕ) → IsChild c x.children → Within t depth c)
      → Within t (suc depth) n
  Within-children depth n x at_n below k m beneath = elim (Beneath-cases n k m x at_n beneath) [
    | inl (zero_k, same) ↦ (omega (arith, zero_k), (x, ap t (sym same) ∙ at_n))
    | inr (c, j, is_suc, child, below_c) ↦
        let w = below c child j m below_c in (omega (arith, is_suc, w.0), w.1)
  ]

  farthest-children :
      (fuel n : ℕ) (x : TreeNode) (children : List ℕ)
      → t n ≡ some x
      → x.children ≡ children
      → ((c : ℕ)
          → IsChild c children
          → (r : ℕ × ℕ) × (find_farthest_node t fuel c ≡ some r) × Deepest t c r)
      → (found : ℕ × ℕ) × (find_farthest_node t (suc fuel) n ≡ some found) × Deepest t n found
  unfolding find_farthest_node
  farthest-children fuel n x [] at_n e finds = (
    (n, 0),
    rw (find_farthest_node, at_n, e) refl,
    record {
      stands = here;
      deepest = λ k m beneath. elim (Beneath-cases n k m x at_n beneath) [
        | inl (zero_k, _) ↦ omega (arith, zero_k)
        | inr (c, j, _, child, _) ↦ absurd (subst (IsChild c) e child)
      ];
    },
  )
  farthest-children fuel n x (c ∷ cs) at_n e finds =
      let (first, found_first, d) = finds c (inl refl) in
      let (best, done, b) =
        farthest_of-Best (c ∷ cs) cs (find_farthest_node t fuel) first (λ c h. inr h)
          (λ c h. finds c (inr h)) (c, inl refl, d.stands) in
      let (top, child, beneath) = b.from in
      (
        (best.0, suc best.1),
        rw (find_farthest_node, at_n, e, found_first, done) refl,
        record {
          stands = further x top at_n (subst (IsChild top) (sym e) child) beneath;
          deepest = λ k m below. elim (Beneath-cases n k m x at_n below) [
            | inl (zero_k, _) ↦ omega (arith, zero_k)
            | inr (c', j, is_suc, child', below') ↦ elim (subst (IsChild c') e child') [
              | inl same ↦
                  let far = d.deepest j m (subst (λ z. Beneath t z j m) same below') in
                  let less = b.not_less in omega (arith, is_suc, far, less)
              | inr among ↦ let far = b.others c' among j m below' in omega (arith, is_suc, far)
            ]
          ];
        },
      )

-- `FindFarthestNode` returns a node below the one it is called on, with how far it is below, and no
-- node is farther below; the fuel is any bound on the depth.
pub find_farthest_node-Deepest :
    (t : Nodes) (fuel n : ℕ)
    → Within t fuel n
    → (found : ℕ × ℕ) × (find_farthest_node t fuel n ≡ some found) × Deepest t n found
find_farthest_node-Deepest t zero n within = absurd (omega (arith, (within 0 n here).0))
find_farthest_node-Deepest t (suc fuel) n within =
    let (x, at_n) = (within 0 n here).1 in
    let below : (c : ℕ) → IsChild c x.children → Within t fuel c = λ c child k m beneath.
      let w = within (suc k) m (further x c at_n child beneath) in (omega (arith, w.0), w.1) in
    farthest-children t fuel n x x.children at_n refl
      (λ c child. find_farthest_node-Deepest t fuel c (below c child))
