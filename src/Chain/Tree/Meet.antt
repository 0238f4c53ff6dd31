-- ===== src/Chain/Tree/Meet.antt =====
-- Where `MoveToBlock` turns round.
use mathlib.Core.Path.{subst}
use yoin.Base.{
  ℕ, zero, suc, ◌+◌, ◌≤◌, ◌<◌, ◌≡◌, refl, sym, ap, ◌∙◌, inl, inr, true, false, List, [], ◌∷◌, some,
  ltb, ◌==◌, if◌then◌else◌, Bool-cases, Option-cases, ==_iff, arith,
}
use yoin.Chain.Tree.{TreeNode, Nodes, climb, undo_to, reach_common}
use yoin.Chain.Tree.Ancestors.{
  WellFormed, Ancestor, itself, above, strictly_below, above-parent, same_level, Ancestor-trans,
  between,
}

-- The heights from `top` down to `low + 1`.
unfoldable pub heights_down : ℕ → ℕ → List ℕ
heights_down zero low = []
heights_down (suc top) low = if ltb low (suc top) then suc top ∷ heights_down top low else []

module _ (t : Nodes) (root : ℕ) (well : WellFormed t root) where
  -- The ancestor at a given height.
  climb-reaches :
      (fuel h n : ℕ) (x : TreeNode)
      → t n ≡ some x
      → h ≤ x.height
      → x.height < fuel + h
      → (a : ℕ) × (y : TreeNode) × (climb t fuel h n ≡ some a)
        × (t a ≡ some y)
        × (y.height ≡ h)
        × Ancestor t a n
  unfolding climb
  climb-reaches zero h n x here le enough = absurd (omega (arith, le, enough))
  climb-reaches (suc fuel) h n x here le enough = elim (Bool-cases (ltb h x.height)) [
    | inr e ↦ (n, x, rw (here, e) refl, here, ground (arith, e, le), itself)
    | inl e ↦ elim (Option-cases x.parent) [
      | inl gone ↦ let r = well.root_only n x here gone in absurd (ground (arith, e, r.1))
      | inr (p, up) ↦
          let (z, there, higher) = well.parent_there n p x here up in
          let (a, y, done, found, level, anc) =
            climb-reaches fuel h p z there (ground (arith, e, higher))
              (omega (arith, higher, enough)) in
          (a, y, rw (here, e, up) done, found, level, above x here up anc)
    ]
  ]

  -- What two nodes at one height have in common.
  record Meeting (a b top c : ℕ) (l : List ℕ) : Type 0 where
    node : TreeNode
    here : t c ≡ some node
    not_higher : node.height ≤ top
    undone : l ≡ heights_down top node.height
    over_end : Ancestor t c a
    over_cur : Ancestor t c b
    lowest : (d : ℕ) → Ancestor t d a → Ancestor t d b → Ancestor t d c

  heights_down-none : (h : ℕ) → heights_down h h ≡ []
  unfolding heights_down
  heights_down-none zero = refl
  heights_down-none (suc h) = ground arith

  one_more :
      (top top' low : ℕ)
      → top ≡ suc top'
      → low ≤ top'
      → top ∷ heights_down top' low ≡ heights_down top low
  unfolding heights_down
  one_more top top' low e h =
      let inside : ltb low (suc top') ≡ true = ground (arith, h) in rw (e, inside) refl

  has_parent :
      (a b : ℕ) (x y : TreeNode)
      → t a ≡ some x
      → t b ≡ some y
      → x.height ≡ y.height
      → (a == b) ≡ false
      → (p : ℕ) × (x.parent ≡ some p)
  has_parent a b x y at_a at_b level apart = elim (Option-cases x.parent) [
    | inr found ↦ found
    | inl gone ↦
        let r = well.root_only a x at_a gone in
        elim (Option-cases y.parent) [
          | inl gone' ↦
              let r' = well.root_only b y at_b gone' in
              let eq : a ≡ b = r.0 ∙ sym r'.0 in absurd (ground (arith, apart, eq))
          | inr (q, up) ↦
              let (w, _, higher) = well.parent_there b q y at_b up in
              absurd (omega (arith, r.1, level, higher))
        ]
  ]

  Meeting-above :
      (a b p q c : ℕ) (l : List ℕ) (x y : TreeNode) (top : ℕ)
      → (a == b) ≡ false
      → t a ≡ some x
      → t b ≡ some y
      → x.height ≡ y.height
      → x.parent ≡ some p
      → y.parent ≡ some q
      → x.height ≡ suc top
      → Meeting p q top c l
      → Meeting a b x.height c (x.height ∷ l)
  Meeting-above a b p q c l x y top e at_a at_b level up up' higher m = record {
    node = m.node;
    here = m.here;
    not_higher = let low = m.not_higher in omega (arith, low, higher);
    undone =
        ap (λ l. x.height ∷ l) m.undone ∙ one_more x.height top m.node.height higher m.not_higher;
    over_end = above x at_a up m.over_end;
    over_cur = above y at_b up' m.over_cur;
    lowest = λ d anc anc'. elim (above-parent t root well d a p x anc at_a up) [
      | inl same ↦
          let level' : x.height ≡ y.height = level in
          let at_d : t d ≡ some x = ap t same ∙ at_a in
          let eq : a ≡ b = sym same ∙ same_level t root well d b x y anc' at_d at_b level' in
          absurd (ground (arith, e, eq))
      | inr anc_p ↦ elim (above-parent t root well d b q y anc' at_b up') [
        | inl same ↦
            let at_d : t d ≡ some y = ap t same ∙ at_b in
            let eq : b ≡ a = sym same ∙ same_level t root well d a y x anc at_d at_a (sym level) in
            absurd (ground (arith, e, eq))
        | inr anc_q ↦ m.lowest d anc_p anc_q
      ]
    ];
  }

  undo_to-step :
      (fuel a b p q c : ℕ) (l : List ℕ) (x y : TreeNode)
      → (a == b) ≡ false
      → t a ≡ some x
      → t b ≡ some y
      → x.parent ≡ some p
      → y.parent ≡ some q
      → undo_to t fuel p q ≡ some (c, l)
      → undo_to t (suc fuel) a b ≡ some (c, x.height ∷ l)
  unfolding undo_to
  undo_to-step fuel a b p q c l x y apart at_a at_b up up' done =
      rw (undo_to, apart, at_a, at_b, up, up', done) refl

  undo_to-meets :
      (fuel a b : ℕ) (x y : TreeNode)
      → t a ≡ some x
      → t b ≡ some y
      → x.height ≡ y.height
      → x.height < fuel
      → (c : ℕ) × (l : List ℕ) × (undo_to t fuel a b ≡ some (c, l)) × Meeting a b x.height c l
  unfolding undo_to heights_down
  undo_to-meets zero a b x y at_a at_b level enough = absurd (omega (arith, enough))
  undo_to-meets (suc fuel) a b x y at_a at_b level enough = elim (Bool-cases (a == b)) [
    | inl e ↦
        let same : a ≡ b = (==_iff a b).0 e in
        (
          a,
          [],
          rw (undo_to, e) refl,
          record {
            node = x;
            here = at_a;
            not_higher = omega arith;
            undone = sym (heights_down-none x.height);
            over_end = itself;
            over_cur = subst (λ m. Ancestor t a m) same itself;
            lowest = λ d anc _. anc;
          },
        )
    | inr e ↦
        let (p, up) = has_parent a b x y at_a at_b level e in
        let (q, up') = has_parent b a y x at_b at_a (sym level) (ground (arith, e)) in
        let (z, at_p, higher) = well.parent_there a p x at_a up in
        let (w, at_q, higher') = well.parent_there b q y at_b up' in
        let (c, l, done, m) =
          undo_to-meets fuel p q z w at_p at_q (omega (arith, level, higher, higher'))
            (omega (arith, higher, enough)) in
        (
          c,
          x.height ∷ l,
          undo_to-step fuel a b p q c l x y e at_a at_b up up' done,
          Meeting-above a b p q c l x y z.height e at_a at_b level up up' higher m,
        )
  ]

-- From the end of the chain `MoveToBlock` comes to the lowest node that the end and the destination,
-- not below the end, have above them, and undoes on the way the blocks of the heights from the end's
-- down to the one above that node's.
pub reach_common-Meeting :
    (t : Nodes) (root : ℕ) (fuel tree_end dst : ℕ) (x y : TreeNode)
    → WellFormed t root
    → t tree_end ≡ some x
    → t dst ≡ some y
    → x.height ≤ y.height
    → y.height < fuel
    → (c : ℕ) × (z : TreeNode) × (t c ≡ some z)
      × (reach_common t fuel tree_end dst ≡ some (c, heights_down x.height z.height))
      × Ancestor t c tree_end
      × Ancestor t c dst
      × ((d : ℕ) → Ancestor t d tree_end → Ancestor t d dst → Ancestor t d c)
unfolding reach_common
reach_common-Meeting t root fuel tree_end dst x y well at_end at_dst le enough =
    let (cur, w, climbed, at_cur, level, over) =
      climb-reaches t root well fuel x.height dst y at_dst le (omega (arith, enough)) in
    let (c, l, done, m) =
      undo_to-meets t root well fuel tree_end cur x w at_end at_cur (sym level)
        (omega (arith, le, enough)) in
    (
      c,
      m.node,
      m.here,
      rw (at_end, climbed, done, m.undone) refl,
      m.over_end,
      Ancestor-trans t root well c cur dst m.over_cur over,
      λ d anc anc'. m.lowest d anc (elim (strictly_below t root well d tree_end x anc at_end) [
        | inl same ↦
            between t root well d cur dst x w (ap t same ∙ at_end) at_cur (omega (arith, level))
              over anc'
        | inr (x', at_d, lower) ↦
            between t root well d cur dst x' w at_d at_cur (omega (arith, level, lower)) over anc'
      ]),
    )
