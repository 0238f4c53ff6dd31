-- ===== src/Net/Inventory/Branch.antt =====
-- What `addInvBlockBranch` collects.
use mathlib.Core.Path.{subst}
use yoin.Base.{
  ℕ, zero, suc, ◌≤◌, ◌<◌, ◌≡◌, refl, sym, ◌⊎◌, inl, inr, false, List, [], ◌∷◌, Option, some, leb,
  length, Bool-cases, arith,
}
use yoin.Bytes.{Bytes, bytes_equal}
use yoin.Bytes.Laws.{bytes_equal_iff}
use yoin.Chain.Tree.{TreeNode, Nodes}
use yoin.Chain.Tree.Farthest.{IsChild, Beneath, here, further, Within}
use yoin.Net.Inventory.{contains, insert, each_child, add_inv_block_branch}

abbrev pub IsIn : Bytes → List Bytes → Type 0
IsIn h [] = ⊥
IsIn h (x ∷ inv) = (h ≡ x) ⊎ IsIn h inv

abbrev pub Distinct : List Bytes → Type 0
Distinct [] = Unit
Distinct (x ∷ inv) = (IsIn x inv → ⊥) × Distinct inv

contains-IsIn : (h : Bytes) (inv : List Bytes) → contains h inv ≡ false → IsIn h inv → ⊥
unfolding contains
contains-IsIn h [] absent is = elim is [ ]
contains-IsIn h (x ∷ inv) absent is = elim (Bool-cases (bytes_equal h x)) [
  | inl e ↦ let absent' = rw e at absent in cc
  | inr e ↦
      let absent' : contains h inv ≡ false = rw e at absent in
      elim is [
        | inl same ↦ let yes = (bytes_equal_iff h x).1 same in cc
        | inr there ↦ contains-IsIn h inv absent' there
      ]
]

-- What a step adds: hashes of the blocks that `From` holds of.
pub record Grows (From : Bytes → Type 0) (inv inv' : List Bytes) : Type 0 where
  pub distinct : Distinct inv'
  pub bounded : length inv' ≤ 500
  pub keeps : (h : Bytes) → IsIn h inv → IsIn h inv'
  pub origin : (h : Bytes) → IsIn h inv' → IsIn h inv ⊎ From h

pub stays :
    (From : Bytes → Type 0) (inv : List Bytes)
    → Distinct inv
    → length inv ≤ 500
    → Grows From inv inv
stays From inv distinct bounded = record {
  distinct = distinct;
  bounded = bounded;
  keeps = λ h is. is;
  origin = λ h is. inl is;
}

insert-Grows :
    (From : Bytes → Type 0) (x : Bytes) (inv : List Bytes)
    → Distinct inv
    → length inv < 500
    → From x
    → Grows From inv (insert x inv)
unfolding insert
insert-Grows From x inv distinct bounded from = elim (Bool-cases (contains x inv)) [
  | inl e ↦ rw e (stays From inv distinct (omega (arith, bounded)))
  | inr e ↦ rw e (record {
    distinct = (contains-IsIn x inv e, distinct);
    bounded = bounded;
    keeps = λ h is. inr is;
    origin =
        λ h is. elim is [ inl same ↦ inr (subst From (sym same) from) | inr there ↦ inl there ];
  })
]

pub both :
    (From : Bytes → Type 0) (inv inv₁ inv₂ : List Bytes)
    → Grows From inv inv₁
    → Grows From inv₁ inv₂
    → Grows From inv inv₂
both From inv inv₁ inv₂ g h = record {
  distinct = h.distinct;
  bounded = h.bounded;
  keeps = λ x is. h.keeps x (g.keeps x is);
  origin = λ x is. elim (h.origin x is) [ inl there ↦ g.origin x there | inr from ↦ inr from ];
}

pub widen :
    (From Wide : Bytes → Type 0) (inv inv' : List Bytes)
    → ((h : Bytes) → From h → Wide h)
    → Grows From inv inv'
    → Grows Wide inv inv'
widen From Wide inv inv' wider g = record {
  distinct = g.distinct;
  bounded = g.bounded;
  keeps = g.keeps;
  origin = λ h is. elim (g.origin h is) [ inl there ↦ inl there | inr from ↦ inr (wider h from) ];
}

each_child-Grows :
    (From : Bytes → Type 0) (add : List Bytes → ℕ → Option (List Bytes)) (cs : List ℕ)
    (inv : List Bytes)
    → ((c : ℕ) (inv : List Bytes)
        → IsChild c cs
        → Distinct inv
        → length inv ≤ 500
        → (inv' : List Bytes) × (add inv c ≡ some inv') × Grows From inv inv')
    → Distinct inv
    → length inv ≤ 500
    → (inv' : List Bytes) × (each_child add cs inv ≡ some inv') × Grows From inv inv'
unfolding each_child
each_child-Grows From add [] inv adds distinct bounded =
    (inv, refl, stays From inv distinct bounded)
each_child-Grows From add (c ∷ cs) inv adds distinct bounded =
    elim (Bool-cases (leb 500 (length inv))) [
      | inl full ↦ (inv, rw full refl, stays From inv distinct bounded)
      | inr room ↦
          let (inv₁, first, g) = adds c inv (inl refl) distinct bounded in
          let (inv₂, others, h) =
            each_child-Grows From add cs inv₁ (λ c inv is. adds c inv (inr is)) g.distinct
              g.bounded in
          (inv₂, rw (room, first, others) refl, both From inv inv₁ inv₂ g h)
    ]

-- The hash of a block at or below `bl`.
pub record HashBelow (t : Nodes) (bl : ℕ) (h : Bytes) : Type 0 where
  pub depth : ℕ
  pub block : ℕ
  pub node : TreeNode
  pub beneath : Beneath t bl depth block
  pub there : t block ≡ some node
  pub hash : node.block_hash ≡ h

-- `addInvBlockBranch` ends, keeps what was collected, adds only hashes of blocks at or below the one
-- it starts at, none of them twice, and never goes beyond 500; the fuel is any bound on the depth.
pub add_inv_block_branch-Grows :
    (t : Nodes) (stop : Bytes) (fuel bl : ℕ) (inv : List Bytes)
    → Within t fuel bl
    → Distinct inv
    → length inv ≤ 500
    → (inv' : List Bytes) × (add_inv_block_branch t stop fuel inv bl ≡ some inv')
      × Grows (HashBelow t bl) inv inv'
unfolding add_inv_block_branch
add_inv_block_branch-Grows t stop zero bl inv within distinct bounded =
    absurd (omega (arith, (within 0 bl here).0))
add_inv_block_branch-Grows t stop (suc fuel) bl inv within distinct bounded =
    let (x, at) = (within 0 bl here).1 in
    let within_child : (c : ℕ) → IsChild c x.children → Within t fuel c = λ c child k m beneath.
      let w = within (suc k) m (further x c at child beneath) in (omega (arith, w.0), w.1) in
    let itself : HashBelow t bl x.block_hash = record {
      depth = 0;
      block = bl;
      node = x;
      beneath = here;
      there = at;
      hash = refl;
    } in
    elim (Bool-cases (leb 500 (length inv))) [
      | inl full ↦ (inv, rw (at, full) refl, stays (HashBelow t bl) inv distinct bounded)
      | inr room ↦ elim (Bool-cases (bytes_equal x.block_hash stop)) [
        | inl stops ↦ (inv, rw (at, room, stops) refl, stays (HashBelow t bl) inv distinct bounded)
        | inr on ↦
            let g =
              insert-Grows (HashBelow t bl) x.block_hash inv distinct (ground (arith, room))
                itself in
            let (inv', done, h) =
              each_child-Grows (HashBelow t bl) (add_inv_block_branch t stop fuel) x.children
                (insert x.block_hash inv)
                (λ c inv child distinct bounded.
                  let (inv', found, grows) =
                    add_inv_block_branch-Grows t stop fuel c inv (within_child c child) distinct
                      bounded in
                  (
                    inv',
                    found,
                    widen (HashBelow t c) (HashBelow t bl) inv inv' (from_child x at c child) grows,
                  ))
                g.distinct g.bounded in
            (
              inv',
              rw (at, room, on) done,
              both (HashBelow t bl) inv (insert x.block_hash inv) inv' g h,
            )
      ]
    ]
  where
    from_child :
        (x : TreeNode)
        → t bl ≡ some x
        → (c : ℕ) → IsChild c x.children
        → (h : Bytes) → HashBelow t c h
        → HashBelow t bl h
    from_child x at c child h b = record {
      depth = suc b.depth;
      block = b.block;
      node = b.node;
      beneath = further x c at child b.beneath;
      there = b.there;
      hash = b.hash;
    }
