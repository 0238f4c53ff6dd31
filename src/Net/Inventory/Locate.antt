-- ===== src/Net/Inventory/Locate.antt =====
-- `ProcessGetBlocks` as a whole.
use yoin.Base.{
  ℕ, zero, suc, ◌≤◌, ◌<◌, ◌≡◌, refl, ap, ◌⊎◌, false, List, [], ◌∷◌, Option, none, some, ltb, leb,
  length, Bool-cases, Option-cases, inl, inr, arith, All,
}
use mathlib.Core.Option.{some-injective}
use mathlib.Core.Path.{subst}
use yoin.Bytes.{Bytes, prefix?, from?}
use yoin.Bytes.Laws.{length-prefix?}
use yoin.VarLen.{read_var_len, Read, value, failed}
use yoin.Uint256.{b_idx}
use yoin.Chain.Tree.{Nodes}
use yoin.Chain.Tree.Farthest.{Within}
use yoin.Net.Inventory.{
  add_inv_block_branch, locate, read_hashes, locator_and_stop, after_count, parse_get_blocks,
  inv_payload, too_many, process_get_blocks,
}
use yoin.Net.Inventory.Branch.{
  Distinct, IsIn, Grows, HashBelow, add_inv_block_branch-Grows, stays, both, widen,
}
use yoin.Net.Inventory.Reply.{IsHash}

-- The hash of a block at or below the one that the index has for a hash of the locator.
pub record FromLocator (t : Nodes) (block_index : Bytes → Option ℕ) (hs : List Bytes) (h : Bytes)
    : Type 0 where
  pub located : Bytes
  pub asked : IsIn located hs
  pub idx : Bytes
  pub key : b_idx located ≡ some idx
  pub block : ℕ
  pub indexed : block_index idx ≡ some block
  pub below : HashBelow t block h

FromLocator-tail :
    (t : Nodes) (block_index : Bytes → Option ℕ) (x : Bytes) (hs : List Bytes) (h : Bytes)
    → FromLocator t block_index hs h
    → FromLocator t block_index (x ∷ hs) h
FromLocator-tail t block_index x hs h f = record {
  located = f.located;
  asked = inr f.asked;
  idx = f.idx;
  key = f.key;
  block = f.block;
  indexed = f.indexed;
  below = f.below;
}

b_idx-IsHash : (h : Bytes) → IsHash h → (idx : Bytes) × (b_idx h ≡ some idx)
unfolding b_idx prefix?
b_idx-IsHash (a ∷ b ∷ c ∷ d ∷ e ∷ f ∷ h) size = (a ∷ b ∷ c ∷ d ∷ e ∷ f ∷ [], refl)
b_idx-IsHash _ size = absurd (omega (arith, size))

module _ (t : Nodes) (block_index : Bytes → Option ℕ) (fuel : ℕ) (stop : Bytes)
    (indexed : (idx : Bytes) (bl : ℕ) → block_index idx ≡ some bl → Within t fuel bl) where
  one_located :
      (h : Bytes) (hs invs : List Bytes)
      → IsHash h
      → Distinct invs
      → length invs ≤ 500
      → (idx : Bytes) × (invs' : List Bytes) × (b_idx h ≡ some idx)
        × ((elim (block_index idx) [
          | none ↦ some invs
          | some bl ↦ add_inv_block_branch t stop fuel invs bl
        ])
            ≡ some invs')
        × Grows (FromLocator t block_index (h ∷ hs)) invs invs'
  one_located h hs invs size distinct bounded =
      let (idx, at) = b_idx-IsHash h size in
      elim (Option-cases (block_index idx)) [
        | inl e ↦ (
          idx,
          invs,
          at,
          rw e refl,
          stays (FromLocator t block_index (h ∷ hs)) invs distinct bounded,
        )
        | inr (bl, e) ↦
            let (invs', done, g) =
              add_inv_block_branch-Grows t stop fuel bl invs (indexed idx bl e) distinct bounded in
            (
              idx,
              invs',
              at,
              rw e done,
              widen (HashBelow t bl) (FromLocator t block_index (h ∷ hs)) invs invs'
                  (λ x below. record {
                    located = h;
                    asked = inl refl;
                    idx = idx;
                    key = at;
                    block = bl;
                    indexed = e;
                    below = below;
                  })
                  g,
            )
      ]

  pub locate-Grows :
      (hs invs : List Bytes)
      → All IsHash hs
      → Distinct invs
      → length invs ≤ 500
      → (invs' : List Bytes) × (locate t block_index fuel stop hs invs ≡ some invs')
        × Grows (FromLocator t block_index hs) invs invs'
  unfolding locate
  locate-Grows [] invs sizes distinct bounded =
      (invs, refl, stays (FromLocator t block_index []) invs distinct bounded)
  locate-Grows (h ∷ hs) invs sizes distinct bounded =
      let (idx, invs₁, at, first, g) = one_located h hs invs sizes.0 distinct bounded in
      elim (Bool-cases (leb 500 (length invs₁))) [
        | inl full ↦ (invs₁, rw (at, first, full) refl, g)
        | inr room ↦
            let (invs₂, others, k) = locate-Grows hs invs₁ sizes.1 g.distinct g.bounded in
            let later = FromLocator t block_index hs in
            let all = FromLocator t block_index (h ∷ hs) in
            let k' = widen later all invs₁ invs₂ (FromLocator-tail t block_index h hs) k in
            (invs₂, rw (at, first, room) others, both all invs invs₁ invs₂ g k')
      ]

read_hashes-IsHash :
    (n : ℕ) (b rest : Bytes) (hs : List Bytes) → read_hashes n b ≡ some (hs, rest) → All IsHash hs
unfolding read_hashes
read_hashes-IsHash zero b rest hs e = subst (All IsHash) (ap (λ r. r.0) (some-injective _ _ e)) tt
read_hashes-IsHash (suc n) b rest hs e = elim (Option-cases (prefix? 32 b)) [
  | inl p ↦ let e' = rw p at e in cc
  | inr (h, p) ↦ elim (Option-cases (from? 32 b)) [
    | inl f ↦ let e' = rw (p, f) at e in cc
    | inr (b₁, f) ↦ elim (Option-cases (read_hashes n b₁)) [
      | inl r ↦ let e' = rw (p, f, r) at e in cc
      | inr ((hs', rest'), r) ↦
          let e' = rw (p, f, r) at e in
          subst (All IsHash) (ap (λ r. r.0) (some-injective _ _ e'))
            (length-prefix? 32 b h p, read_hashes-IsHash n b₁ rest' hs' r)
    ]
  ]
]

locator-IsHash :
    (cnt : ℕ) (b stop : Bytes) (hs : List Bytes)
    → locator_and_stop cnt b ≡ some (hs, stop)
    → All IsHash hs
unfolding locator_and_stop
locator-IsHash cnt b stop hs e = elim (Option-cases (read_hashes cnt b)) [
  | inl r ↦ let e' = rw r at e in cc
  | inr ((hs', b₁), r) ↦ elim (Option-cases (prefix? 32 b₁)) [
    | inl p ↦ let e' = rw (r, p) at e in cc
    | inr (h, p) ↦
        let e' = rw (r, p) at e in
        subst (All IsHash) (ap (λ r. r.0) (some-injective _ _ e'))
          (read_hashes-IsHash cnt b b₁ hs' r)
  ]
]

after_count-IsHash :
    (r : Read) (stop : Bytes) (hs : List Bytes) → after_count r ≡ some (hs, stop) → All IsHash hs
unfolding after_count
after_count-IsHash (failed err) stop hs e = absurd cc
after_count-IsHash (value cnt b) stop hs e = locator-IsHash cnt b stop hs e

parse-IsHash :
    (pl stop : Bytes) (hs : List Bytes) → parse_get_blocks pl ≡ some (hs, stop) → All IsHash hs
unfolding parse_get_blocks
parse-IsHash pl stop hs e = elim (Option-cases (from? 4 pl)) [
  | inl f ↦ let e' = rw f at e in cc
  | inr (b, f) ↦ let e' = rw f at e in after_count-IsHash (read_var_len b) stop hs e'
]

-- What the reply to a request with this locator lists.
pub record Listed (t : Nodes) (block_index : Bytes → Option ℕ) (hs invs : List Bytes) : Type 0 where
  pub some_ : 0 < length invs
  pub bounded : length invs ≤ 500
  pub distinct : Distinct invs
  pub from_locator : (h : Bytes) → IsIn h invs → FromLocator t block_index hs h

-- `ProcessGetBlocks` returns for every payload whose count `make` takes. It sends nothing, or an
-- inventory of 1 to 500 hashes, all different, each that of a block at or below one that the index
-- has for a hash of the request's locator; the fuel is any bound on the depth below the blocks of
-- the index.
pub process_get_blocks-Listed :
    (max_len : ℕ) (t : Nodes) (block_index : Bytes → Option ℕ) (fuel : ℕ) (pl : Bytes)
    → ((idx : Bytes) (bl : ℕ) → block_index idx ≡ some bl → Within t fuel bl)
    → too_many max_len pl ≡ false
    → (process_get_blocks max_len t block_index fuel pl ≡ some none)
      ⊎ ((hs : List Bytes) × (stop : Bytes) × (invs : List Bytes) × (parse_get_blocks pl
            ≡ some (hs, stop))
          × (process_get_blocks max_len t block_index fuel pl ≡ some (some (inv_payload invs)))
          × Listed t block_index hs invs)
unfolding process_get_blocks
process_get_blocks-Listed max_len t block_index fuel pl indexed fits =
    elim (Option-cases (parse_get_blocks pl)) [
      | inl e ↦ inl (rw (fits, e) refl)
      | inr ((hs, stop), e) ↦
          let (invs, found, g) =
            locate-Grows t block_index fuel stop indexed hs [] (parse-IsHash pl stop hs e) tt
              (omega arith) in
          elim (Bool-cases (ltb 0 (length invs))) [
            | inl more ↦ inr (
              hs,
              stop,
              invs,
              e,
              rw (fits, e, found, more) refl,
              record {
                some_ = ground (arith, more);
                bounded = g.bounded;
                distinct = g.distinct;
                from_locator = λ h is. elim (g.origin h is) [
                  | inl none_yet ↦ absurd none_yet
                  | inr from ↦ from
                ];
              },
            )
            | inr nothing ↦ inl (rw (fits, e, found, nothing) refl)
          ]
    ]
