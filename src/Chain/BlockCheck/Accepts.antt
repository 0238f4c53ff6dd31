-- ===== src/Chain/BlockCheck/Accepts.antt =====
-- What `CheckBlock` accepts on the main network.
use mathlib.Core.Path.{subst}
use yoin.Base.{
  ℕ, ◌+◌, ◌≤◌, ◌≡◌, ◌↔◌, ◌⊎◌, refl, sym, ap, ◌∙◌, Bool, true, false, ◌||◌, List, [], ◌∷◌, Option,
  none, some, ◌>>=◌, ltb, ◌==◌, ==_iff, ==_refl, le→ltb_false, if◌then◌else◌, length, take, arith,
  Bool-cases, Option-cases, inl, inr,
}
use yoin.Bytes.{Bytes, bytes_equal}
use yoin.Bytes.Laws.{bytes_equal_iff, bytes_equal_refl}
use yoin.Crypto.{Crypto}
use yoin.Chain.Target.{BlockTreeNode, get_next_work_required}
use yoin.Chain.Block.{Block, decode_tx_list_from_raw}
use yoin.Chain.Merkle.{get_merkel}
use yoin.Chain.Target.Required.{Required, Required-iff}
use yoin.Chain.BlockCheck.Transactions.{TxsPass, TestsPass-TxsPass, TxsPass-TestsPass}
use yoin.Chain.BlockCheck.{
  BlockError, Checked, passed, genesis, refused, check_panic, hashes_of, first_is_coin_base,
  any_coin_base, tail_of, check_all, check_txs, check_decoded, check_work, check_block,
}

data Passes (P : Block → Type 0) : Checked → Type 0 where
  passes : {b : Block} → P b → Passes P (passed b)
  writes_genesis : {n : BlockTreeNode} → Passes P (genesis n)
  refuses : {e : BlockError} {d m : Bool} → Passes P (refused e d m)
  panics : Passes P check_panic

Passes-passed : {P : Block → Type 0} {b : Block} → Passes P (passed b) → P b
Passes-passed (passes p) = p

module _ (c : Crypto) (slow_mode : Bool) where
  check_txs-Passes :
      (b : Block) → Passes (λ b'. (b ≡ b') × TxsPass c slow_mode b') (check_txs c slow_mode b)
  unfolding check_txs
  check_txs-Passes b = elim (Bool-cases (first_is_coin_base b.txs)) [
    | inr e ↦ rw (e, check_txs) refuses
    | inl first ↦ elim (Bool-cases (any_coin_base (tail_of b.txs))) [
      | inl e ↦ rw (first, e, check_txs) refuses
      | inr other ↦ elim (Option-cases (hashes_of b.txs >>= get_merkel c)) [
        | inl e ↦ rw (first, other, e, check_txs) panics
        | inr (root, found) ↦ elim (Bool-cases (bytes_equal root b.merkle_root)) [
          | inr e ↦ rw (first, other, found, e, check_txs) refuses
          | inl same ↦ elim (Option-cases (check_all slow_mode b.txs)) [
            | inr (x, e) ↦ rw (first, other, found, same, e, check_txs) refuses
            | inl ok ↦
                rw (first, other, found, same, ok, check_txs)
                  (passes (
                    refl,
                    TestsPass-TxsPass c slow_mode b (record {
                      coin_base_first = first;
                      no_other = other;
                      root_matches = found ∙ ap some ((bytes_equal_iff root b.merkle_root).0 same);
                      all_accepted = ok;
                    }),
                  ))
          ]
        ]
      ]
    ]
  ]

weaken : {P Q : Block → Type 0} {x : Checked} → ((b : Block) → P b → Q b) → Passes P x → Passes Q x
weaken f (passes {b} p) = passes (f b p)
weaken f writes_genesis = writes_genesis
weaken f refuses = refuses
weaken f panics = panics

-- The transactions of the block, and that they pass unless the block is trusted.
abbrev pub Decoded : Crypto → Bool → Block → Block → Type 0
Decoded c slow_mode b b' =
    (decode_tx_list_from_raw c b ≡ some b') × ((b'.trusted ≡ true) ⊎ TxsPass c slow_mode b')

module _ (c : Crypto) (slow_mode : Bool) where
  trusted-Passes :
      (b d : Block) (t : Bool)
      → decode_tx_list_from_raw c b ≡ some d
      → d.trusted ≡ t
      → Passes (Decoded c slow_mode b) (if t then passed d else check_txs c slow_mode d)
  trusted-Passes b d true e h = passes (e, inl h)
  trusted-Passes b d false e h =
      weaken (λ b' (same, p). (e ∙ ap some same, inr p)) (check_txs-Passes c slow_mode d)

  check_decoded-Passes : (b : Block) → Passes (Decoded c slow_mode b) (check_decoded c slow_mode b)
  unfolding check_decoded
  check_decoded-Passes b = elim (Option-cases (decode_tx_list_from_raw c b)) [
    | inl e ↦ rw (e, check_decoded) panics
    | inr (d, e) ↦
        let p = trusted-Passes b d d.trusted e refl in
        subst
          (λ x. Passes (Decoded c slow_mode b) (elim x [
            | none ↦ check_panic
            | some b' ↦ if b'.trusted then passed b' else check_txs c slow_mode b'
          ]))
          (sym e) p
  ]

-- What lets a block through.
pub record Accepts (c : Crypto) (slow_mode : Bool) (now : ℕ)
    (index : Bytes → Option (BlockTreeNode × List BlockTreeNode)) (b b' : Block) : Type 0 where
  pub long_enough : 81 ≤ length b.raw
  pub short_enough : length b.raw ≤ 1000000
  pub in_time : b.create_time ≤ now + 7200
  pub unknown : index (take 6 b.hash) ≡ none
  pub parent : BlockTreeNode
  pub ancestors : List BlockTreeNode
  pub parent_known : index (take 6 b.pre_block_hash) ≡ some (parent, ancestors)
  pub target_required : Required parent ancestors b.difficulty_target
  pub decoded : Decoded c slow_mode b b'

module _ (c : Crypto) (slow_mode : Bool) (now : ℕ)
    (index : Bytes → Option (BlockTreeNode × List BlockTreeNode)) where
  check_work-Passes :
      (prev : BlockTreeNode) (ancestors : List BlockTreeNode) (b : Block)
      → Passes
          (λ b'.
            (get_next_work_required false prev ancestors b.create_time ≡ some b.difficulty_target)
            × Decoded c slow_mode b b')
          (check_work c false slow_mode now index prev ancestors b)
  unfolding check_work
  check_work-Passes prev ancestors b =
      elim (Option-cases (get_next_work_required false prev ancestors b.create_time)) [
        | inl e ↦ rw (e, check_work) panics
        | inr (gnwr, e) ↦ elim (Bool-cases (b.difficulty_target == gnwr)) [
          | inr ne ↦ rw (e, ne, check_work) refuses
          | inl eq ↦
              let same = (==_iff b.difficulty_target gnwr).0 eq in
              rw (e, eq, check_work)
                (weaken (λ b' d. (ap some (sym same), d)) (check_decoded-Passes c slow_mode b))
        ]
      ]

  check_block-Passes :
      (b : Block)
      → Passes (Accepts c slow_mode now index b) (check_block c false slow_mode now index b)
  unfolding check_block
  check_block-Passes b = elim (Bool-cases (ltb (length b.raw) 81 || ltb 1000000 (length b.raw))) [
    | inl e ↦ rw (e, check_block) refuses
    | inr size ↦ elim (Bool-cases (ltb (now + 7200) b.create_time)) [
      | inl e ↦ rw (size, e, check_block) refuses
      | inr time ↦ elim (Option-cases (index (take 6 b.hash))) [
        | inr ((node, []), e) ↦ rw (size, time, e, check_block) writes_genesis
        | inr ((node, p ∷ ps), e) ↦ rw (size, time, e, check_block) refuses
        | inl new ↦ elim (Option-cases (index (take 6 b.pre_block_hash))) [
          | inl e ↦ rw (size, time, new, e, check_block) refuses
          | inr ((prev, ancestors), known) ↦
              rw (size, time, new, known, check_block)
                (weaken
                  (λ b' (target, d). record {
                    long_enough = ground (arith, size);
                    short_enough = ground (arith, size);
                    in_time = ground (arith, time);
                    unknown = new;
                    parent = prev;
                    ancestors = ancestors;
                    parent_known = known;
                    target_required =
                        (Required-iff prev ancestors b.create_time b.difficulty_target).0 target;
                    decoded = d;
                  })
                  (check_work-Passes prev ancestors b))
        ]
      ]
    ]
  ]

if_passed :
    (t : Bool) {x : Checked} {b : Block}
    → (t ≡ true) ⊎ (x ≡ passed b)
    → (if t then passed b else x) ≡ passed b
if_passed true h = refl
if_passed false (inl h) = cc
if_passed false (inr h) = h

-- The other way round, stage by stage.
module _ (c : Crypto) (slow_mode : Bool) where
  TxsPass-check_txs : (b : Block) → TxsPass c slow_mode b → check_txs c slow_mode b ≡ passed b
  unfolding check_txs
  TxsPass-check_txs b pass =
      let p = TxsPass-TestsPass c slow_mode b pass in
      rw
        (
          p.coin_base_first,
          check_txs,
          p.no_other,
          p.root_matches,
          bytes_equal_refl b.merkle_root,
          p.all_accepted,
        )
        refl

  Decoded-check_decoded :
      (b b' : Block) → Decoded c slow_mode b b' → check_decoded c slow_mode b ≡ passed b'
  unfolding check_decoded
  Decoded-check_decoded b b' (e, inl t) = rw (e, check_decoded) (if_passed b'.trusted (inl t))
  Decoded-check_decoded b b' (e, inr p) =
      rw (e, check_decoded) (if_passed b'.trusted (inr (TxsPass-check_txs b' p)))

module _ (c : Crypto) (slow_mode : Bool) (now : ℕ)
    (index : Bytes → Option (BlockTreeNode × List BlockTreeNode)) (b b' : Block) where
  Accepts-check_block :
      Accepts c slow_mode now index b b' → check_block c false slow_mode now index b ≡ passed b'
  unfolding check_block check_work
  Accepts-check_block a =
      let size : (ltb (length b.raw) 81 || ltb 1000000 (length b.raw)) ≡ false =
        ground (arith, a.long_enough, a.short_enough) in
      let time : ltb (now + 7200) b.create_time ≡ false = le→ltb_false _ _ a.in_time in
      rw
        (
          size,
          check_block,
          time,
          a.unknown,
          a.parent_known,
          check_work,
          (Required-iff a.parent a.ancestors b.create_time b.difficulty_target).1 a.target_required,
          ==_refl b.difficulty_target,
        )
        (Decoded-check_decoded c slow_mode b b' a.decoded)

  -- On the main network `CheckBlock` accepts exactly a block that has 81 to 1000000 bytes and a time
  -- at most two hours ahead, is not in the tree, has a parent there and the target that the parent
  -- requires (the limit behind the root, the parent's inside an interval of 2016 blocks, the scaled
  -- one at its end), and whose transactions are decoded and, unless the block is trusted, begin with
  -- the only coin base, have hashes whose Merkle root is the one in the header, and are accepted by
  -- `CheckTransaction` one by one.
  pub check_block_iff :
      (check_block c false slow_mode now index b ≡ passed b') ↔ Accepts c slow_mode now index b b'
  check_block_iff = (
    (λ h. Passes-passed (rw h at (check_block-Passes c slow_mode now index b))),
    Accepts-check_block,
  )
