-- ===== src/Chain/Commit/Lost.antt =====
-- core/chain_accept.go: the sums and the errors of `commitTxs`.
use native.Mathlib.Nat.{div-le_self}
use yoin.Base.{
  ℕ, ◌+◌, ◌/◌, ◌%◌, ◌^◌, ◌≤◌, ◌<◌, ◌≡◌, ◌↔◌, ap, Bool, true, false, not, ◌&&◌, List, [], ◌∷◌,
  Option, none, ltb, if◌then◌else◌, arith, Bool-cases, inl, inr,
}
use yoin.Bytes.{Bytes}
use yoin.Tx.{TxPrevOut, TxOut, Tx}
use yoin.Tx.Check.Sound.{total}
use yoin.Chain.Commit.{
  verify_failed, more_spent_than_input, out_exceeds_in, BlockTx, Progress, CommitResult, committed,
  refused, BlockChangeEvent, CommitError, get_block_reward, commit_txs, commit_loop, out_sum,
  collect_outs, add_outputs, close, take_inputs, at_height, failed,
}

-- A `uint64` sum is the exact sum modulo 2^64.
pub out_sum_lem : (os : List TxOut) (s : ℕ) → out_sum os (s % 2 ^ 64) ≡ (s + total os) % 2 ^ 64
unfolding out_sum total
out_sum_lem [] s = ap (λ n. n % 2 ^ 64) (omega arith)
out_sum_lem (o ∷ os) s =
    let e : (s % 2 ^ 64 + o.value) % 2 ^ 64 ≡ (s + o.value) % 2 ^ 64 = omega arith in
    rw (e, out_sum_lem os (s + o.value)) (ap (λ n. n % 2 ^ 64) (omega arith))

-- Accepted, with whatever changes.
abbrev pub Accepted : CommitResult → Type 0
Accepted (committed ch) = Unit
Accepted (refused e) = ⊥

close-Accepted : (h a b : ℕ) (s : Progress) → Accepted (close h a b s) ↔ (b ≤ a)
close-Accepted h a b s = elim (Bool-cases (ltb a b)) [
  | inl e ↦ rw e ((λ x. absurd x), (λ le. absurd (ground arith)))
  | inr e ↦ rw e ((λ _. ground arith), (λ _. tt))
]

get_block_reward-lt : (h : ℕ) → get_block_reward h < 2 ^ 64
unfolding get_block_reward
get_block_reward-lt h = let d = div-le_self 5000000000 (2 ^ (h / 210000)) in omega (arith, d)

-- The errors that a caller can see.
abbrev pub IsReported : CommitError → Type 0
IsReported verify_failed = Unit
IsReported more_spent_than_input = Unit
IsReported out_exceeds_in = Unit
IsReported _ = ⊥

-- What a result may be.
data OnlyReported : CommitResult → Type 0 where
  accepts : {ch : BlockChangeEvent} → OnlyReported (committed ch)
  reports : {e : CommitError} → IsReported e → OnlyReported (refused e)

if_OnlyReported :
    (b : Bool) {x y : CommitResult}
    → OnlyReported x
    → OnlyReported y
    → OnlyReported (if b then x else y)
if_OnlyReported true p q = p
if_OnlyReported false p q = q

coin_base_fits :
    (height : ℕ) (outs : List TxOut) (s : Progress)
    → Accepted
        (close height ((get_block_reward height + 0) % 2 ^ 64) ((0 + out_sum outs 0) % 2 ^ 64) s)
      ↔ (total outs % 2 ^ 64 ≤ get_block_reward height)
coin_base_fits height outs s =
    let sum = out_sum_lem outs 0 in
    let small = get_block_reward-lt height in
    let iff =
      close-Accepted height ((get_block_reward height + 0) % 2 ^ 64) ((0 + out_sum outs 0) % 2 ^ 64)
        s in
    ((λ a. omega (arith, iff.0 a, sum)), (λ le. iff.1 (omega (arith, sum))))

module _ (pick : TxPrevOut → Option TxOut) (script_ok : Tx → ℕ → Bytes → Bool) (trusted : Bool)
    (height : ℕ) where
  -- A block with nothing but a coin base is accepted exactly if the sum of its output values
  -- modulo 2^64 is at most the reward for its height. The exact sum can be far above the reward.
  pub commit_txs-coin_base :
      (b : BlockTx)
      → Accepted (commit_txs pick script_ok trusted height (b ∷ []))
        ↔ (total b.tx.tx_outs % 2 ^ 64 ≤ get_block_reward height)
  unfolding commit_txs
  commit_txs-coin_base b = coin_base_fits height b.tx.tx_outs (
      add_outputs b.tx_hash 0 (at_height height b.tx.tx_outs) (record {
        deleted = [];
        added = [];
        unspent = collect_outs height (b ∷ []) [];
        txinsum = 0;
        scripts_ok = true;
        error = none;
      }))

  commit_loop-OnlyReported :
      (bs : List BlockTx) (i a b : ℕ) (s : Progress)
      → OnlyReported (commit_loop pick script_ok trusted height i bs a b s)
  unfolding commit_loop
  commit_loop-OnlyReported [] i a b s = if_OnlyReported (ltb a b) (reports tt) accepts
  commit_loop-OnlyReported (t ∷ bs) i a b s =
      let s₁ = take_inputs pick script_ok trusted height i t s in
      let s₂ = add_outputs t.tx_hash 0 (at_height height t.tx.tx_outs) s₁ in
      let txoutsum = out_sum t.tx.tx_outs 0 in
      let in' = (a + s₁.txinsum) % 2 ^ 64 in
      let out' = (b + txoutsum) % 2 ^ 64 in
      if_OnlyReported (not s₁.scripts_ok) (reports {e = verify_failed} tt) (
        if_OnlyReported (ltb 0 i && ltb s₁.txinsum txoutsum)
          (reports {e = more_spent_than_input} tt)
          (if_OnlyReported (failed s₁.error)
            (if_OnlyReported (ltb in' out') (reports {e = out_exceeds_in} tt) accepts)
            (commit_loop-OnlyReported bs (i + 1) in' out' s₂)))

  OnlyReported-IsReported : {e : CommitError} → OnlyReported (refused e) → IsReported e
  OnlyReported-IsReported (reports h) = h

  commit_txs-OnlyReported :
      (bs : List BlockTx) → OnlyReported (commit_txs pick script_ok trusted height bs)
  unfolding commit_txs
  commit_txs-OnlyReported bs = commit_loop-OnlyReported bs 0 (get_block_reward height) 0 _

  -- Whatever the block, an error is one of three: failed scripts, a transaction or a block that
  -- spends more than it takes in. That an input is unknown, out of range, spent already or spent
  -- twice in the block is found and never returned.
  pub commit_txs-IsReported :
      (bs : List BlockTx) (e : CommitError)
      → commit_txs pick script_ok trusted height bs ≡ refused e
      → IsReported e
  commit_txs-IsReported bs e h = OnlyReported-IsReported (rw h at (commit_txs-OnlyReported bs))
