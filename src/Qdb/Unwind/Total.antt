-- ===== src/Qdb/Unwind/Total.antt =====
-- The loop that reads the unwind data comes to an end.
use yoin.Base.{
  ℕ, zero, suc, ◌+◌, ◌-◌, ◌%◌, ◌^◌, ◌≤◌, ◌<◌, ◌≡◌, ◌≢◌, refl, ap, inl, inr, Bool, true, false, ◌||◌,
  [], ◌∷◌, none, some, ltb, ◌==◌, if◌then◌else◌, arith, length, take, drop, Bool-cases,
  Option-cases,
}
use yoin.Bytes.{Bytes, from?, prefix?, le_value}
use yoin.Tx.{TxPrevOut}
use yoin.Qdb.Store.{Kv}
use yoin.Qdb.Spent.{SpentRead, no_record, record_read, unexpected_end, read_spent, read_deleted}
use yoin.Qdb.Outputs.{UnspentDb, add, del}
use yoin.Qdb.Unwind.{
  UnwindDb, UndoError, Replayed, replayed, replay_failed, Undone, undone, undo_failed,
  unwind_from_reader, step_back, undo,
}

length-drop : (n : ℕ) (b : Bytes) → length (drop n b) ≤ length b
length-drop zero b = omega arith
length-drop (suc n) [] = omega arith
length-drop (suc n) (x ∷ b) = omega (arith, length-drop n b)

-- What is left behind a record has at most this length.
abbrev AtMost : ℕ → SpentRead → Type 0
AtMost n no_record = Unit
AtMost n unexpected_end = Unit
AtMost n (record_read po to rest) = length rest ≤ n

read_deleted-AtMost : (po : TxPrevOut) (b : Bytes) → AtMost (length b) (read_deleted po b)
unfolding read_deleted
read_deleted-AtMost po b = elim (Bool-cases (ltb (length b) 12)) [
  | inl e ↦ rw (AtMost, read_deleted, e) tt
  | inr e ↦
      let n = le_value (take 4 (drop 8 b)) in
      rw (AtMost, read_deleted, e) (omega (arith, length-drop n (drop 12 b), length-drop 12 b))
]

if-AtMost :
    (c : Bool) (n : ℕ) (x y : SpentRead) → AtMost n x → AtMost n y → AtMost n (if c then x else y)
if-AtMost true n x y h h' = h
if-AtMost false n x y h h' = h'

weaken : (n m : ℕ) (x : SpentRead) → n ≤ m → AtMost n x → AtMost m x
weaken n m no_record le h = tt
weaken n m unexpected_end le h = tt
weaken n m (record_read po to rest) le h = omega (arith, le, h)

read_spent-nil : read_spent [] ≡ no_record
unfolding read_spent
read_spent-nil = refl

read_spent-AtMost : (tag : ℕ) (b : Bytes) → AtMost (length b) (read_spent (tag ∷ b))
unfolding read_spent
read_spent-AtMost tag b =
    let po : TxPrevOut = record {
      pre_out_tx_hash = take 32 b;
      out_idx_in_tx = le_value (take 4 (drop 32 b));
    } in
    let behind = drop 36 b in
    let deleted =
      weaken (length behind) (length b) (read_deleted po behind) (length-drop 36 b)
        (read_deleted-AtMost po behind) in
    let body =
      if-AtMost (tag == 0) (length b) (read_deleted po behind) (record_read po none behind) deleted
        (length-drop 36 b) in
    if-AtMost (ltb (length (tag ∷ b)) 37 || ltb 1 tag) (length b) no_record _ tt body

module _ (kv : Kv) where
  unwind_from_reader-total :
      (fuel : ℕ) (b : Bytes) (unsp : UnspentDb kv)
      → length b < fuel
      → unwind_from_reader kv fuel b unsp ≢ replay_failed UndoError.out_of_fuel
  unfolding unwind_from_reader
  unwind_from_reader-total zero b unsp enough = absurd (omega (arith, enough))
  unwind_from_reader-total (suc fuel) [] unsp enough =
      λ e. let e' = rw (unwind_from_reader, read_spent-nil) at e in cc
  unwind_from_reader-total (suc fuel) (tag ∷ b) unsp enough =
      go (read_spent (tag ∷ b)) (read_spent-AtMost tag b) (λ rest unsp' short.
        unwind_from_reader-total fuel rest unsp' (omega (arith, short, enough)))
    where
      go :
          (r : SpentRead)
          → AtMost (length b) r
          → ((rest : Bytes) (unsp' : UnspentDb kv)
              → length rest ≤ length b
              → unwind_from_reader kv fuel rest unsp' ≢ replay_failed UndoError.out_of_fuel)
          → (elim r [
            | no_record ↦ Replayed.replayed unsp
            | unexpected_end ↦ Replayed.replay_failed UndoError.unexpected_end_of_file
            | record_read po (some to) rest ↦ unwind_from_reader kv fuel rest (add kv unsp po to)
            | record_read po none rest ↦ unwind_from_reader kv fuel rest (del kv unsp po)
          ])
            ≢ replay_failed UndoError.out_of_fuel
      go no_record short next e = cc
      go unexpected_end short next e = cc
      go (record_read po (some to) rest) short next e = next rest (add kv unsp po to) short e
      go (record_read po none rest) short next e = next rest (del kv unsp po) short e

  step_back-total :
      (u : UnwindDb kv) (height : ℕ) (unsp : UnspentDb kv)
      → step_back kv u height unsp ≢ undo_failed UndoError.out_of_fuel
  unfolding step_back
  step_back-total u height unsp h =
      elim (Option-cases
        (kv.get (kv.del u.tdb height) ((u.last_block_height + (2 ^ 32 - 1)) % 2 ^ 32))) [
          | inl e ↦ let h' = rw (step_back, e) at h in cc
          | inr (v, e) ↦ elim (Option-cases (prefix? 32 v)) [
            | inl e' ↦ let h' = rw (step_back, e, e') at h in cc
            | inr (hash, e') ↦ let h' = rw (step_back, e, e') at h in cc
          ]
        ]

abbrev error_of : (kv : Kv) → Undone kv → UndoError
error_of kv (undone u unsp) = UndoError.out_of_fuel
error_of kv (undo_failed e) = e

-- Undoing a block always comes to an end, whatever the store holds: the loop over its unwind data
-- never takes more rounds than the data has bytes.
pub undo-total :
    (kv : Kv) (u : UnwindDb kv) (height : ℕ) (unsp : UnspentDb kv)
    → undo kv u height unsp ≢ undo_failed UndoError.out_of_fuel
unfolding undo
undo-total kv u height unsp h = elim (Bool-cases (height == u.last_block_height)) [
  | inr e ↦ let h' = rw (undo, e) at h in cc
  | inl e ↦ elim (Option-cases (kv.get u.tdb height)) [
    | inl e' ↦ let h' = rw (undo, e, e') at h in cc
    | inr (v, e') ↦ elim (Option-cases (from? 32 v)) [
      | inl e'' ↦ let h' = rw (undo, e, e', e'') at h in cc
      | inr (b, e'') ↦
          let h' = rw (undo, e, e', e'') at h in
          go (unwind_from_reader kv (suc (length b)) b unsp)
            (unwind_from_reader-total kv (suc (length b)) b unsp (omega arith)) h'
    ]
  ]
]
  where
    go :
        (r : Replayed kv)
        → r ≢ replay_failed UndoError.out_of_fuel
        → (elim r [ replay_failed e ↦ undo_failed e | replayed x ↦ step_back kv u height x ])
          ≢ undo_failed UndoError.out_of_fuel
    go (replayed x) other e = step_back-total kv u height x e
    go (replay_failed f) other e = other (ap replay_failed (ap (λ x. error_of kv x) e))
