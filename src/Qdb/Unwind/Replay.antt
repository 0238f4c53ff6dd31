-- ===== src/Qdb/Unwind/Replay.antt =====
-- Replaying the unwind data of a block.
use yoin.Base.{
  ℕ, zero, suc, ◌+◌, ◌≤◌, ◌<◌, ◌≡◌, refl, [], ◌∷◌, ◌++◌, none, some, length, length-append,
  append_assoc, arith,
}
use yoin.Chain.Commit.{TxMap}
use yoin.Qdb.Store.{Kv}
use yoin.Qdb.Spent.{write_spent, read_spent}
use yoin.Qdb.Spent.RoundTrip.{
  without_height, KeysFit, OutputsFit, without_heights, read-write_spent,
}
use yoin.Qdb.Outputs.{UnspentDb, add, del, add_all, del_all}
use yoin.Qdb.Unwind.{Replayed, write_added, write_deleted, unwind_from_reader}

module _ (kv : Kv) where
  replay-deleted :
      (m : TxMap) (fuel : ℕ) (unsp : UnspentDb kv)
      → KeysFit m
      → OutputsFit m
      → length m < fuel
      → unwind_from_reader kv fuel (write_deleted m) unsp
        ≡ Replayed.replayed (add_all kv unsp (without_heights m))
  unfolding write_deleted add_all without_heights unwind_from_reader add
  replay-deleted m zero unsp keys outs enough = absurd (omega (arith, enough))
  replay-deleted [] (suc fuel) unsp keys outs enough = unfold unwind_from_reader read_spent in refl
  replay-deleted ((po, to) ∷ m) (suc fuel) unsp keys outs enough =
      let e = read-write_spent po (some to) (write_deleted m) keys.0 outs.0 in
      rw (unwind_from_reader, e)
        (replay-deleted m fuel (add kv unsp po (without_height to)) keys.1 outs.1
          (omega (arith, enough)))

  pub replay-written :
      (a d : TxMap) (fuel : ℕ) (unsp : UnspentDb kv)
      → KeysFit a
      → KeysFit d
      → OutputsFit d
      → length a + length d < fuel
      → unwind_from_reader kv fuel (write_added a ++ write_deleted d) unsp
        ≡ Replayed.replayed (add_all kv (del_all kv unsp a) (without_heights d))
  unfolding write_added del_all unwind_from_reader del
  replay-written a d zero unsp keys keys' outs enough = absurd (omega (arith, enough))
  replay-written [] d (suc fuel) unsp keys keys' outs enough =
      replay-deleted d (suc fuel) unsp keys' outs (omega (arith, enough))
  replay-written ((po, to) ∷ a) d (suc fuel) unsp keys keys' outs enough =
      let e = read-write_spent po none (write_added a ++ write_deleted d) keys.0 tt in
      rw
        (
          append_assoc (write_spent po none) (write_added a) (write_deleted d),
          unwind_from_reader,
          e,
        )
        (replay-written a d fuel (del kv unsp po) keys.1 keys' outs (omega (arith, enough)))

-- Each record has at least one byte.
pub length-written : (a d : TxMap) → length a + length d ≤ length (write_added a ++ write_deleted d)
unfolding write_added write_deleted write_spent
length-written [] [] = omega arith
length-written [] ((po, to) ∷ d) =
    omega (arith, length-written [] d, length-append (write_spent po (some to)) (write_deleted d))
length-written ((po, to) ∷ a) d = omega (
  arith,
  length-written a d,
  length-append (write_spent po none) (write_added a),
  length-append (write_added a) (write_deleted d),
  length-append (write_spent po none ++ write_added a) (write_deleted d),
)
