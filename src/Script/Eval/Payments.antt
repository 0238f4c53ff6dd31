-- ===== src/Script/Eval/Payments.antt =====
-- What `VerifyTxScript` comes to for the three usual kinds of output.
use yoin.Base.{
  ℕ, ◌+◌, ◌<◌, ◌≡◌, refl, true, [], ◌∷◌, ◌++◌, some, if◌then◌else◌, length, length-append,
  append-nil, arith,
}
use yoin.Bytes.{Bytes, from?, bytes_equal}
use yoin.Bytes.Laws.{from?-field}
use yoin.Crypto.{Crypto, rimp160_after_sha256}
use yoin.Key.{point, new_public_key, Signature, parsed, new_signature, verify}
use yoin.Tx.{Tx}
use yoin.Tx.Sighash.{signature_hash}
use yoin.Script.Eval.{returned, eval_script, verify_tx_script}
use yoin.Script.Eval.Total.{reaches_end, goes_on, stops_here, eval_script-Runs}
use yoin.Script.Eval.Steps.{
  push_script, from_zero, from_one, round-push, round-dup, round-hash160, round-equal,
  round-equalverify, round-checksig,
}

-- A script that only pushes `d` leaves it on the stack.
eval_script-push :
    (c : Crypto) (t : Tx) (inp : ℕ) (d : Bytes)
    → length d < 0x4c
    → eval_script c t inp (push_script d) [] ≡ returned true (d ∷ [])
eval_script-push c t inp d h = eval_script-Runs (
    goes_on (omega arith)
      (round-push c t inp (push_script d) 0 0 [] d [] (rw append-nil (unfold from? in refl)) h
        (omega arith))
      (reaches_end (omega arith) refl))

-- A script that pushes `a` and then `b`.
eval_script-push_two :
    (c : Crypto) (t : Tx) (inp : ℕ) (a b : Bytes)
    → length a < 0x4c
    → length b < 0x4c
    → eval_script c t inp (push_script a ++ push_script b) [] ≡ returned true (b ∷ a ∷ [])
eval_script-push_two c t inp a b ha hb =
    let p = push_script a ++ push_script b in
    let size : length p ≡ 2 + length a + length b = omega (arith, length-append a (length b ∷ b)) in
    let start : from? 0 p ≡ some (length a ∷ (a ++ (length b ∷ b))) = unfold from? in refl in
    let second : from? (0 + (1 + length a)) p ≡ some (length b ∷ b) =
      from?-field 0 (1 + length a) p (push_script a) (push_script b) start (omega arith) in
    eval_script-Runs (
      goes_on (omega arith) (round-push c t inp p 0 0 [] a (length b ∷ b) start ha (omega arith)) (
        goes_on (omega arith)
          (round-push c t inp p (0 + (1 + length a)) 0 (a ∷ []) b [] (rw append-nil second) hb
            (omega arith))
          (reaches_end (omega arith) refl)))

-- `OutScript` of core/addr.go: OP_DUP OP_HASH160 <h> OP_EQUALVERIFY OP_CHECKSIG.
abbrev pub p2pkh : Bytes → Bytes
p2pkh h = 0x76 ∷ 0xa9 ∷ (push_script h ++ 0x88 ∷ 0xac ∷ [])

-- OP_HASH160 <h> OP_EQUAL.
abbrev pub p2sh : Bytes → Bytes
p2sh h = 0xa9 ∷ (push_script h ++ 0x87 ∷ [])

-- <key> OP_CHECKSIG.
abbrev pub p2pk : Bytes → Bytes
p2pk key = push_script key ++ 0xac ∷ []

eval_script-p2pkh :
    (c : Crypto) (t : Tx) (inp : ℕ) (sig key h : Bytes)
    → length h < 0x4c
    → eval_script c t inp (p2pkh h) (key ∷ sig ∷ [])
      ≡ returned (bytes_equal h (rimp160_after_sha256 c key)) (key ∷ sig ∷ [])
eval_script-p2pkh c t inp sig key h hh =
    let p = p2pkh h in
    let tail : Bytes = 0x88 ∷ 0xac ∷ [] in
    let size : length p ≡ 5 + length h = omega (arith, length-append h tail) in
    let at2 : from? 2 p ≡ some (length h ∷ (h ++ tail)) = unfold from? in refl in
    let verify_at : from? (2 + (1 + length h)) p ≡ some tail =
      from?-field 2 (1 + length h) p (push_script h) tail at2 (omega arith) in
    eval_script-Runs (
      goes_on (omega arith)
        (round-dup c t inp p 0 0 (sig ∷ []) key _ (from_zero p) (omega arith) (omega arith))
        (goes_on (omega arith)
          (round-hash160 c t inp p 1 1 (key ∷ sig ∷ []) key _ (from_one 0x76 _) (omega arith)
            (omega arith))
          (goes_on (omega arith) (round-push c t inp p 2 2 _ h tail at2 hh (omega arith)) (
            stops_here (omega arith) (
              round-equalverify c t inp p (2 + (1 + length h)) 2 (key ∷ sig ∷ []) h
                (rimp160_after_sha256 c key) (0xac ∷ []) verify_at (omega arith))))))

-- Spending a pay-to-public-key-hash output with a script that pushes a signature and a key, each
-- shorter than 76 bytes: the result is whether the key has the hash of the output. The signature is
-- never looked at, since OP_EQUALVERIFY returns from the interpreter.
pub verify_tx_script-p2pkh :
    (c : Crypto) (t : Tx) (inp : ℕ) (sig key h : Bytes)
    → length sig < 76
    → length key < 76
    → length h < 76
    → verify_tx_script c t inp (push_script sig ++ push_script key) (p2pkh h)
      ≡ returned (bytes_equal h (rimp160_after_sha256 c key)) (key ∷ sig ∷ [])
unfolding verify_tx_script
verify_tx_script-p2pkh c t inp sig key h hs hk hh =
    rw (verify_tx_script, eval_script-push_two c t inp sig key hs hk)
      (eval_script-p2pkh c t inp sig key h hh)

-- A pay-to-script-hash output is spent by any script that pushes one element shorter than 76 bytes,
-- whatever its hash: the result of OP_EQUAL is left on the stack and nobody looks at it.
pub verify_tx_script-p2sh :
    (c : Crypto) (t : Tx) (inp : ℕ) (d h : Bytes)
    → length d < 76
    → length h < 76
    → verify_tx_script c t inp (push_script d) (p2sh h)
      ≡ returned true ((if bytes_equal h (rimp160_after_sha256 c d) then 1 ∷ [] else 0 ∷ []) ∷ [])
unfolding verify_tx_script
verify_tx_script-p2sh c t inp d h hd hh =
    let p = p2sh h in
    let tail : Bytes = 0x87 ∷ [] in
    let size : length p ≡ 3 + length h = omega (arith, length-append h tail) in
    let at1 : from? 1 p ≡ some (length h ∷ (h ++ tail)) = unfold from? in refl in
    let equal_at : from? (1 + (1 + length h)) p ≡ some tail =
      from?-field 1 (1 + length h) p (push_script h) tail at1 (omega arith) in
    rw (verify_tx_script, eval_script-push c t inp d hd)
      (eval_script-Runs (
        goes_on (omega arith)
          (round-hash160 c t inp p 0 0 [] d _ (from_zero p) (omega arith) (omega arith))
          (goes_on (omega arith) (round-push c t inp p 1 1 _ h tail at1 hh (omega arith)) (
            goes_on (omega arith)
              (round-equal c t inp p (1 + (1 + length h)) 1 [] h (rimp160_after_sha256 c d) []
                equal_at (omega arith) (omega arith))
              (reaches_end (omega arith) refl)))))

-- A pay-to-public-key output is checked as it should be: for a key and a signature that parse, each
-- shorter than 76 bytes, the result is that of the signature check on the hash of the transaction
-- with the output's script.
pub verify_tx_script-p2pk :
    (c : Crypto) (t : Tx) (inp : ℕ) (sig key hash : Bytes) (x y : ℕ) (s : Signature)
    → length sig < 76
    → length key < 76
    → new_public_key key ≡ point x y
    → new_signature sig ≡ parsed s
    → signature_hash c t (p2pk key) inp s.hash_type ≡ some hash
    → verify_tx_script c t inp (push_script sig) (p2pk key) ≡ returned (verify c x y hash s) []
unfolding verify_tx_script
verify_tx_script-p2pk c t inp sig key hash x y s hs hk k d h =
    let p = p2pk key in
    let size : length p ≡ 2 + length key = omega (arith, length-append key (0xac ∷ [])) in
    let check_at : from? (0 + (1 + length key)) p ≡ some (0xac ∷ []) =
      from?-field 0 (1 + length key) p (push_script key) (0xac ∷ []) (from_zero p) (omega arith) in
    rw (verify_tx_script, eval_script-push c t inp sig hs)
      (eval_script-Runs (
        goes_on (omega arith)
          (round-push c t inp p 0 0 (sig ∷ []) key (0xac ∷ []) (from_zero p) hk (omega arith))
          (stops_here (omega arith) (
            round-checksig c t inp p (0 + (1 + length key)) 0 [] key sig hash [] x y s check_at
              (omega arith) k d h))))
