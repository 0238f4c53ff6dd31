-- ===== src/Script/Eval/Steps.antt =====
-- core/script.go: single rounds of `evalScript` on the opcodes of the usual output scripts.
use yoin.Base.{
  ℕ, suc, ◌+◌, ◌≤◌, ◌<◌, ◌≡◌, refl, Bool, true, [], ◌∷◌, ◌++◌, Option, none, some, ltb, ◌==◌,
  if◌then◌else◌, length, arith,
}
use yoin.Bytes.{Bytes, from?, bytes_equal}
use yoin.Crypto.{Crypto, rimp160_after_sha256}
use yoin.Key.{point, new_public_key, Signature, parsed, new_signature, verify}
use yoin.Tx.{Tx}
use yoin.Tx.Sighash.{signature_hash}
use yoin.Script.Stack.{Stack, next, finished, empties}
use yoin.Script.Opcode.{fetched, get_opcode}
use yoin.Script.Opcode.Bounds.{get_opcode-push}
use yoin.Script.Control.{State}
use yoin.Script.Shuffle.{shuffle_op}
use yoin.Script.Numeric.{numeric_op}
use yoin.Script.Hashing.{hash_op}
use yoin.Script.Signing.{check_sig, key_of, sig_of, verify_input}
use yoin.Script.Eval.{round, round_with, instruction}

-- A state with no conditional open, after `n` counted opcodes.
abbrev pub at : ℕ → Stack → State
at n s = record { stack = s; altstack = []; vf_exec = []; op_count = n; sta = 0 }

-- A direct push of fewer than 0x4c bytes.
abbrev pub push_script : Bytes → Bytes
push_script d = length d ∷ d

get_opcode-direct :
    (d tail : Bytes)
    → length d < 0x4c
    → get_opcode (length d ∷ (d ++ tail)) ≡ fetched (length d) (some d) (1 + length d)
get_opcode-direct d tail h =
    let e : ltb (length d) 0x4c ≡ true = ground arith in
    let push = get_opcode-push d tail (omega arith) in rw e at push

pub from_zero : (p : Bytes) → from? 0 p ≡ some p
unfolding from?
from_zero p = refl

pub from_one : (x : ℕ) (p : Bytes) → from? 1 (x ∷ p) ≡ some p
unfolding from?
from_one x p = refl

module _ (c : Crypto) (t : Tx) (inp : ℕ) (p : Bytes) where
  module _ (idx n : ℕ) (rest : Bytes) (st : State) (op : ℕ) (v : Option Bytes)
      (here : from? idx p ≡ some rest) (op_here : get_opcode rest ≡ fetched op v n) where
    round-next :
        (st' : State)
        → instruction c t inp p (idx + n) (empties st.vf_exec == 0) op v st ≡ next st'
        → round c t inp p idx st ≡ next (idx + n, st')
    unfolding round
    round-next st' h = rw (round_with, here, op_here, h)

    round-finished :
        (b : Bool) (s : Stack)
        → instruction c t inp p (idx + n) (empties st.vf_exec == 0) op v st ≡ finished b s
        → round c t inp p idx st ≡ finished b s
    unfolding round
    round-finished b s h = rw (round_with, here, op_here, h)

  check_sig_lem :
      (s : Stack) (key sig hash : Bytes) (x y : ℕ) (g : Signature)
      → new_public_key key ≡ point x y
      → new_signature sig ≡ parsed g
      → signature_hash c t p inp g.hash_type ≡ some hash
      → check_sig c t inp p 0 (key ∷ sig ∷ s) ≡ finished (verify c x y hash g) s
  unfolding check_sig
  check_sig_lem s key sig hash x y g k d h =
      let here = from_zero p in rw (key_of, k, sig_of, d, verify_input, here, h) (ground arith)

  pub round-push :
      (idx n : ℕ) (s : Stack) (d tail : Bytes)
      → from? idx p ≡ some (length d ∷ (d ++ tail))
      → length d < 0x4c
      → suc (length s) ≤ 1000
      → round c t inp p idx (at n s) ≡ next (idx + (1 + length d), at n (d ∷ s))
  unfolding instruction empties
  round-push idx n s d tail here short room =
      round-next idx (1 + length d) _ (at n s) (length d) (some d) here
        (get_opcode-direct d tail short) (at n (d ∷ s)) (ground arith)

  pub round-dup :
      (idx n : ℕ) (s : Stack) (d tail : Bytes)
      → from? idx p ≡ some (0x76 ∷ tail)
      → n ≤ 200
      → suc (suc (length s)) ≤ 1000
      → round c t inp p idx (at n (d ∷ s)) ≡ next (idx + 1, at (n + 1) (d ∷ d ∷ s))
  unfolding get_opcode shuffle_op instruction empties
  round-dup idx n s d tail here count room =
      round-next idx 1 _ (at n (d ∷ s)) 0x76 none here refl (at (n + 1) (d ∷ d ∷ s)) (ground arith)

  pub round-hash160 :
      (idx n : ℕ) (s : Stack) (d tail : Bytes)
      → from? idx p ≡ some (0xa9 ∷ tail)
      → n ≤ 200
      → suc (length s) ≤ 1000
      → round c t inp p idx (at n (d ∷ s))
        ≡ next (idx + 1, at (n + 1) (rimp160_after_sha256 c d ∷ s))
  unfolding get_opcode hash_op instruction empties
  round-hash160 idx n s d tail here count room =
      round-next idx 1 _ (at n (d ∷ s)) 0xa9 none here refl
        (at (n + 1) (rimp160_after_sha256 c d ∷ s)) (ground arith)

  pub round-equal :
      (idx n : ℕ) (s : Stack) (a b tail : Bytes)
      → from? idx p ≡ some (0x87 ∷ tail)
      → n ≤ 200
      → suc (length s) ≤ 1000
      → round c t inp p idx (at n (a ∷ b ∷ s))
        ≡ next (idx + 1, at (n + 1) ((if bytes_equal a b then 1 ∷ [] else 0 ∷ []) ∷ s))
  unfolding get_opcode numeric_op instruction empties
  round-equal idx n s a b tail here count room =
      round-next idx 1 _ (at n (a ∷ b ∷ s)) 0x87 none here refl _ (ground arith)

  pub round-equalverify :
      (idx n : ℕ) (s : Stack) (a b tail : Bytes)
      → from? idx p ≡ some (0x88 ∷ tail)
      → n ≤ 200
      → round c t inp p idx (at n (a ∷ b ∷ s)) ≡ finished (bytes_equal a b) s
  unfolding get_opcode numeric_op instruction empties
  round-equalverify idx n s a b tail here count =
      round-finished idx 1 _ (at n (a ∷ b ∷ s)) 0x88 none here refl (bytes_equal a b) s
        (ground arith)

  pub round-checksig :
      (idx n : ℕ) (s : Stack) (key sig hash tail : Bytes) (x y : ℕ) (g : Signature)
      → from? idx p ≡ some (0xac ∷ tail)
      → n ≤ 200
      → new_public_key key ≡ point x y
      → new_signature sig ≡ parsed g
      → signature_hash c t p inp g.hash_type ≡ some hash
      → round c t inp p idx (at n (key ∷ sig ∷ s)) ≡ finished (verify c x y hash g) s
  unfolding get_opcode instruction empties
  round-checksig idx n s key sig hash tail x y g here count k d h =
      round-finished idx 1 _ (at n (key ∷ sig ∷ s)) 0xac none here refl (verify c x y hash g) s
        (rw (check_sig_lem s key sig hash x y g k d h) (ground arith))
