-- ===== src/Script/Signing.antt =====
-- core/script.go: OP_CHECKSIG and OP_CHECKMULTISIG. Both end the script with their result.
use yoin.Base.{ℕ, zero, suc, ◌+◌, Bool, true, false, [], ◌∷◌, none, some, ltb, if◌then◌else◌, drop}
use yoin.Bytes.{Bytes, from?}
use yoin.Crypto.{Crypto}
use yoin.Key.{
  point, unknown_format, key_panic, new_public_key, Signature, parsed, bad, new_signature, verify,
}
use yoin.Tx.{Tx}
use yoin.Tx.Sighash.{signature_hash}
use yoin.Script.Stack.{
  Stack, Flow, next, finished, panicked, failed, ◌>>=◌, ◌>>◌, need, pop, top_int,
}

unfoldable pub key_of : Bytes → Flow (ℕ × ℕ)
key_of d = elim (new_public_key d) [
  | point x y ↦ next (x, y)
  | unknown_format ↦ failed
  | key_panic ↦ panicked
]

unfoldable pub sig_of : Bytes → Flow Signature
sig_of d = elim (new_signature d) [ parsed s ↦ next s | bad e ↦ failed ]

-- `key.Verify(tx.SignatureHash(p[sta:], inp, sig.HashType), sig)`
unfoldable pub verify_input : Crypto → Tx → ℕ → Bytes → ℕ → (ℕ × ℕ) → Signature → Flow Bool
verify_input c t inp p sta key sig = elim (from? sta p) [
  | none ↦ panicked
  | some script ↦ elim (signature_hash c t script inp sig.hash_type) [
    | none ↦ panicked
    | some h ↦ next (verify c key.0 key.1 h sig)
  ]
]

unfoldable pub check_sig : Crypto → Tx → ℕ → Bytes → ℕ → Stack → Flow Stack
unfolding key_of sig_of verify_input
check_sig c t inp p sta s = do
  need 2 s
  (k, s₁) ← pop s
  key ← key_of k
  (d, s₂) ← pop s₁
  sig ← sig_of d
  result ← verify_input c t inp p sta key sig
  finished result s₂

-- The first of the elements from `top(-ikey)` or `top(-isig)` on.
abbrev first : Stack → Flow Bytes
first [] = panicked
first (d ∷ s) = next d

-- The `for nSigsCount > 0` loop. `keys` and `sigs` are the stack from `top(-ikey)` and `top(-isig)`
-- on, `rounds` is what has been taken from the `nKeysCount` of the start, which may go below 0.
unfoldable pub multisig_loop :
    (Bytes → Bytes → Flow Bool) → Stack → Stack → ℕ → ℕ → ℕ → Bool → Flow Bool
multisig_loop ok keys sigs zero n_keys rounds success = next success
multisig_loop ok [] sigs (suc n) n_keys rounds success = panicked
multisig_loop ok (k ∷ keys) sigs (suc n) n_keys rounds success =
    let passed =
      multisig_loop ok keys (drop 1 sigs) n n_keys (suc rounds)
        (if ltb n_keys (n + suc rounds) then false else success) in
    let refused =
      multisig_loop ok keys sigs (suc n) n_keys (suc rounds)
        (if ltb n_keys (suc n + suc rounds) then false else success) in
    do d ← first sigs; good ← ok k d; if good then passed else refused

unfoldable pub check_pair : Crypto → Tx → ℕ → Bytes → ℕ → Bytes → Bytes → Flow Bool
unfolding key_of sig_of verify_input
check_pair c t inp p sta k d = do key ← key_of k; sig ← sig_of d; verify_input c t inp p sta key sig

-- `op_count` is `nOpCount` before the keys are added.
unfoldable pub check_multisig : Crypto → Tx → ℕ → Bytes → ℕ → ℕ → Stack → Flow Stack
unfolding multisig_loop check_pair
check_multisig c t inp p sta op_count s = do
  need 1 s
  n_keys ← top_int 1 s
  if ltb 20 n_keys then failed else next tt
  if ltb 201 (op_count + n_keys) then failed else next tt
  need (2 + n_keys) s
  n_sigs ← top_int (2 + n_keys) s
  if ltb n_keys n_sigs then failed else next tt
  need (3 + n_keys + n_sigs) s
  success ←
      multisig_loop (check_pair c t inp p sta) (drop 1 s) (drop (2 + n_keys) s) n_sigs n_keys 0 true
  finished success (drop (3 + n_keys + n_sigs) s)
