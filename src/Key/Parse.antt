-- ===== src/Key/Parse.antt =====
-- `NewSignature` against the bytes that the wallet writes (wallet/wallet.go, `make_signed_tx`).
use mathlib.Core.List.{cons-ne-nil}
use yoin.Base.{
  suc, ◌+◌, ◌≤◌, ◌≡◌, ◌≢◌, refl, false, [], ◌∷◌, ◌++◌, ltb, length, arith, length-append,
  le→ltb_false, ◌%◌,
}
use yoin.Bytes.{Bytes, be_value, from?, prefix?}
use yoin.Bytes.Laws.{prefix?-append, from?-append}
use yoin.Key.{SigError, parsed, read_byte, read_block, new_signature}

-- The buffer `busig` for the bytes `rb` and `sb` of the two numbers; `byte(n)` is n % 256.
unfoldable pub signature_bytes : Bytes → Bytes → Bytes
signature_bytes rb sb =
    0x30
    ∷ ((4 + length rb + length sb) % 256)
    ∷ 0x02
    ∷ (length rb % 256)
    ∷ (rb ++ 0x02 ∷ (length sb % 256) ∷ (sb ++ 0x01 ∷ []))

read_block-append :
    (e : SigError) (d rest : Bytes)
    → rest ≢ []
    → read_block e (length d) (d ++ rest) ≡ parsed (d, rest)
unfolding read_block
read_block-append e [] [] h = absurd (h refl)
read_block-append e [] (y ∷ ys) h = unfold prefix? from? in refl
read_block-append e (x ∷ d) rest h =
    let p = prefix?-append (length (x ∷ d)) (x ∷ d) rest refl in
    let f = from?-append (length (x ∷ d)) (x ∷ d) rest refl in rw (p, f, read_block)

-- `NewSignature` reads what the wallet writes: for two numbers whose bytes together are 2 or more
-- and at most 251, so that every length fits its byte, it returns their values and the hash type 1.
pub new_signature-signature_bytes :
    (rb sb : Bytes)
    → 2 ≤ length rb + length sb
    → length rb + length sb ≤ 251
    → new_signature (signature_bytes rb sb)
      ≡ parsed (record { r = be_value rb; s = be_value sb; hash_type = 1 })
unfolding new_signature signature_bytes read_byte
new_signature-signature_bytes rb sb lo hi =
    let er : length rb % 256 ≡ length rb = omega arith in
    let es : length sb % 256 ≡ length sb = omega arith in
    let et : (4 + length rb + length sb) % 256 ≡ 4 + length rb + length sb = omega arith in
    let tail = sb ++ 0x01 ∷ [] in
    let body = rb ++ 0x02 ∷ length sb ∷ tail in
    let nt : length tail ≡ length sb + 1 = length-append sb (1 ∷ []) in
    let nb : length body ≡ length rb + length sb + 3 =
      omega (arith, length-append rb (0x02 ∷ length sb ∷ tail), nt) in
    let t₁ : ltb (4 + length body) 9 ≡ false = le→ltb_false _ _ (omega arith) in
    let t₂ : ltb (2 + length body) (4 + length rb + length sb + 1) ≡ false =
      le→ltb_false _ _ (omega arith) in
    let e₁ : suc (suc (suc (suc (length body)))) ≡ 4 + length body = omega arith in
    let e₂ : suc (suc (length body)) ≡ 2 + length body = omega arith in
    rw (
      er,
      es,
      et,
      e₁,
      t₁,
      e₂,
      t₂,
      read_block-append SigError.step_5 rb (0x02 ∷ length sb ∷ tail) (cons-ne-nil _ _),
      read_block-append SigError.step_7 sb (0x01 ∷ []) (cons-ne-nil _ _),
    )
