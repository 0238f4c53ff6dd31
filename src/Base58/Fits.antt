-- ===== src/Base58/Fits.antt =====
-- The buffer of `Encodeb58` is large enough.
use native.Mathlib.Nat.{pow-suc, pow-zero, mul-le-mul, mul-le-mul_right, mul_assoc, mul_comm}
use mathlib.Core.Path.{subst}
use yoin.Base.{
  ℕ, zero, suc, ◌+◌, ◌*◌, ◌/◌, ◌%◌, ◌^◌, ◌≤◌, ◌<◌, ◌≡◌, refl, sym, ap, Bool, true, [], ◌∷◌, some,
  leb, ◌==◌, length, Bool-cases, inl, inr, arith, All,
}
use yoin.Bytes.{Bytes, IsByte, be_value, be_value_from}
use yoin.Base58.{encodeb58, decodeb58, decode_digits}
use yoin.Base58.RoundTrip.{
  all_below, all_below-lt, encode_digits_lem, encode_zeros_lem, leading_zeros, strip,
  big_bytes-be_value,
}

abbrev fits : ℕ → Bool
fits m = leb (256 ^ m) (58 ^ (m * 138 / 100 + 1))

all_fit : all_below fits 100 ≡ true
unfolding all_below
all_fit = refl

hundred : 256 ^ 100 ≤ 58 ^ 138
hundred = ground arith

pow-add : (n a b : ℕ) → n ^ (a + b) ≡ n ^ a * n ^ b
pow-add n a zero = let e : a + 0 ≡ a = omega arith in rw (e, pow-zero n) (omega arith)
pow-add n a (suc b) =
    let e : a + suc b ≡ suc (a + b) = omega arith in
    rw (e, pow-suc n (a + b), pow-add n a b, pow-suc n b) (mul_assoc (n ^ a) (n ^ b) n)

-- One byte takes no more than 1.38 digits.
room : (q r : ℕ) → r < 100 → 256 ^ (100 * q + r) ≤ 58 ^ ((100 * q + r) * 138 / 100 + 1)
room zero r small =
    let e : 100 * 0 + r ≡ r = omega arith in
    let h : leb (256 ^ r) (58 ^ (r * 138 / 100 + 1)) ≡ true =
      all_below-lt fits 100 r all_fit small in
    rw e (ground (arith, h))
room (suc q) r small =
    let n = 100 * q + r in
    let bytes : 100 * suc q + r ≡ 100 + n = omega arith in
    let digits : (100 * suc q + r) * 138 / 100 + 1 ≡ 138 + (n * 138 / 100 + 1) = omega arith in
    rw (digits, bytes, pow-add 256 100 n, pow-add 58 138 (n * 138 / 100 + 1))
      (mul-le-mul hundred (room q r small))

be_value_from-lt : (b : Bytes) (m : ℕ) → All IsByte b → be_value_from m b < suc m * 256 ^ length b
unfolding be_value_from
be_value_from-lt [] m bytes = omega arith
be_value_from-lt (x ∷ b) m bytes =
    let p = 256 ^ length b in
    let step : suc (m * 256 + x) * p ≤ suc m * 256 * p =
      mul-le-mul_right p (omega (arith, bytes.0)) in
    let more : suc m * 256 ^ suc (length b) ≡ suc m * 256 * p =
      rw (pow-suc 256 (length b), mul_comm p 256) (sym (mul_assoc (suc m) 256 p)) in
    omega (arith, be_value_from-lt b (m * 256 + x) bytes.1, step, more)

be_value-lt : (a : Bytes) → All IsByte a → be_value a < 256 ^ length (strip a)
unfolding be_value be_value_from strip
be_value-lt [] bytes = omega arith
be_value-lt (x ∷ a) bytes = elim (Bool-cases (x == 0)) [
  | inl e ↦
      let none_yet : 0 * 256 + x ≡ 0 = ground (arith, e) in rw (e, none_yet) (be_value-lt a bytes.1)
  | inr e ↦ let h = be_value_from-lt (x ∷ a) 0 bytes in rw e (omega (arith, h))
]

pub leading_zeros-strip : (a : Bytes) → leading_zeros a + length (strip a) ≡ length a
unfolding leading_zeros strip
leading_zeros-strip [] = omega arith
leading_zeros-strip (x ∷ a) = elim (Bool-cases (x == 0)) [
  | inl e ↦ rw e (omega (arith, leading_zeros-strip a))
  | inr e ↦ rw e (omega arith)
]

room_for : (n : ℕ) → 256 ^ n ≤ 58 ^ (n * 138 / 100 + 1)
room_for n =
    let e : 100 * (n / 100) + n % 100 ≡ n = omega arith in
    subst (λ k. 256 ^ k ≤ 58 ^ (k * 138 / 100 + 1)) e (room (n / 100) (n % 100) (omega arith))

-- Every byte string is encoded, without running out of the buffer, and decoding the text gives it
-- back but for the zero bytes in front.
pub decodeb58-encodeb58 :
    (a : Bytes)
    → All IsByte a
    → (s : Bytes) × (encodeb58 a ≡ some s) × (decodeb58 s ≡ some (strip a))
unfolding encodeb58 decodeb58 decode_digits
decodeb58-encodeb58 a bytes =
    let m = length (strip a) in
    let d = m * 138 / 100 + 1 in
    let size = leading_zeros-strip a in
    let value_fits : be_value a < 58 ^ d = omega (arith, be_value-lt a bytes, room_for m) in
    let (idx, digits, written, left, value) =
      encode_digits_lem d (length a * 138 / 100 + 1) (be_value a) [] value_fits
        (omega (arith, size)) in
    let (s, done, same) = encode_zeros_lem a idx digits (omega (arith, size, left)) in
    (s, rw (written, done) refl, rw (same, value) (ap some (big_bytes-be_value a bytes)))
