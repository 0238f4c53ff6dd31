-- ===== src/Base58/RoundTrip.antt =====
-- Decoding what was encoded.
use native.Mathlib.Nat.{pow-suc}
use yoin.Base.{
  ℕ, zero, suc, ◌+◌, ◌-◌, ◌*◌, ◌/◌, ◌%◌, ◌^◌, ◌≤◌, ◌<◌, ◌≡◌, refl, sym, ap, ◌∙◌, Bool, true, false,
  ◌&&◌, [], ◌∷◌, ◌++◌, none, some, ◌==◌, if◌then◌else◌, length, Bool-cases, Option-cases,
  append-nil, inl, inr, ==_iff, arith, All,
}
use yoin.Bytes.{Bytes, IsByte, be_value, be_value_from}
use yoin.Base58.{b58chr2int, b58chr, encode_digits, encode_zeros, big_bytes, decode_digits}

-- A test of all numbers below n.
unfoldable pub all_below : (ℕ → Bool) → ℕ → Bool
all_below p zero = true
all_below p (suc n) = p n && all_below p n

pub all_below-lt : (p : ℕ → Bool) (n m : ℕ) → all_below p n ≡ true → m < n → p m ≡ true
unfolding all_below
all_below-lt p zero m h lt = absurd (omega (arith, lt))
all_below-lt p (suc n) m h lt = elim (Bool-cases (m == n)) [
  | inl e ↦ let here : p n ≡ true = both (p n) (all_below p n) h in ap p ((==_iff m n).0 e) ∙ here
  | inr e ↦ all_below-lt p n m (other (p n) (all_below p n) h) (ground (arith, e, lt))
]
  where
    both : (a b : Bool) → (a && b) ≡ true → a ≡ true
    both true b h = refl
    both false b h = h

    other : (a b : Bool) → (a && b) ≡ true → b ≡ true
    other true b h = h
    other false b h = absurd cc

abbrev reads_back : ℕ → Bool
reads_back d = elim (b58chr2int (b58chr d)) [ none ↦ false | some v ↦ v == d ]

all_read_back : all_below reads_back 58 ≡ true
unfolding all_below b58chr2int b58chr
all_read_back = refl

b58chr2int-b58chr : (d : ℕ) → d < 58 → b58chr2int (b58chr d) ≡ some d
b58chr2int-b58chr d lt =
    let h = all_below-lt reads_back 58 d all_read_back lt in
    elim (Option-cases (b58chr2int (b58chr d))) [
      | inl e ↦ let h' : false ≡ true = rw (reads_back, e) at h in absurd cc
      | inr (v, e) ↦
          let h' : (v == d) ≡ true = rw (reads_back, e) at h in e ∙ ap some ((==_iff v d).0 h')
    ]

-- A buffer with room for d digits takes a number below 58 ^ d, and the text stands for it.
pub encode_digits_lem :
    (d idx n : ℕ) (s : Bytes)
    → n < 58 ^ d
    → d ≤ idx
    → (idx' : ℕ) × (s' : Bytes) × (encode_digits idx n s ≡ some (idx', s'))
      × (idx ≤ idx' + d)
      × (decode_digits s' 0 ≡ decode_digits s n)
unfolding encode_digits decode_digits
encode_digits_lem zero zero n s lt room =
    let none_left : n ≡ 0 = omega (arith, lt) in
    (0, s, rw none_left refl, omega arith, ap (decode_digits s) (sym none_left))
encode_digits_lem zero (suc idx) n s lt room =
    let none_left : n ≡ 0 = omega (arith, lt) in
    (suc idx, s, rw none_left refl, omega arith, ap (decode_digits s) (sym none_left))
encode_digits_lem (suc d) zero n s lt room = absurd (omega (arith, room))
encode_digits_lem (suc d) (suc idx) n s lt room = elim (Bool-cases (n == 0)) [
  | inl e ↦ (
    suc idx,
    s,
    rw (encode_digits, e) refl,
    omega arith,
    ap (decode_digits s) (sym ((==_iff n 0).0 e)),
  )
  | inr e ↦
      let digit = b58chr2int-b58chr (n % 58) (omega arith) in
      let smaller : n / 58 < 58 ^ d = omega (arith, lt, pow-suc 58 d) in
      let (idx', s', done, left, value) =
        encode_digits_lem d idx (n / 58) (b58chr (n % 58) ∷ s) smaller (omega (arith, room)) in
      let joined : n / 58 * 58 + n % 58 ≡ n = omega arith in
      (idx', s', rw (encode_digits, e) done, omega (arith, left), value ∙ rw (digit, joined) refl)
]

-- Zero bytes in front of a byte string.
unfoldable pub leading_zeros : Bytes → ℕ
leading_zeros [] = 0
leading_zeros (x ∷ a) = let r = leading_zeros a in if x == 0 then suc r else 0

unfoldable pub strip : Bytes → Bytes
strip [] = []
strip (x ∷ a) = let r = strip a in if x == 0 then r else x ∷ a

decode_digits-b58chr :
    (d n : ℕ) (s : Bytes) → d < 58 → decode_digits (b58chr d ∷ s) n ≡ decode_digits s (n * 58 + d)
unfolding decode_digits
decode_digits-b58chr d n s lt = rw (b58chr2int-b58chr d lt) refl

encode_zeros-zero :
    (x idx : ℕ) (a s : Bytes)
    → (x == 0) ≡ true
    → encode_zeros (x ∷ a) (suc idx) s ≡ encode_zeros a idx (b58chr 0 ∷ s)
unfolding encode_zeros
encode_zeros-zero x idx a s e = rw (encode_zeros, e) refl

pub encode_zeros_lem :
    (a : Bytes) (idx : ℕ) (s : Bytes)
    → leading_zeros a ≤ idx
    → (s' : Bytes) × (encode_zeros a idx s ≡ some s') × (decode_digits s' 0 ≡ decode_digits s 0)
unfolding encode_zeros leading_zeros decode_digits
encode_zeros_lem [] idx s room = (s, refl, refl)
encode_zeros_lem (x ∷ a) zero s room = elim (Bool-cases (x == 0)) [
  | inl e ↦ let r : suc (leading_zeros a) ≤ 0 = rw e at room in absurd (omega (arith, r))
  | inr e ↦ (s, rw (encode_zeros, e) refl, refl)
]
encode_zeros_lem (x ∷ a) (suc idx) s room = elim (Bool-cases (x == 0)) [
  | inl e ↦
      let r : suc (leading_zeros a) ≤ suc idx = rw e at room in
      let (s', done, value) = encode_zeros_lem a idx (b58chr 0 ∷ s) (omega (arith, r)) in
      (s', encode_zeros-zero x idx a s e ∙ done, value ∙ decode_digits-b58chr 0 0 s (omega arith))
  | inr e ↦ (s, rw (encode_zeros, e) refl, refl)
]

-- The bytes of a number, on top of those in front of it.
big_bytes-be_value_from :
    (b : Bytes) (f m : ℕ) (acc : Bytes)
    → All IsByte b
    → 0 < m
    → big_bytes (f + length b) (be_value_from m b) acc ≡ big_bytes f m (b ++ acc)
unfolding be_value_from big_bytes
big_bytes-be_value_from [] f m acc bytes pos = ap (λ n. big_bytes n m acc) (omega arith)
big_bytes-be_value_from (x ∷ b) f m acc bytes pos =
    let fuel : f + length (x ∷ b) ≡ suc f + length b = omega arith in
    let more : 0 < m * 256 + x = omega (arith, pos) in
    let not_zero : ((m * 256 + x) == 0) ≡ false = ground (arith, more) in
    let high : (m * 256 + x) / 256 ≡ m = omega (arith, bytes.0) in
    let low : (m * 256 + x) % 256 ≡ x = omega (arith, bytes.0) in
    ap (λ n. big_bytes n (be_value_from (m * 256 + x) b) acc) fuel
    ∙ (big_bytes-be_value_from b (suc f) (m * 256 + x) acc bytes.1 more
        ∙ rw (big_bytes, not_zero, high, low) refl)

be_value_from-grows : (b : Bytes) (m : ℕ) → 0 < m → m + length b ≤ be_value_from m b
unfolding be_value_from
be_value_from-grows [] m pos = omega arith
be_value_from-grows (x ∷ b) m pos =
    omega (arith, be_value_from-grows b (m * 256 + x) (omega (arith, pos)), pos)

big_bytes-zero : (f : ℕ) (acc : Bytes) → big_bytes f 0 acc ≡ acc
unfolding big_bytes
big_bytes-zero zero acc = refl
big_bytes-zero (suc f) acc = refl

big_bytes-last : (g x : ℕ) (acc : Bytes) → x < 256 → 0 < x → big_bytes (suc g) x acc ≡ x ∷ acc
unfolding big_bytes
big_bytes-last g x acc small pos =
    let not_zero : (x == 0) ≡ false = ground (arith, pos) in
    let high : x / 256 ≡ 0 = omega (arith, small) in
    let low : x % 256 ≡ x = omega (arith, small) in
    rw (not_zero, high, low) (big_bytes-zero g (x ∷ acc))

big_bytes-from :
    (x : ℕ) (a : Bytes)
    → All IsByte (x ∷ a)
    → 0 < x
    → big_bytes (be_value_from (0 * 256 + x) a) (be_value_from (0 * 256 + x) a) [] ≡ x ∷ a
big_bytes-from x a bytes pos =
    let same : 0 * 256 + x ≡ x = omega arith in
    let v = be_value_from x a in
    let grows = be_value_from-grows a x pos in
    let fuel : v ≡ suc (v - length a - 1) + length a = omega (arith, grows, pos) in
    ap (λ m. big_bytes (be_value_from m a) (be_value_from m a) []) same
    ∙ (ap (λ n. big_bytes n v []) fuel
        ∙ (big_bytes-be_value_from a (suc (v - length a - 1)) x [] bytes.1 pos
            ∙ (big_bytes-last (v - length a - 1) x (a ++ []) bytes.0 pos
                ∙ ap (λ l. x ∷ l) (append-nil a))))

pub big_bytes-be_value :
    (a : Bytes) → All IsByte a → big_bytes (be_value a) (be_value a) [] ≡ strip a
unfolding be_value be_value_from strip
big_bytes-be_value [] bytes = unfold big_bytes in refl
big_bytes-be_value (x ∷ a) bytes = elim (Bool-cases (x == 0)) [
  | inl e ↦
      let none_yet : 0 * 256 + x ≡ 0 = ground (arith, e) in
      rw (e, none_yet) (big_bytes-be_value a bytes.1)
  | inr e ↦ rw e (big_bytes-from x a bytes (ground (arith, e)))
]
