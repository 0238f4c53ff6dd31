-- ===== src/Chain/Target/Compact.antt =====
-- The compact form of a target that is not negative and in normal form is what its value is written
-- as.
use native.Mathlib.Nat.{
  pow-suc, one-le-pow, mul-le-mul_right, mul-lt-mul_of_pos_right, mul-div_cancel, mul_assoc,
  mul_comm,
}
use yoin.Base.{
  ℕ, zero, suc, ◌+◌, ◌-◌, ◌*◌, ◌/◌, ◌%◌, ◌^◌, ◌≤◌, ◌<◌, ◌≡◌, refl, sym, ap, ◌∙◌, false, ltb, leb,
  ltb→lt, if◌then◌else◌, arith, inl, inr, Bool-cases,
}
use yoin.Chain.Target.{
  pos, compact_size, compact_value, set_compact, bytes_within, byte_len, or_bits, or_size,
  with_size, mantissa, get_compact,
}

bytes_within_zero : (f : ℕ) → bytes_within f 0 ≡ 0
unfolding bytes_within
bytes_within_zero zero = refl
bytes_within_zero (suc f) = refl

-- A number between two powers of 256 has as many bytes as the upper one says.
bytes_within_lem : (k n f : ℕ) → 256 ^ k ≤ n → n < 256 ^ suc k → n ≤ f → bytes_within f n ≡ suc k
unfolding bytes_within
bytes_within_lem k zero f lo hi le = absurd (omega (arith, one-le-pow k 256 (omega arith)))
bytes_within_lem k (suc n) zero lo hi le = absurd (omega arith)
bytes_within_lem zero (suc n) (suc f) lo hi le =
    let e : suc n / 256 ≡ 0 = omega arith in ap suc (rw e (bytes_within_zero f))
bytes_within_lem (suc k) (suc n) (suc f) lo hi le =
    let p = pow-suc 256 k in
    let p' = pow-suc 256 (suc k) in
    ap suc (bytes_within_lem k (suc n / 256) f (omega (arith, p)) (omega (arith, p')) (omega arith))

or_bits-zero : (k s : ℕ) → s < 2 ^ k → or_bits k 0 s ≡ s
unfolding or_bits
or_bits-zero zero s h = omega arith
or_bits-zero (suc k) s h =
    let ih = or_bits-zero k (s / 2) (omega (arith, pow-suc 2 k)) in rw ih (ground arith)

or_size_lem : (w s : ℕ) → w < 2 ^ 24 → s < 256 → or_size w s ≡ s * 2 ^ 24 + w
unfolding or_size
or_size_lem w s hw hs =
    let z : w / 2 ^ 24 ≡ 0 = omega arith in let o = or_bits-zero 8 s hs in rw (z, o) (omega arith)

-- The value of a compact number in normal form, its length, and its first three bytes.
module _ (w j : ℕ) (lo : 0x8000 ≤ w) (hi : w < 0x800000) where
  byte_len-long : 0x10000 ≤ w → byte_len (w * 256 ^ j) ≡ suc (suc (suc j))
  unfolding byte_len
  byte_len-long h =
      let p₁ = pow-suc 256 j in
      let p₂ = pow-suc 256 (suc j) in
      let p₃ = pow-suc 256 (suc (suc j)) in
      let one = one-le-pow j 256 (omega arith) in
      let a = mul-le-mul_right (256 ^ j) h in
      let b = mul-lt-mul_of_pos_right {k = 256 ^ j} hi (omega (arith, one)) in
      bytes_within_lem (suc (suc j)) (w * 256 ^ j) (w * 256 ^ j) (omega (arith, p₁, p₂, a))
        (omega (arith, p₁, p₂, p₃, b)) (omega arith)

  byte_len-short : w < 0x10000 → byte_len (w * 256 ^ j) ≡ suc (suc j)
  unfolding byte_len
  byte_len-short h =
      let p₁ = pow-suc 256 j in
      let p₂ = pow-suc 256 (suc j) in
      let one = one-le-pow j 256 (omega arith) in
      let a = mul-le-mul_right (256 ^ j) lo in
      let b = mul-lt-mul_of_pos_right {k = 256 ^ j} h (omega (arith, one)) in
      bytes_within_lem (suc j) (w * 256 ^ j) (w * 256 ^ j) (omega (arith, p₁, a))
        (omega (arith, p₁, p₂, b)) (omega arith)

mantissa-long : (w j : ℕ) → w < 2 ^ 24 → mantissa (w * 256 ^ j) (suc (suc (suc j))) ≡ w
unfolding mantissa
mantissa-long w zero h = omega arith
mantissa-long w (suc j) h =
    let q =
      mul-div_cancel w {n = 256 ^ suc j} (omega (arith, one-le-pow (suc j) 256 (omega arith))) in
    let l : leb (suc (suc (suc (suc j)))) 3 ≡ false = ground arith in
    let d : suc (suc (suc (suc j))) - 3 ≡ suc j = omega arith in rw (l, d, q) (omega arith)

mantissa-short : (w j : ℕ) → w < 2 ^ 16 → mantissa (w * 256 ^ j) (suc (suc j)) ≡ w * 256
unfolding mantissa
mantissa-short w zero h = omega arith
mantissa-short w (suc zero) h = omega arith
mantissa-short w (suc (suc j)) h =
    let one = one-le-pow (suc j) 256 (omega arith) in
    let p = pow-suc 256 (suc j) in
    let e : w * 256 ^ suc (suc j) ≡ w * 256 * 256 ^ suc j =
      ap (λ t. w * t) (p ∙ mul_comm (256 ^ suc j) 256) ∙ sym (mul_assoc w 256 (256 ^ suc j)) in
    let q = mul-div_cancel (w * 256) {n = 256 ^ suc j} (omega (arith, one)) in
    let l : leb (suc (suc (suc (suc j)))) 3 ≡ false = ground arith in
    let d : suc (suc (suc (suc j))) - 3 ≡ suc j = omega arith in rw (l, d, e, q) (omega arith)

set_compact_lem :
    (j w : ℕ) → w < 2 ^ 23 → set_compact (suc (suc (suc j)) * 2 ^ 24 + w) ≡ pos (w * 256 ^ j)
unfolding set_compact compact_value compact_size
set_compact_lem j w h =
    let sign : (suc (suc (suc j)) * 2 ^ 24 + w) / 2 ^ 23 % 2 ≡ 0 = omega arith in
    let size : (suc (suc (suc j)) * 2 ^ 24 + w) / 2 ^ 24 ≡ suc (suc (suc j)) = omega arith in
    let word : (suc (suc (suc j)) * 2 ^ 24 + w) % 2 ^ 23 ≡ w = omega arith in
    rw (sign, size, word) (ap pos (shifted j))
  where
    shifted :
        (i : ℕ)
        → (if leb (suc (suc (suc i))) 3
            then w / 256 ^ (3 - suc (suc (suc i)))
            else w * 256 ^ (suc (suc (suc i)) - 3))
          ≡ w * 256 ^ i
    shifted zero = omega arith
    shifted (suc i) =
        let l : leb (suc (suc (suc (suc i)))) 3 ≡ false = ground arith in
        let d : suc (suc (suc (suc i))) - 3 ≡ suc i = omega arith in rw (l, d) refl

with_size-long : (w s : ℕ) → w < 2 ^ 23 → s < 256 → with_size false w s ≡ s * 2 ^ 24 + w
unfolding with_size
with_size-long w s h hs =
    let sign : w / 2 ^ 23 % 2 ≡ 0 = omega arith in rw sign (or_size_lem w s (omega arith) hs)

with_size-short :
    (w s : ℕ) → 0x8000 ≤ w → w < 2 ^ 16 → s < 255 → with_size false (w * 256) s ≡ suc s * 2 ^ 24 + w
unfolding with_size
with_size-short w s lo hi hs =
    let sign : w * 256 / 2 ^ 23 % 2 ≡ 1 = omega arith in
    let word : w * 256 / 256 ≡ w = omega arith in
    let size : s + 1 ≡ suc s = omega arith in
    rw (sign, word, size) (or_size_lem w (suc s) (omega arith) (omega arith))

get_compact-pos :
    (j w : ℕ)
    → suc (suc (suc j)) < 256
    → 0x8000 ≤ w
    → w < 0x800000
    → get_compact (pos (w * 256 ^ j)) ≡ suc (suc (suc j)) * 2 ^ 24 + w
unfolding get_compact
get_compact-pos j w hs lo hi = elim (Bool-cases (ltb w 0x10000)) [
  | inl e ↦
      let h = ltb→lt w 0x10000 e in
      rw (byte_len-short w j lo hi h, mantissa-short w j h)
        (with_size-short w (suc (suc j)) lo h (omega arith))
  | inr e ↦
      let h : 0x10000 ≤ w = ground arith in
      rw (byte_len-long w j lo hi h, mantissa-long w j (omega arith))
        (with_size-long w (suc (suc (suc j))) hi hs)
]

-- Sizes below three, whose lowest bytes are not part of the value.
module _ (w : ℕ) (lo : 0x8000 ≤ w) (hi : w < 0x800000) where
  set_compact-one : set_compact (1 * 2 ^ 24 + w) ≡ pos (w / 65536)
  unfolding set_compact compact_value compact_size
  set_compact-one =
      let sign : (1 * 2 ^ 24 + w) / 2 ^ 23 % 2 ≡ 0 = omega arith in
      let size : (1 * 2 ^ 24 + w) / 2 ^ 24 ≡ 1 = omega arith in
      let word : (1 * 2 ^ 24 + w) % 2 ^ 23 ≡ w = omega arith in rw (sign, size, word) refl

  set_compact-two : set_compact (2 * 2 ^ 24 + w) ≡ pos (w / 256)
  unfolding set_compact compact_value compact_size
  set_compact-two =
      let sign : (2 * 2 ^ 24 + w) / 2 ^ 23 % 2 ≡ 0 = omega arith in
      let size : (2 * 2 ^ 24 + w) / 2 ^ 24 ≡ 2 = omega arith in
      let word : (2 * 2 ^ 24 + w) % 2 ^ 23 ≡ w = omega arith in rw (sign, size, word) refl

  byte_len-one : (n : ℕ) → 0 < n → n < 256 → byte_len n ≡ 1
  unfolding byte_len
  byte_len-one n some_ small = bytes_within_lem 0 n n (omega arith) (omega arith) (omega arith)

  byte_len-two : (n : ℕ) → 256 ≤ n → n < 65536 → byte_len n ≡ 2
  unfolding byte_len
  byte_len-two n big small = bytes_within_lem 1 n n (omega arith) (omega arith) (omega arith)

  get_compact-one : w % 65536 ≡ 0 → get_compact (pos (w / 65536)) ≡ 1 * 2 ^ 24 + w
  unfolding get_compact mantissa
  get_compact-one low =
      let m : w / 65536 * 65536 % 2 ^ 32 ≡ w = omega (arith, low) in
      rw (byte_len-one (w / 65536) (omega (arith, low)) (omega arith), m)
        (with_size-long w 1 hi (omega arith))

  get_compact-two : w % 256 ≡ 0 → get_compact (pos (w / 256)) ≡ 2 * 2 ^ 24 + w
  unfolding get_compact mantissa
  get_compact-two low = elim (Bool-cases (ltb w 0x10000)) [
    | inl e ↦
        let h = ltb→lt w 0x10000 e in
        let m : w / 256 * 65536 % 2 ^ 32 ≡ w * 256 = omega (arith, low, h) in
        rw (byte_len-one (w / 256) (omega (arith, low)) (omega (arith, h)), m)
          (with_size-short w 1 lo h (omega arith))
    | inr e ↦
        let h : 0x10000 ≤ w = ground (arith, e) in
        let m : w / 256 * 256 % 2 ^ 32 ≡ w = omega (arith, low) in
        rw (byte_len-two (w / 256) (omega (arith, h)) (omega arith), m)
          (with_size-long w 2 hi (omega arith))
  ]

-- The compact form of the value of a compact number comes back as the number when its size is from 1
-- to 255, its sign bit is clear, its mantissa is from 0x8000 to 0x7fffff, and the 3 - size lowest
-- bytes of the mantissa are zero (none of them when the size is at least 3).
pub get_compact-set_compact :
    (size w : ℕ)
    → 1 ≤ size
    → size < 256
    → 0x8000 ≤ w
    → w < 0x800000
    → w % 256 ^ (3 - size) ≡ 0
    → get_compact (set_compact (size * 2 ^ 24 + w)) ≡ size * 2 ^ 24 + w
get_compact-set_compact zero w hs hs' lo hi low = absurd (omega (arith, hs))
get_compact-set_compact (suc zero) w hs hs' lo hi low =
    rw (set_compact-one w lo hi) (get_compact-one w lo hi low)
get_compact-set_compact (suc (suc zero)) w hs hs' lo hi low =
    rw (set_compact-two w lo hi) (get_compact-two w lo hi low)
get_compact-set_compact (suc (suc (suc j))) w hs hs' lo hi low =
    rw (set_compact_lem j w hi) (get_compact-pos j w hs' lo hi)
