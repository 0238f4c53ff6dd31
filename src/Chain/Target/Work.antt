-- ===== src/Chain/Target/Work.antt =====
-- What a proof of work shows, and how far one retarget goes.
use native.Mathlib.Nat.{mul-le-mul_left, mul_left_comm, mul_assoc, pow-suc, mul-div_cancel}
use native.Mathlib.Decide.{dec_lt}
use yoin.Base.{
  ℕ, ◌∙◌, zero, suc, ap, ◌-◌, ◌%◌, leb, if◌then◌else◌, false, ◌+◌, ◌*◌, ◌/◌, ◌^◌, ◌≤◌, ◌<◌, ◌≡◌,
  ◌↔◌, ◌⊎◌, sym, none, ltb, ltb→lt, arith, inl, inr, Bool-cases,
}
use yoin.Bytes.{Bytes, le_value}
use yoin.Chain.Target.{
  pos, negate, compact_size, compact_value, set_compact, check_proof_of_work,
  bn_proof_of_work_limit, n_target_timespan, actual_timespan, scale,
}

-- The mantissa times a power of 256, and rounded down where its exponent is negative.
abbrev pub target_of : ℕ → ℕ → ℕ
target_of size word = word * 256 ^ size / 256 ^ 3

negative-refused :
    (hash : Bytes) (n t : ℕ) → set_compact n ≡ negate t → check_proof_of_work hash n ≡ none → ⊥
unfolding check_proof_of_work negate
negative-refused hash n zero e h = let h' = rw (check_proof_of_work, e) at h in cc
negative-refused hash n (suc t) e h = let h' = rw (check_proof_of_work, e) at h in cc

module _ (size sign word : ℕ) (short : word < 2 ^ 23) (flag : sign < 2) where
  abbrev n_bits : ℕ
  n_bits = size * 2 ^ 24 + (sign * 2 ^ 23 + word)

  compact_value_lem : compact_value n_bits ≡ target_of size word
  unfolding compact_value compact_size
  compact_value_lem =
      let s : n_bits / 2 ^ 24 ≡ size = omega (arith, short, flag) in
      let w : n_bits % 2 ^ 23 ≡ word = omega (arith, short, flag) in rw (s, w) (shifted size)
    where
      shifted :
          (n : ℕ)
          → (if leb n 3 then word / 256 ^ (3 - n) else word * 256 ^ (n - 3)) ≡ target_of n word
      shifted zero = omega arith
      shifted (suc zero) = omega arith
      shifted (suc (suc zero)) = omega arith
      shifted (suc (suc (suc zero))) = omega arith
      shifted (suc (suc (suc (suc j)))) =
          let l : leb (suc (suc (suc (suc j)))) 3 ≡ false = ground arith in
          let d : suc (suc (suc (suc j))) - 3 ≡ suc j = omega arith in
          let p : 256 ^ suc (suc (suc (suc j))) ≡ 256 ^ suc j * 256 ^ 3 = omega (
            arith,
            pow-suc 256 (suc j),
            pow-suc 256 (suc (suc j)),
            pow-suc 256 (suc (suc (suc j))),
          ) in
          let e : word * 256 ^ suc (suc (suc (suc j))) ≡ word * 256 ^ suc j * 256 ^ 3 =
            ap (λ t. word * t) p ∙ sym (mul_assoc word (256 ^ suc j) (256 ^ 3)) in
          rw (l, d, e) (sym (mul-div_cancel (word * 256 ^ suc j) {n = 256 ^ 3} (omega arith)))

  set_compact-positive : sign ≡ 0 → set_compact n_bits ≡ pos (target_of size word)
  unfolding set_compact
  set_compact-positive none_ =
      let s : n_bits / 2 ^ 23 % 2 ≡ 0 = omega (arith, short, none_) in
      rw (set_compact, s) (ap pos compact_value_lem)

  set_compact-negative : sign ≡ 1 → set_compact n_bits ≡ negate (target_of size word)
  unfolding set_compact
  set_compact-negative set =
      let s : n_bits / 2 ^ 23 % 2 ≡ 1 = omega (arith, short, set) in
      rw (set_compact, s) (ap negate compact_value_lem)

  -- A hash is accepted for a size, a sign bit and a mantissa of 23 bits exactly if the sign bit is
  -- clear, the target (the mantissa times 256 to the size less three, rounded down) is above 0 and
  -- below 2^224, and the hash as a little-endian number is at most the target.
  pub check_proof_of_work_iff :
      (hash : Bytes)
      → (check_proof_of_work hash n_bits ≡ none) ↔ (
          (sign ≡ 0)
          × (0 < target_of size word)
          × (target_of size word < 2 ^ 224)
          × (le_value hash ≤ target_of size word))
  unfolding check_proof_of_work negate
  check_proof_of_work_iff hash = elim (dec_lt sign 1) [
    | yes clear ↦
        let z : sign ≡ 0 = omega (arith, clear) in
        rw (set_compact-positive z, check_proof_of_work) (ground arith)
    | no set ↦
        let one : sign ≡ 1 = omega (arith, set, flag) in
        (
          (λ e.
              absurd
                (negative-refused hash n_bits (target_of size word) (set_compact-negative one) e)),
          (λ r. absurd (omega (arith, one, r.0))),
        )
  ]

-- Timestamps that go backwards count as the longest time span there is: if the last block is
-- earlier than the first by less than 2^32 - 4 * n_target_timespan seconds, the difference wraps
-- around and is cut to four times the span aimed at.
pub actual_timespan-backwards :
    (last first : ℕ)
    → last < first
    → first + 4 * n_target_timespan < last + 2 ^ 32
    → actual_timespan last first ≡ n_target_timespan * 4
unfolding actual_timespan
actual_timespan-backwards last first h h' = ground arith

span_bounds :
    (last first : ℕ)
    → (n_target_timespan ≤ 4 * actual_timespan last first)
      × (actual_timespan last first ≤ n_target_timespan * 4)
unfolding actual_timespan
span_bounds last first = ground arith

-- Whatever the timestamps, one retarget of a target that is not negative gives a target within the
-- limit that is at most four times the old one, and that is the limit or at least a quarter of the
-- old one, rounded down.
pub scale_bounds :
    (n m last first : ℕ)
    → scale (pos n) (actual_timespan last first) ≡ pos m
    → (m ≤ bn_proof_of_work_limit) × (m ≤ 4 * n) × ((m ≡ bn_proof_of_work_limit) ⊎ (n / 4 ≤ m))
unfolding scale
scale_bounds n m last first h =
    let s = actual_timespan last first in
    let (lo, hi) = span_bounds last first in
    let below : n * s ≤ n * (n_target_timespan * 4) = mul-le-mul_left n hi in
    let above : n * n_target_timespan ≤ n * (4 * s) = mul-le-mul_left n lo in
    let swap : n * (4 * s) ≡ 4 * (n * s) = mul_left_comm n 4 s in
    let upper : n * s / n_target_timespan ≤ 4 * n = omega (arith, below) in
    let lower : n / 4 ≤ n * s / n_target_timespan = omega (arith, above, swap) in
    elim (Bool-cases (ltb bn_proof_of_work_limit (n * s / n_target_timespan))) [
      | inl e ↦
          let h' : pos bn_proof_of_work_limit ≡ pos m = rw (e, scale) at h in
          let same : bn_proof_of_work_limit ≡ m = cc in
          (omega (arith, same), omega (arith, same, upper, ltb→lt _ _ e), inl (sym same))
      | inr e ↦
          let h' : pos (n * s / n_target_timespan) ≡ pos m = rw (e, scale) at h in
          let same : n * s / n_target_timespan ≡ m = cc in
          (ground arith, omega (arith, same, upper), inr (omega (arith, same, lower)))
    ]
