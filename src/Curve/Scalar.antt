-- ===== src/Curve/Scalar.antt =====
-- `ScalarMult` against double-and-add on the number that the bytes stand for.
use mathlib.Core.Option.{some-injective}
use yoin.Base.{
  ℕ, zero, suc, ◌+◌, ◌*◌, ◌/◌, ◌%◌, ◌≤◌, ◌<◌, ◌≡◌, refl, sym, ap, ◌∙◌, ◌↔◌, Bool, true, false, [],
  ◌∷◌, List, Option, none, some, ◌==◌, if◌then◌else◌, Bool-cases, Option-cases, inl, inr, ==_iff,
  arith, All, ◌>>=◌,
}
use yoin.Bytes.{Bytes, IsByte, be_value, be_value_from}
use yoin.Curve.{
  BitCurve, Affine, Jacobian, add_jacobian, double_jacobian, bit_step, bits_loop, bytes_loop,
  affine_from_jacobian, scalar_mult, scalar_base_mult, generate_key, tweak,
}

module _ (c : BitCurve) (base : Affine) where
  abbrev start : Jacobian
  start = (base.0, base.1, 1)

  -- One binary digit more of the multiplier.
  unfoldable double_and_add : Option Jacobian → ℕ → Option Jacobian
  double_and_add none bit = if bit == 1 then some start else none
  double_and_add (some q) bit =
      if bit == 1
      then some (add_jacobian c start (double_jacobian c q))
      else some (double_jacobian c q)

  -- The multiple by n, from the multiple by its half; none for the point at infinity.
  unfoldable pub multiple : ℕ → ℕ → Option Jacobian
  unfolding double_and_add
  multiple zero n = none
  multiple (suc fuel) n = double_and_add (multiple fuel (n / 2)) (n % 2)

  abbrev state : Option Jacobian → Bool × Jacobian
  state none = (false, start)
  state (some q) = (true, q)

  bit_step_lem :
      (byte : ℕ) (o : Option Jacobian)
      → bit_step c base byte (state o) ≡ state (double_and_add o (byte / 128 % 2))
  unfolding bit_step double_and_add
  bit_step_lem byte none = elim (Bool-cases (byte / 128 % 2 == 1)) [
    | inl e ↦ rw e refl
    | inr e ↦ rw e refl
  ]
  bit_step_lem byte (some q) = elim (Bool-cases (byte / 128 % 2 == 1)) [
    | inl e ↦ rw e refl
    | inr e ↦ rw e refl
  ]

  multiple-zero : (fuel : ℕ) → multiple fuel 0 ≡ none
  unfolding multiple double_and_add
  multiple-zero zero = refl
  multiple-zero (suc fuel) = rw (multiple-zero fuel) refl

  multiple_fuel : (f g n : ℕ) → n ≤ f → n ≤ g → multiple f n ≡ multiple g n
  unfolding multiple
  multiple_fuel zero g n hf hg = let e : n ≡ 0 = omega (arith, hf) in rw e (sym (multiple-zero g))
  multiple_fuel (suc f) zero n hf hg =
      let e : n ≡ 0 = omega (arith, hg) in rw e (multiple-zero (suc f))
  multiple_fuel (suc f) (suc g) n hf hg =
      ap (λ o. double_and_add o (n % 2))
        (multiple_fuel f g (n / 2) (omega (arith, hf)) (omega (arith, hg)))

  multiple_step :
      (n bit : ℕ)
      → bit < 2
      → double_and_add (multiple n n) bit ≡ multiple (n * 2 + bit) (n * 2 + bit)
  unfolding multiple
  multiple_step n bit lt =
      let high : (n * 2 + bit) / 2 ≡ n = omega (arith, lt) in
      let low : (n * 2 + bit) % 2 ≡ bit = omega (arith, lt) in
      ap (λ o. double_and_add o bit) (multiple_fuel n (n * 2 + bit) n (omega arith) (omega arith))
      ∙ (sym (rw (high, low) refl)
          ∙ multiple_fuel (suc (n * 2 + bit)) (n * 2 + bit) (n * 2 + bit) (omega arith)
              (omega arith))

  -- The number after the bits of a byte that are left.
  abbrev shifted : ℕ → ℕ → ℕ → ℕ
  shifted zero byte n = n
  shifted (suc left) byte n = shifted left (byte * 2 % 256) (n * 2 + byte / 128 % 2)

  bits_loop_lem :
      (left byte n : ℕ)
      → bits_loop c base left byte (state (multiple n n))
        ≡ state (multiple (shifted left byte n) (shifted left byte n))
  unfolding bits_loop
  bits_loop_lem zero byte n = refl
  bits_loop_lem (suc left) byte n =
      ap (bits_loop c base left (byte * 2 % 256)) (
        bit_step_lem byte (multiple n n)
        ∙ ap state (multiple_step n (byte / 128 % 2) (omega arith)))
      ∙ bits_loop_lem left (byte * 2 % 256) (n * 2 + byte / 128 % 2)

  shifted_byte : (byte n : ℕ) → byte < 256 → shifted 8 byte n ≡ n * 256 + byte
  shifted_byte byte n lt = omega (arith, lt)

  bytes_loop_lem :
      (k : Bytes) (n : ℕ)
      → All IsByte k
      → bytes_loop c base k (state (multiple n n))
        ≡ state (multiple (be_value_from n k) (be_value_from n k))
  unfolding bytes_loop be_value_from
  bytes_loop_lem [] n bytes = refl
  bytes_loop_lem (byte ∷ k) n bytes =
      ap (bytes_loop c base k)
        (bits_loop_lem 8 byte n ∙ ap (λ m. state (multiple m m)) (shifted_byte byte n bytes.0))
      ∙ bytes_loop_lem k (n * 256 + byte) bytes.1

  -- A digit keeps a multiple, and a true digit makes one.
  double_and_add-some : (q : Jacobian) (bit : ℕ) → double_and_add (some q) bit ≡ none → ⊥
  unfolding double_and_add
  double_and_add-some q bit h = elim (Bool-cases (bit == 1)) [
    | inl e ↦ let h' = rw e at h in cc
    | inr e ↦ let h' = rw e at h in cc
  ]

  double_and_add-one : (o : Option Jacobian) → double_and_add o 1 ≡ none → ⊥
  unfolding double_and_add
  double_and_add-one none h = cc
  double_and_add-one (some q) h = cc

  multiple_positive : (fuel n : ℕ) → n ≤ fuel → multiple fuel n ≡ none → n ≡ 0
  unfolding multiple
  multiple_positive zero n le h = omega (arith, le)
  multiple_positive (suc fuel) n le h = elim (Option-cases (multiple fuel (n / 2))) [
    | inl e ↦
        let half : n / 2 ≡ 0 = multiple_positive fuel (n / 2) (omega (arith, le)) e in
        elim (Bool-cases (n % 2 == 1)) [
          | inl odd ↦
              let one : n % 2 ≡ 1 = (==_iff (n % 2) 1).0 odd in
              let h' = rw one at h in absurd (double_and_add-one (multiple fuel (n / 2)) h')
          | inr even ↦ ground (arith, half, even)
        ]
    | inr (q, e) ↦ let h' = rw e at h in absurd (double_and_add-some q (n % 2) h')
  ]

  multiple-none_iff : (n : ℕ) → (multiple n n ≡ none) ↔ (n ≡ 0)
  multiple-none_iff n =
      (multiple_positive n n (omega arith), λ e. ap (λ m. multiple m m) e ∙ multiple-zero 0)

-- `ScalarMult` is double-and-add on the number that the bytes stand for, whatever their length.
pub scalar_mult_lem :
    (c : BitCurve) (mod_inverse : ℕ → ℕ → ℕ) (base : Affine) (k : Bytes)
    → All IsByte k
    → scalar_mult c mod_inverse base k ≡ (
        multiple c base (be_value k) (be_value k) >>= λ q.
        some (affine_from_jacobian c mod_inverse q))
unfolding scalar_mult be_value multiple
scalar_mult_lem c mod_inverse base k bytes =
    elim (Option-cases (multiple c base (be_value k) (be_value k))) [
      | inl e ↦ rw (bytes_loop_lem c base k 0 bytes, e) refl
      | inr (q, e) ↦ rw (bytes_loop_lem c base k 0 bytes, e) refl
    ]

-- `ScalarMult` has no point exactly for the number 0.
pub scalar_mult-none :
    (c : BitCurve) (mod_inverse : ℕ → ℕ → ℕ) (base : Affine) (k : Bytes)
    → All IsByte k
    → (scalar_mult c mod_inverse base k ≡ none) ↔ (be_value k ≡ 0)
scalar_mult-none c mod_inverse base k bytes =
    let (zero_from, from_zero) = multiple-none_iff c base (be_value k) in
    let same = scalar_mult_lem c mod_inverse base k bytes in
    (
      λ h. zero_from (before (multiple c base (be_value k) (be_value k)) (sym same ∙ h)),
      λ e. same ∙ ap (λ o. o >>= λ q. some (affine_from_jacobian c mod_inverse q)) (from_zero e),
    )
  where
    before :
        (o : Option Jacobian)
        → (o >>= λ q. some (affine_from_jacobian c mod_inverse q)) ≡ none
        → o ≡ none
    before none h = refl
    before (some q) h = cc

-- The private key that `GenerateKey` gives has the point that comes with it.
pub generate_key_lem :
    (c : BitCurve) (mod_inverse : ℕ → ℕ → ℕ) (rand : List Bytes) (priv : Bytes) (q : Affine)
    → generate_key c mod_inverse rand ≡ some (priv, q)
    → scalar_base_mult c mod_inverse priv ≡ some q
unfolding generate_key
generate_key_lem c mod_inverse [] priv q h = absurd cc
generate_key_lem c mod_inverse (block ∷ rand) priv q h =
    elim (Option-cases (scalar_base_mult c mod_inverse (tweak c block))) [
      | inl e ↦ let h' = rw (generate_key, e) at h in generate_key_lem c mod_inverse rand priv q h'
      | inr (r, e) ↦
          let h' = rw (generate_key, e) at h in
          let same = some-injective _ _ h' in
          ap (scalar_base_mult c mod_inverse) (sym (ap (λ t. t.0) same))
          ∙ (e ∙ ap (λ t. some (t.1)) same)
    ]
