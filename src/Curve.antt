-- ===== src/Curve.antt =====
-- core/eck256k1.go: the curve y² = x³ + b over the field of a prime.
-- A coordinate is a number: `SetBytes`, the constants and `Mod` make no negative one.
-- `mod_inverse` stands for `ModInverse` of `big.Int`.
pub mod Int
pub mod Field
pub mod Doubling
pub mod Identities
pub mod Adding
pub mod OnCurve
pub mod Scalar
mod Examples
pub mod Marshal
use Prim.Native.Nat.{bit_and, bit_xor}
use yoin.Base.{
  ℕ, zero, suc, ◌+◌, ◌-◌, ◌*◌, ◌/◌, ◌%◌, ◌^◌, Bool, true, false, not, List, [], ◌∷◌, ◌++◌, Option,
  none, some, ◌>>=◌, ltb, ◌==◌, if◌then◌else◌, length, replicate,
}
use yoin.Bytes.{Bytes, be_value, from?, prefix?}
use yoin.Base58.{big_bytes}
use yoin.Key.{secp256k1_p, secp256k1_b}
use yoin.Curve.Int.{pos, ◌+ℤ◌, ◌-ℤ◌, ◌*ℤ◌, mod_ℤ, add_if_negative}

pub record BitCurve : Type 0 where
  pub p : ℕ
  pub n : ℕ
  pub b : ℕ
  pub gx : ℕ
  pub gy : ℕ
  pub bit_size : ℕ

abbrev pub secp256k1 : BitCurve
secp256k1 = record {
  p = secp256k1_p;
  n = 0xFFFFFFFFFFFFFFFFFFFFFFFFFFFFFFFEBAAEDCE6AF48A03BBFD25E8CD0364141;
  b = secp256k1_b;
  gx = 0x79BE667EF9DCBBAC55A06295CE870B07029BFCDB2DCE28D959F2815B16F81798;
  gy = 0x483ADA7726A3C4655DA4FBFC0E1108A8FD17B448A68554199C47D08FFB10D4B8;
  bit_size = 256;
}

-- `mask[i]`
abbrev pub mask : ℕ → ℕ
mask i = if i == 0 then 0xff else 2 ^ i - 1

-- Affine and Jacobian coordinates.
abbrev pub Affine : Type 0
Affine = ℕ × ℕ

abbrev pub Jacobian : Type 0
Jacobian = ℕ × ℕ × ℕ

module _ (c : BitCurve) where
  unfoldable pub is_on_curve : ℕ → ℕ → Bool
  is_on_curve x y = (x * x * x + c.b) % c.p == y * y % c.p

  unfoldable pub add_jacobian : Jacobian → Jacobian → Jacobian
  unfolding ◌-ℤ◌ ◌*ℤ◌ mod_ℤ add_if_negative
  add_jacobian (x1, y1, z1) (x2, y2, z2) =
      let z1z1 = z1 * z1 % c.p in
      let z2z2 = z2 * z2 % c.p in
      let u1 = x1 * z2z2 % c.p in
      let u2 = x2 * z1z1 % c.p in
      let h = add_if_negative (pos u2 -ℤ pos u1) c.p in
      let i = (h *ℤ pos 2) *ℤ (h *ℤ pos 2) in
      let j = h *ℤ i in
      let s1 = y1 * z2 * z2z2 % c.p in
      let s2 = y2 * z1 * z1z1 % c.p in
      let r = add_if_negative (pos s2 -ℤ pos s1) c.p *ℤ pos 2 in
      let v = pos u1 *ℤ i in
      let x3 = mod_ℤ (r *ℤ r -ℤ j -ℤ v -ℤ v) c.p in
      let y3 = mod_ℤ (r *ℤ (v -ℤ pos x3) -ℤ pos s1 *ℤ j *ℤ pos 2) c.p in
      let w1 = add_if_negative (pos ((z1 + z2) * (z1 + z2)) -ℤ pos z1z1) c.p in
      let w2 = add_if_negative (w1 -ℤ pos z2z2) c.p in (x3, y3, mod_ℤ (w2 *ℤ h) c.p)

  unfoldable pub double_jacobian : Jacobian → Jacobian
  unfolding ◌-ℤ◌ ◌*ℤ◌ mod_ℤ
  double_jacobian (x, y, z) =
      let a = x * x in
      let b = y * y in
      let c2 = b * b in
      let d = (pos ((x + b) * (x + b)) -ℤ pos a -ℤ pos c2) *ℤ pos 2 in
      let e = 3 * a in
      let f = e * e in
      let x3 = mod_ℤ (pos f -ℤ pos 2 *ℤ d) c.p in
      let y3 = mod_ℤ (pos e *ℤ (d -ℤ pos x3) -ℤ pos (8 * c2)) c.p in (x3, y3, 2 * (y * z) % c.p)

  -- The loop over the bits of one byte, for the point (bx, by): whether a true bit was seen, and the
  -- point so far.
  unfoldable pub bit_step : Affine → ℕ → Bool × Jacobian → Bool × Jacobian
  unfolding add_jacobian double_jacobian
  bit_step (bx, by) byte (seen, q) =
      let q = if seen then double_jacobian q else q in
      if byte / 128 % 2 == 1
      then if seen then (true, add_jacobian (bx, by, 1) q) else (true, q)
      else (seen, q)

  unfoldable pub bits_loop : Affine → ℕ → ℕ → Bool × Jacobian → Bool × Jacobian
  unfolding bit_step
  bits_loop base zero byte st = st
  bits_loop base (suc left) byte st = bits_loop base left (byte * 2 % 256) (bit_step base byte st)

  unfoldable pub bytes_loop : Affine → Bytes → Bool × Jacobian → Bool × Jacobian
  unfolding bits_loop
  bytes_loop base [] st = st
  bytes_loop base (byte ∷ k) st = bytes_loop base k (bits_loop base 8 byte st)

  -- `priv[0] &= mask[BitSize%8]` and `priv[1] ^= 0x42`
  unfoldable pub tweak : Bytes → Bytes
  tweak (b0 ∷ b1 ∷ rest) = bit_and b0 (mask (c.bit_size % 8)) ∷ bit_xor b1 0x42 ∷ rest
  tweak b = b

  module _ (mod_inverse : ℕ → ℕ → ℕ) where
    unfoldable pub affine_from_jacobian : Jacobian → Affine
    affine_from_jacobian (x, y, z) =
        let zinv = mod_inverse z c.p in
        let zinvsq = zinv * zinv in (x * zinvsq % c.p, y * (zinvsq * zinv) % c.p)

    unfoldable pub add : Affine → Affine → Affine
    unfolding add_jacobian affine_from_jacobian
    add (x1, y1) (x2, y2) = affine_from_jacobian (add_jacobian (x1, y1, 1) (x2, y2, 1))

    unfoldable pub double : Affine → Affine
    unfolding double_jacobian affine_from_jacobian
    double (x1, y1) = affine_from_jacobian (double_jacobian (x1, y1, 1))

    -- `none` for nil, nil
    unfoldable pub scalar_mult : Affine → Bytes → Option Affine
    unfolding bytes_loop affine_from_jacobian
    scalar_mult (bx, by) k =
        let (seen, q) = bytes_loop (bx, by) k (false, (bx, by, 1)) in
        if seen then some (affine_from_jacobian q) else none

    unfoldable pub scalar_base_mult : Bytes → Option Affine
    unfolding scalar_mult
    scalar_base_mult k = scalar_mult (c.gx, c.gy) k

    -- Each element of the list is what one `ReadFull` puts into `priv`; `none` is the reader's error.
    unfoldable pub generate_key : List Bytes → Option (Bytes × Affine)
    unfolding scalar_base_mult tweak
    generate_key [] = none
    generate_key (block ∷ rand) =
        let priv = tweak block in
        let again = generate_key rand in
        elim (scalar_base_mult priv) [ none ↦ again | some q ↦ some (priv, q) ]

-- `copy(dst[at:], src)`; `none` where the bound of the slice is out of range.
unfoldable pub overwrite : Bytes → Bytes → Bytes
overwrite [] dst = dst
overwrite (s ∷ src) [] = []
overwrite (s ∷ src) (d ∷ dst) = s ∷ overwrite src dst

unfoldable pub copy_at : ℕ → Bytes → Bytes → Option Bytes
unfolding overwrite
copy_at at src dst = do
  front ← prefix? at dst
  back ← from? at dst
  some (front ++ overwrite src back)

-- A bound i - n, out of range when it is negative.
abbrev pub minus? : ℕ → ℕ → Option ℕ
minus? i n = if ltb i n then none else some (i - n)

module _ (c : BitCurve) where
  unfoldable pub byte_len : ℕ
  byte_len = (c.bit_size + 7) / 8

  unfoldable pub marshal : ℕ → ℕ → Option Bytes
  unfolding byte_len copy_at big_bytes
  marshal x y = do
    let x_bytes = big_bytes x x []
    let y_bytes = big_bytes y y []
    x_at ← minus? (1 + byte_len) (length x_bytes)
    ret ← copy_at x_at x_bytes (4 ∷ replicate (2 * byte_len) 0)
    y_at ← minus? (1 + 2 * byte_len) (length y_bytes)
    copy_at y_at y_bytes ret

  -- `none` where x is nil
  unfoldable pub unmarshal : Bytes → Option Affine
  unfolding byte_len
  unmarshal [] = none
  unmarshal (tag ∷ data_) =
      if not (length (tag ∷ data_) == 1 + 2 * byte_len)
      then none
      else if not (tag == 4)
      then none
      else do x ← prefix? byte_len data_; y ← from? byte_len data_; some (be_value x, be_value y)
