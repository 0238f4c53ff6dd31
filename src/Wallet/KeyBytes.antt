-- ===== src/Wallet/KeyBytes.antt =====
-- wallet/wallet.go: the bytes that `getPubKey` makes of a point, and `NewPublicKey` on them.
use native.Mathlib.Nat.{mod-lt}
use yoin.Base.{
  ℕ, ◌^◌, ◌<◌, ◌≡◌, refl, ap, false, [], ◌∷◌, ◌++◌, some, length, length-append, Bool-cases, inl,
  inr, le→ltb_false, arith,
}
use yoin.Bytes.{Bytes}
use yoin.Bytes.Laws.{prefix?-append, from?-append}
use yoin.Base58.{big_bytes}
use yoin.Key.{secp256k1_p, point, new_public_key}
use yoin.Curve.{
  BitCurve, Affine, secp256k1, byte_len, bytes_loop, affine_from_jacobian, scalar_mult,
  scalar_base_mult,
}
use yoin.Curve.Marshal.{padded, length-big, length-padded, be_value-padded, first_copy, second_copy}
use yoin.Wallet.{done}
use yoin.Wallet.Keys.{key_bytes}

scalar_mult-lt :
    (c : BitCurve) (inverse : ℕ → ℕ → ℕ) (base : Affine) (k : Bytes) {x y : ℕ}
    → 0 < c.p
    → scalar_mult c inverse base k ≡ some (x, y)
    → (x < c.p) × (y < c.p)
unfolding scalar_mult affine_from_jacobian
scalar_mult-lt c inverse base k {x = x} {y = y} above e =
    let (seen, (qx, qy, qz)) = bytes_loop c base k (false, (base.0, base.1, 1)) in
    elim (Bool-cases seen) [
      | inl s ↦
          let same : affine_from_jacobian c inverse (qx, qy, qz) ≡ (x, y) = cc (rw s at e) in
          (
            rw (← ap (λ (q : Affine). q.0) same) (mod-lt _ above),
            rw (← ap (λ (q : Affine). q.1) same) (mod-lt _ above),
          )
      | inr s ↦ absurd (cc (rw s at e))
    ]

pub scalar_base_mult-lt :
    (inverse : ℕ → ℕ → ℕ) (k : Bytes) {x y : ℕ}
    → scalar_base_mult secp256k1 inverse k ≡ some (x, y)
    → (x < secp256k1_p) × (y < secp256k1_p)
unfolding scalar_base_mult
scalar_base_mult-lt inverse k e =
    scalar_mult-lt secp256k1 inverse (secp256k1.gx, secp256k1.gy) k (omega arith) e

abbrev pub long_form : ℕ → ℕ → Bytes
long_form x y = 4 ∷ (padded 32 x ++ padded 32 y)

module _ (x y : ℕ) (xl : x < 256 ^ 32) (yl : y < 256 ^ 32) where
  pub length-long_form : length (padded 32 x ++ padded 32 y) ≡ 64
  length-long_form = omega (
    arith,
    length-append (padded 32 x) (padded 32 y),
    length-padded 32 x xl,
    length-padded 32 y yl,
  )

  pub key_bytes_lem : key_bytes false x y ≡ done (long_form x y)
  unfolding key_bytes byte_len
  key_bytes_lem =
      let in_x = le→ltb_false 32 (length (big_bytes x x [])) (length-big 32 x xl) in
      let in_y = le→ltb_false 32 (length (big_bytes y y [])) (length-big 32 y yl) in
      let one = first_copy secp256k1 x y xl yl in
      let two = second_copy secp256k1 x y xl yl in rw (in_x, in_y, one, two) refl

  -- `NewPublicKey` reads the long form of a point.
  pub new_public_key-long_form : new_public_key (long_form x y) ≡ point x y
  unfolding new_public_key
  new_public_key-long_form = rw (
    length-long_form,
    prefix?-append 32 (padded 32 x) (padded 32 y) (length-padded 32 x xl),
    from?-append 32 (padded 32 x) (padded 32 y) (length-padded 32 x xl),
    be_value-padded 32 x,
    be_value-padded 32 y,
  )
