-- ===== src/Curve/Examples.antt =====
-- The curve on concrete points.
use yoin.Base.{ℕ, ◌-◌, ◌≡◌, refl, true, [], ◌∷◌, some, ◌>>=◌, arith}
use yoin.Bytes.{be_value}
use yoin.Key.{exp_mod}
use yoin.Curve.{
  BitCurve, secp256k1, is_on_curve, double_jacobian, scalar_mult, affine_from_jacobian,
  scalar_base_mult, double, bytes_loop, add,
}
use yoin.Curve.Doubling.{OnCurve, double_jacobian-OnCurve}
use yoin.Curve.Scalar.{multiple, scalar_mult_lem}
use yoin.Curve.OnCurve.{scalar_mult-is_on_curve}

-- An inverse modulo a prime of at most 256 bits.
abbrev inverse : ℕ → ℕ → ℕ
inverse z p = exp_mod 256 z (p - 2) p

abbrev gx : ℕ
gx = 0x79BE667EF9DCBBAC55A06295CE870B07029BFCDB2DCE28D959F2815B16F81798

abbrev gy : ℕ
gy = 0x483ADA7726A3C4655DA4FBFC0E1108A8FD17B448A68554199C47D08FFB10D4B8

generator_on_curve : is_on_curve secp256k1 gx gy ≡ true
unfolding is_on_curve
generator_on_curve = refl

twice_g : double secp256k1 inverse (gx, gy) ≡ (
  0xC6047F9441ED7D6D3045406E95C07CD85C778E4B8CEF3CA7ABAC09B95C709EE5,
  0x1AE168FEA63DC339A3C58419466CEAEEF7F632653266D0E1236431A950CFE52A,
)
unfolding double exp_mod
twice_g = refl

abbrev x3 : ℕ
x3 = 0xF9308A019258C31049344F85F89D5229B531C845836F99B08601F113BCE036F9

abbrev y3 : ℕ
y3 = 0x388F7B0F632DE8140FE337E62A37F3566500A99934C2231B6CB9FD7584B8E672

three_g : scalar_base_mult secp256k1 inverse (0 ∷ 3 ∷ []) ≡ some (x3, y3)
unfolding scalar_base_mult exp_mod
three_g = refl

-- `Add` does not know that the two points may be the same: its z is 0 then.
add_same : add secp256k1 inverse (gx, gy) (gx, gy) ≡ (0, 0)
unfolding add exp_mod
add_same = refl

-- The curve y² = x³ + 7 over the numbers modulo 17.
abbrev small : BitCurve
small = record { p = 17; n = 18; b = 7; gx = 1; gy = 5; bit_size = 8 }

doubled_point : OnCurve small (double_jacobian small (1, 5, 1))
doubled_point = double_jacobian-OnCurve small (1, 5, 1) (omega arith) (record { equation = refl })

scalar_mult_lem_example : scalar_mult secp256k1 inverse (gx, gy) (0 ∷ 3 ∷ []) ≡ (
    multiple secp256k1 (gx, gy) (be_value (0 ∷ 3 ∷ [])) (be_value (0 ∷ 3 ∷ [])) >>= λ q.
    some (affine_from_jacobian secp256k1 inverse q))
scalar_mult_lem_example =
    scalar_mult_lem secp256k1 inverse (gx, gy) (0 ∷ 3 ∷ []) (omega arith, (omega arith, tt))

scalar_mult-is_on_curve_example : is_on_curve secp256k1 x3 y3 ≡ true
unfolding bytes_loop exp_mod scalar_mult scalar_base_mult
scalar_mult-is_on_curve_example =
    scalar_mult-is_on_curve secp256k1 inverse gx gy x3 y3 (0 ∷ 3 ∷ []) (omega arith)
      generator_on_curve refl three_g
