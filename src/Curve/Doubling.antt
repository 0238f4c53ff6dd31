-- ===== src/Curve/Doubling.antt =====
-- Doubling in Jacobian coordinates stays on the curve.
use mathlib.Core.Path.{subst}
use native.Mathlib.Nat.{mod-mod}
use yoin.Base.{ℕ, suc, ◌+◌, ◌-◌, ◌*◌, ◌%◌, ◌<◌, ◌≡◌, sym, ap, arith}
use yoin.Curve.{BitCurve, Jacobian, double_jacobian}
use yoin.Curve.Int.{pos, ◌-ℤ◌, ◌*ℤ◌}
use yoin.Curve.Field.{
  Cong, cong_of, cong_refl, cong_sym, ◌then◌, cong-add, cong-mul, Stands, pos-Stands, Stands-cong,
  sub-Stands, mul-Stands, mod-Stands,
}

-- y² = x³ + b z⁶ modulo p: the point (x / z², y / z³) is on the curve.
pub record OnCurve (c : BitCurve) (q : Jacobian) : Type 0 where
  pub equation :
      q.1 * q.1 % c.p ≡ (q.0 * q.0 * q.0 + c.b * (q.2 * q.2 * q.2 * (q.2 * q.2 * q.2))) % c.p

-- The identity behind the doubling formulas, with B for y².
y_identity :
    (κ x B : ℕ)
    → Cong κ
        (3 * (x * x) * (4 * (x * B) + κ * (3 * (x * x) * (3 * (x * x)) + κ * (2 * (4 * (x * B)))))
          + κ * (8 * (B * B)))
        (36 * (x * x * x * B) + κ * (27 * (x * x * x * (x * x * x)) + 8 * (B * B)))
y_identity κ x B = cong_of _ _ (24 * B * x * x * x) (24 * B * x * x * x * κ) (omega arith)

double_identity :
    (κ x B : ℕ)
    → let Y = 36 * (x * x * x * B) + κ * (27 * (x * x * x * (x * x * x)) + 8 * (B * B)) in
      let X = 3 * (x * x) * (3 * (x * x)) + κ * (2 * (4 * (x * B))) in
      Cong κ (Y * Y) (X * X * X + 64 * (B * B * B) * (B + κ * (x * x * x)))
double_identity κ x B =
    cong_of _ _
      (64 * B * B * B * B
        + 512 * B * B * B * x * x * x * κ * κ
        + 1296 * B * B * x * x * x * x * x * x * κ
        + 729 * x * x * x * x * x * x * x * x * x * x * x * x)
      (64 * B * B * B * B * κ
        + 512 * B * B * B * x * x * x * κ
        + 1296 * B * B * x * x * x * x * x * x
        + 729 * x * x * x * x * x * x * x * x * x * x * x * x * κ)
      (omega arith)

-- The same curve with its prime written as κ + 1.
abbrev pub with_prime : BitCurve → ℕ → BitCurve
with_prime c κ = record c { p = suc κ }

pub with_prime_lem : (c : BitCurve) → 0 < c.p → with_prime c (c.p - 1) ≡ c
with_prime_lem c positive = ap (λ p. record c { p = p }) (omega (arith, positive))

pub sixth_power :
    (b y z : ℕ)
    → b
        * (2
            * (y * z)
            * (2 * (y * z))
            * (2 * (y * z))
            * (2 * (y * z) * (2 * (y * z)) * (2 * (y * z))))
      ≡ 64 * (y * y * (y * y) * (y * y)) * (b * (z * z * z * (z * z * z)))
sixth_power b y z = omega arith

module _ (c : BitCurve) (κ x y z : ℕ) where
  abbrev k : BitCurve
  k = with_prime c κ

  abbrev doubled : Jacobian
  doubled = double_jacobian k (x, y, z)

  abbrev B : ℕ
  B = y * y

  d_value :
      Stands κ (((pos ((x + B) * (x + B)) -ℤ pos (x * x)) -ℤ pos (B * B)) *ℤ pos 2) (4 * (x * B))
  d_value =
      Stands-cong
        (mul-Stands
          (sub-Stands (sub-Stands (pos-Stands (cong_refl _)) (pos-Stands (cong_refl _)))
            (pos-Stands (cong_refl _)))
          (pos-Stands (cong_refl 2)))
        (cong_of _ _ 0 (2 * (x * x) + 2 * (B * B)) (omega arith))

  x_value : Cong κ (doubled.0) (3 * (x * x) * (3 * (x * x)) + κ * (2 * (4 * (x * B))))
  unfolding double_jacobian
  x_value =
      mod-Stands _
        (sub-Stands (pos-Stands (cong_refl _)) (mul-Stands (pos-Stands (cong_refl 2)) d_value))

  y_value : Cong κ (doubled.1) (
      3 * (x * x) * (4 * (x * B) + κ * (3 * (x * x) * (3 * (x * x)) + κ * (2 * (4 * (x * B)))))
      + κ * (8 * (B * B)))
  unfolding double_jacobian
  y_value = mod-Stands _ (
      sub-Stands (mul-Stands (pos-Stands (cong_refl _)) (sub-Stands d_value (pos-Stands x_value)))
        (pos-Stands (cong_refl _)))

  z_value : Cong κ (doubled.2) (2 * (y * z))
  unfolding double_jacobian
  z_value = record { same = mod-mod (2 * (y * z)) (suc κ) }

  -- b z⁶ from the equation of the point.
  b_value : OnCurve k (x, y, z) → Cong κ (c.b * (z * z * z * (z * z * z))) (B + κ * (x * x * x))
  b_value on =
      let bz = c.b * (z * z * z * (z * z * z)) in
      let here : Cong κ B (x * x * x + bz) = record { same = on.equation } in
      cong_of bz (x * x * x + bz + κ * (x * x * x)) (x * x * x) 0 (omega arith)
      then cong-add (cong_sym here) (cong_refl (κ * (x * x * x)))

  doubled-OnCurve : OnCurve k (x, y, z) → OnCurve k doubled
  doubled-OnCurve on =
      let y_square = y_value then y_identity κ x B in
      let z_cube = cong-mul (cong-mul z_value z_value) z_value in
      let x_cube = cong-mul (cong-mul x_value x_value) x_value in
      let last =
        cong-mul (cong_refl c.b) (cong-mul z_cube z_cube)
        then cong_of _ _ 0 0 (ap (λ t. t + suc κ * 0) (sixth_power c.b y z))
        then cong-mul (cong_refl (64 * (B * B * B))) (b_value on) in
      let chain =
        cong-mul y_square y_square
        then double_identity κ x B
        then cong_sym (cong-add x_cube last) in
      record { equation = chain.same }

-- Doubling a point of the curve gives a point of the curve, whatever the prime and b are.
pub double_jacobian-OnCurve :
    (c : BitCurve) (q : Jacobian) → 0 < c.p → OnCurve c q → OnCurve c (double_jacobian c q)
double_jacobian-OnCurve c (x, y, z) positive on =
    let same = with_prime_lem c positive in
    subst (λ k. OnCurve k (double_jacobian k (x, y, z))) same
      (doubled-OnCurve c (c.p - 1) x y z (subst (λ k. OnCurve k (x, y, z)) (sym same) on))
