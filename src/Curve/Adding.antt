-- ===== src/Curve/Adding.antt =====
-- Adding in Jacobian coordinates stays on the curve.
use mathlib.Core.Path.{subst}
use native.Mathlib.Nat.{mod-mod, mul_comm}
use yoin.Base.{ℕ, suc, ◌+◌, ◌-◌, ◌*◌, ◌%◌, ◌<◌, sym, ap, arith}
use yoin.Curve.{BitCurve, Jacobian, add_jacobian}
use yoin.Curve.Int.{pos, ◌-ℤ◌, add_if_negative}
use yoin.Curve.Field.{
  Cong, cong_of, cong_refl, cong_sym, ◌then◌, cong-add, cong-mul, Stands, pos-Stands, sub-Stands,
  mul-Stands, mod-Stands, add_if_negative-Stands,
}
use yoin.Curve.Identities.{
  W, X, y_identity, square_identity, add_identity, scaled, difference, z_identity,
}
use yoin.Curve.Doubling.{OnCurve, with_prime, with_prime_lem, sixth_power}

module _ (c : BitCurve) (κ x1 y1 z1 x2 y2 z2 : ℕ) where
  abbrev k : BitCurve
  k = with_prime c κ

  abbrev sum : Jacobian
  sum = add_jacobian k (x1, y1, z1) (x2, y2, z2)

  reduced : (n : ℕ) → Cong κ (n % suc κ) n
  reduced n = record { same = mod-mod n (suc κ) }

  abbrev U : ℕ
  U = x1 * (z2 * z2 % suc κ) % suc κ

  abbrev u2 : ℕ
  u2 = x2 * (z1 * z1 % suc κ) % suc κ

  abbrev H : ℕ
  H = u2 + κ * U

  abbrev S : ℕ
  S = y1 * z2 * (z2 * z2 % suc κ) % suc κ

  abbrev s2 : ℕ
  s2 = y2 * z1 * (z1 * z1 % suc κ) % suc κ

  abbrev R : ℕ
  R = s2 + κ * S

  h_value : Stands κ (add_if_negative (pos u2 -ℤ pos U) (suc κ)) H
  h_value =
      add_if_negative-Stands _ (sub-Stands (pos-Stands (cong_refl u2)) (pos-Stands (cong_refl U)))

  r_value : Stands κ (add_if_negative (pos s2 -ℤ pos S) (suc κ)) R
  r_value =
      add_if_negative-Stands _ (sub-Stands (pos-Stands (cong_refl s2)) (pos-Stands (cong_refl S)))

  x_value : Cong κ (sum.0) (X κ U H R)
  unfolding add_jacobian
  x_value =
      let two = pos-Stands (cong_refl 2) in
      let h2 = mul-Stands h_value two in
      let r2 = mul-Stands r_value two in
      let i = mul-Stands h2 h2 in
      let v = mul-Stands (pos-Stands (cong_refl U)) i in
      mod-Stands _
        (sub-Stands (sub-Stands (sub-Stands (mul-Stands r2 r2) (mul-Stands h_value i)) v) v)

  y_value : Cong κ (sum.1) (8 * (R * W κ U H R + κ * (S * (H * H * H))))
  unfolding add_jacobian
  y_value =
      let two = pos-Stands (cong_refl 2) in
      let h2 = mul-Stands h_value two in
      let r2 = mul-Stands r_value two in
      let i = mul-Stands h2 h2 in
      let v = mul-Stands (pos-Stands (cong_refl U)) i in
      let s_j = mul-Stands (mul-Stands (pos-Stands (cong_refl S)) (mul-Stands h_value i)) two in
      mod-Stands _ (sub-Stands (mul-Stands r2 (sub-Stands v (pos-Stands x_value))) s_j)
      then y_identity κ U S H R

  z_value : Cong κ (sum.2) (2 * (H * (z1 * z2)))
  unfolding add_jacobian
  z_value =
      let z1z1 = pos-Stands (reduced (z1 * z1)) in
      let z2z2 = pos-Stands (reduced (z2 * z2)) in
      let w1 =
        add_if_negative-Stands _
          (sub-Stands (pos-Stands (cong_refl ((z1 + z2) * (z1 + z2)))) z1z1) in
      let w2 = add_if_negative-Stands _ (sub-Stands w1 z2z2) in
      mod-Stands _ (mul-Stands w2 h_value) then z_identity κ z1 z2 H

  abbrev w : ℕ
  w = c.b * (z1 * z2 * (z1 * z2) * (z1 * z2) * (z1 * z2 * (z1 * z2) * (z1 * z2)))

  first_scaled : OnCurve k (x1, y1, z1) → Cong κ (S * S) (U * U * U + w)
  first_scaled on =
      scaled κ c.b x1 y1 z1 z2 S U (record { same = on.equation })
        (reduced _ then cong-mul (cong_refl (y1 * z2)) (reduced (z2 * z2)))
        (reduced _ then cong-mul (cong_refl x1) (reduced (z2 * z2)))

  second_scaled : OnCurve k (x2, y2, z2) → Cong κ (s2 * s2) (u2 * u2 * u2 + w)
  second_scaled on =
      scaled κ c.b x2 y2 z2 z1 s2 u2 (record { same = on.equation })
        (reduced _ then cong-mul (cong_refl (y2 * z1)) (reduced (z1 * z1)))
        (reduced _ then cong-mul (cong_refl x2) (reduced (z1 * z1)))
      then cong_of _ _ 0 0
          (ap (λ m. u2 * u2 * u2 + c.b * (m * m * m * (m * m * m)) + suc κ * 0) (mul_comm z2 z1))

  back : (a b : ℕ) → Cong κ b (a + (b + κ * a))
  back a b = cong_of _ _ a 0 (omega arith)

  sum-OnCurve : OnCurve k (x1, y1, z1) → OnCurve k (x2, y2, z2) → OnCurve k sum
  sum-OnCurve on1 on2 =
      let first = first_scaled on1 in
      let product =
        difference κ U S u2 s2 H R w first (second_scaled on2) (back U u2) (back S s2) in
      let v = W κ U H R in
      let h3 = H * H * H in
      let z_cube = cong-mul (cong-mul z_value z_value) z_value in
      let x_cube = cong-mul (cong-mul x_value x_value) x_value in
      let last =
        cong-mul (cong_refl c.b) (cong-mul z_cube z_cube)
        then cong_of _ _ 0 0 (ap (λ t. t + suc κ * 0) (sixth_power c.b H (z1 * z2))) in
      let chain =
        cong-mul y_value y_value
        then square_identity κ U S H R v
        then cong-mul (cong_refl 64) (
            cong-add
              (cong-add (cong_refl (R * R * (v * v)))
                (cong-mul (cong-mul (cong_refl κ) product) (cong_refl (h3 * v))))
              (cong-mul first (cong_refl (h3 * h3))))
        then add_identity κ U H R w
        then cong_sym (cong-add x_cube last) in
      record { equation = chain.same }

-- The sum of two points of the curve is a point of the curve, whatever the prime and b are.
pub add_jacobian-OnCurve :
    (c : BitCurve) (q r : Jacobian)
    → 0 < c.p
    → OnCurve c q
    → OnCurve c r
    → OnCurve c (add_jacobian c q r)
add_jacobian-OnCurve c (x1, y1, z1) (x2, y2, z2) positive on1 on2 =
    let same = with_prime_lem c positive in
    let there : (q : Jacobian) → OnCurve c q → OnCurve (with_prime c (c.p - 1)) q =
      λ q. subst (λ k. OnCurve k q) (sym same) in
    subst (λ k. OnCurve k (add_jacobian k (x1, y1, z1) (x2, y2, z2))) same
      (sum-OnCurve c (c.p - 1) x1 y1 z1 x2 y2 z2 (there (x1, y1, z1) on1) (there (x2, y2, z2) on2))
