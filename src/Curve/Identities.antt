-- ===== src/Curve/Identities.antt =====
-- The polynomial identities behind the formulas for a sum, modulo P = κ + 1.
use yoin.Base.{ℕ, ◌+◌, ◌*◌, arith}
use yoin.Curve.Field.{Cong, cong_of, cong_refl, cong_sym, ◌then◌, cong-add, cong-mul}

-- The identities behind the formulas, for U and S of the first point and the differences H and R.
abbrev pub W : ℕ → ℕ → ℕ → ℕ → ℕ
W κ U H R = 3 * (U * (H * H)) + H * H * H + κ * (R * R)

abbrev pub X : ℕ → ℕ → ℕ → ℕ → ℕ
X κ U H R =
    R * 2 * (R * 2)
    + κ * (H * (H * 2 * (H * 2)))
    + κ * (U * (H * 2 * (H * 2)))
    + κ * (U * (H * 2 * (H * 2)))

pub y_identity :
    (κ U S H R : ℕ)
    → Cong κ
        (R * 2 * (U * (H * 2 * (H * 2)) + κ * X κ U H R) + κ * (S * (H * (H * 2 * (H * 2))) * 2))
        (8 * (R * W κ U H R + κ * (S * (H * H * H))))
y_identity κ U S H R =
    cong_of _ _ (8 * H * H * H * R + 16 * H * H * R * U)
      (8 * H * H * H * R * κ + 16 * H * H * R * U * κ) (omega arith)

pub square_identity :
    (κ U S H R V : ℕ)
    → Cong κ (8 * (R * V + κ * (S * (H * H * H))) * (8 * (R * V + κ * (S * (H * H * H))))) (
        64
        * (R * R * (V * V)
            + κ * (2 * (S * R)) * (H * H * H * V)
            + S * S * (H * H * H * (H * H * H))))
square_identity κ U S H R V =
    cong_of _ _ (64 * H * H * H * H * H * H * S * S) (64 * H * H * H * H * H * H * S * S * κ)
      (omega arith)

pub add_identity :
    (κ U H R w : ℕ)
    → Cong κ
        (64
          * (R * R * (W κ U H R * W κ U H R)
              + κ
                * (3 * (U * U * H) + 3 * (U * (H * H)) + H * H * H + κ * (R * R))
                * (H * H * H * W κ U H R)
              + (U * U * U + w) * (H * H * H * (H * H * H))))
        (X κ U H R * X κ U H R * X κ U H R + 64 * (H * H * (H * H) * (H * H)) * w)
add_identity κ U H R w =
    cong_of _ _
      (64 * R * R * R * R * R * R
        + 64 * H * H * H * R * R * R * R * κ
        + 64 * H * H * H * H * H * H * R * R * κ
        + 384 * H * H * H * H * H * R * R * U * κ
        + 576 * H * H * H * H * R * R * U * U * κ
        + 64 * H * H * H * H * H * H * H * H * H * κ * κ
        + 384 * H * H * H * H * H * H * H * H * U * κ * κ
        + 768 * H * H * H * H * H * H * H * U * U * κ * κ
        + 512 * H * H * H * H * H * H * U * U * U * κ * κ)
      (64 * R * R * R * R * R * R * κ
        + 64 * H * H * H * H * H * H * R * R
        + 384 * H * H * H * H * H * R * R * U
        + 576 * H * H * H * H * R * R * U * U
        + 64 * H * H * H * H * H * H * U * U * U
        + 64 * H * H * H * R * R * R * R * κ * κ
        + 64 * H * H * H * H * H * H * H * H * H * κ
        + 384 * H * H * H * H * H * H * H * H * U * κ
        + 768 * H * H * H * H * H * H * H * U * U * κ
        + 512 * H * H * H * H * H * H * U * U * U * κ)
      (omega arith)

-- `S1` and `U1` of the formulas: a point on the curve, scaled by the other point's z.
pub scaled :
    (κ b x y z t s u : ℕ)
    → Cong κ (y * y) (x * x * x + b * (z * z * z * (z * z * z)))
    → Cong κ s (y * t * (t * t))
    → Cong κ u (x * (t * t))
    → Cong κ (s * s) (u * u * u + b * (z * t * (z * t) * (z * t) * (z * t * (z * t) * (z * t))))
scaled κ b x y z t s u on at_s at_u =
    let t6 = t * t * t * (t * t * t) in
    let w = b * (z * t * (z * t) * (z * t) * (z * t * (z * t) * (z * t))) in
    cong-mul at_s at_s
    then cong_of (y * t * (t * t) * (y * t * (t * t))) (y * y * t6) 0 0 (omega arith)
    then cong-mul on (cong_refl t6)
    then cong_of ((x * x * x + b * (z * z * z * (z * z * z))) * t6)
        (x * (t * t) * (x * (t * t)) * (x * (t * t)) + w) 0 0 (omega arith)
    then cong_sym (cong-add (cong-mul (cong-mul at_u at_u) at_u) (cong_refl w))

-- The difference of two points' equations.
pub difference :
    (κ U S u2 s2 H R w : ℕ)
    → Cong κ (S * S) (U * U * U + w)
    → Cong κ (s2 * s2) (u2 * u2 * u2 + w)
    → Cong κ u2 (U + H)
    → Cong κ s2 (S + R)
    → Cong κ (2 * (S * R)) (3 * (U * U * H) + 3 * (U * (H * H)) + H * H * H + κ * (R * R))
difference κ U S u2 s2 H R w on1 on2 at_u at_s =
    let more = cong_refl (κ * (S * S) + κ * (R * R)) in
    let sum = U + H in
    cong_of (2 * (S * R)) ((S + R) * (S + R) + (κ * (S * S) + κ * (R * R))) (S * S + R * R) 0
      (omega arith)
    then cong-add (cong_sym (cong-mul at_s at_s)) more
    then cong-add on2 more
    then cong-add (cong-add (cong-mul (cong-mul at_u at_u) at_u) (cong_refl w))
        (cong-add (cong-mul (cong_refl κ) on1) (cong_refl (κ * (R * R))))
    then cong_of (sum * sum * sum + w + (κ * (U * U * U + w) + κ * (R * R)))
        (3 * (U * U * H) + 3 * (U * (H * H)) + H * H * H + κ * (R * R)) 0 (U * U * U + w)
        (omega arith)

pub z_identity :
    (κ a b h : ℕ) → Cong κ (((a + b) * (a + b) + κ * (a * a) + κ * (b * b)) * h) (2 * (h * (a * b)))
z_identity κ a b h = cong_of _ _ 0 ((a * a + b * b) * h) (omega arith)
