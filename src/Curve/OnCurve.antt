-- ===== src/Curve/OnCurve.antt =====
-- Every point that `Add`, `Double` and `ScalarMult` give lies on the curve of the points they took.
use mathlib.Core.Path.{subst}
use mathlib.Core.Option.{some-injective}
use native.Mathlib.Nat.{mod-mod}
use yoin.Base.{
  ℕ, zero, suc, ◌+◌, ◌-◌, ◌*◌, ◌/◌, ◌%◌, ◌<◌, ◌≡◌, sym, ap, ◌∙◌, Bool, true, false, [], ◌∷◌, none,
  some, ◌==◌, if◌then◌else◌, Bool-cases, inl, inr, ==_iff, arith,
}
use yoin.Bytes.{Bytes}
use yoin.Curve.{
  BitCurve, Affine, Jacobian, is_on_curve, add_jacobian, double_jacobian, bit_step, bits_loop,
  bytes_loop, affine_from_jacobian, add, scalar_mult,
}
use yoin.Curve.Field.{Cong, cong_of, cong_refl, ◌then◌, cong-add, cong-mul}
use yoin.Curve.Doubling.{OnCurve, with_prime, with_prime_lem, double_jacobian-OnCurve}
use yoin.Curve.Adding.{add_jacobian-OnCurve}
use yoin.Curve.Identities.{scaled}

-- A point with affine coordinates, as the loops start with.
affine-OnCurve : (c : BitCurve) (x y : ℕ) → is_on_curve c x y ≡ true → OnCurve c (x, y, 1)
unfolding is_on_curve
affine-OnCurve c x y h = record {
  equation = sym ((==_iff _ _).0 h) ∙ ap (λ t. (x * x * x + t) % c.p) (omega arith);
}

module _ (c : BitCurve) (positive : 0 < c.p) (bx by : ℕ) (on : OnCurve c (bx, by, 1)) where
  bit_step-OnCurve :
      (byte : ℕ) (st : Bool × Jacobian)
      → OnCurve c (st.1)
      → OnCurve c ((bit_step c (bx, by) byte st).1)
  unfolding bit_step
  bit_step-OnCurve byte (true, q) h =
      let doubled = double_jacobian-OnCurve c q positive h in
      elim (Bool-cases (byte / 128 % 2 == 1)) [
        | inl e ↦
            rw e (add_jacobian-OnCurve c (bx, by, 1) (double_jacobian c q) positive on doubled)
        | inr e ↦ rw e doubled
      ]
  bit_step-OnCurve byte (false, q) h = elim (Bool-cases (byte / 128 % 2 == 1)) [
    | inl e ↦ rw e h
    | inr e ↦ rw e h
  ]

  bits_loop-OnCurve :
      (left byte : ℕ) (st : Bool × Jacobian)
      → OnCurve c (st.1)
      → OnCurve c ((bits_loop c (bx, by) left byte st).1)
  unfolding bits_loop
  bits_loop-OnCurve zero byte st h = h
  bits_loop-OnCurve (suc left) byte st h =
      bits_loop-OnCurve left (byte * 2 % 256) (bit_step c (bx, by) byte st)
        (bit_step-OnCurve byte st h)

  pub bytes_loop-OnCurve :
      (k : Bytes) (st : Bool × Jacobian)
      → OnCurve c (st.1)
      → OnCurve c ((bytes_loop c (bx, by) k st).1)
  unfolding bytes_loop
  bytes_loop-OnCurve [] st h = h
  bytes_loop-OnCurve (byte ∷ k) st h =
      bytes_loop-OnCurve k (bits_loop c (bx, by) 8 byte st) (bits_loop-OnCurve 8 byte st h)

module _ (c : BitCurve) (mod_inverse : ℕ → ℕ → ℕ) where
  -- `ModInverse` gives an inverse of z.
  abbrev pub Inverts : ℕ → Type 0
  Inverts z = z * mod_inverse z c.p % c.p ≡ 1 % c.p

  affine_equation :
      (κ x y z t : ℕ)
      → OnCurve (with_prime c κ) (x, y, z)
      → Cong κ (z * t) 1
      → Cong κ
          (y * (t * t * t) % suc κ * (y * (t * t * t) % suc κ))
          (x * (t * t) % suc κ * (x * (t * t) % suc κ) * (x * (t * t) % suc κ) + c.b)
  affine_equation κ x y z t on inverse =
      let u = x * (t * t) % suc κ in
      let cube = cong-mul (cong-mul inverse inverse) inverse in
      scaled κ c.b x y z t (y * (t * t * t) % suc κ) u (record { same = on.equation })
        (reduced _ then cong_of (y * (t * t * t)) (y * t * (t * t)) 0 0 (omega arith)) (reduced _)
      then cong-add (cong_refl (u * u * u)) (cong-mul (cong_refl c.b) (cong-mul cube cube))
      then cong_of (u * u * u + c.b * 1) (u * u * u + c.b) 0 0 (omega arith)
    where
      reduced : (n : ℕ) → Cong κ (n % suc κ) n
      reduced n = record { same = mod-mod n (suc κ) }

  affine_from_jacobian-is_on_curve :
      (q : Jacobian)
      → 0 < c.p
      → OnCurve c q
      → Inverts (q.2)
      → let (x, y) = affine_from_jacobian c mod_inverse q in is_on_curve c x y ≡ true
  unfolding affine_from_jacobian is_on_curve
  affine_from_jacobian-is_on_curve (x, y, z) positive on inverse =
      let t = mod_inverse z c.p in
      let e : suc (c.p - 1) ≡ c.p = omega (arith, positive) in
      let there = subst (λ k. OnCurve k (x, y, z)) (sym (with_prime_lem c positive)) on in
      let unit = subst (λ p. z * t % p ≡ 1 % p) (sym e) inverse in
      let equation =
        subst
          (λ p.
            y * (t * t * t) % p * (y * (t * t * t) % p) % p
            ≡ (x * (t * t) % p * (x * (t * t) % p) * (x * (t * t) % p) + c.b) % p)
          e (affine_equation (c.p - 1) x y z t there (record { same = unit })).same in
      (==_iff _ _).1 (sym equation)

  -- `Add` and `Double` give points of the curve, when `ModInverse` inverts the z of the Jacobian
  -- result.
  pub add-is_on_curve :
      (x1 y1 x2 y2 : ℕ)
      → 0 < c.p
      → is_on_curve c x1 y1 ≡ true
      → is_on_curve c x2 y2 ≡ true
      → Inverts ((add_jacobian c (x1, y1, 1) (x2, y2, 1)).2)
      → let (x, y) = add c mod_inverse (x1, y1) (x2, y2) in is_on_curve c x y ≡ true
  unfolding add
  add-is_on_curve x1 y1 x2 y2 positive on1 on2 inverse =
      affine_from_jacobian-is_on_curve _ positive
        (add_jacobian-OnCurve c (x1, y1, 1) (x2, y2, 1) positive (affine-OnCurve c x1 y1 on1)
          (affine-OnCurve c x2 y2 on2))
        inverse

  -- A result of `ScalarMult` for a point of the curve is on the curve, when `ModInverse` inverts the z
  -- of the Jacobian result.
  pub scalar_mult-is_on_curve :
      (bx by x y : ℕ) (k : Bytes)
      → 0 < c.p
      → is_on_curve c bx by ≡ true
      → Inverts ((bytes_loop c (bx, by) k (false, (bx, by, 1))).1.2)
      → scalar_mult c mod_inverse (bx, by) k ≡ some (x, y)
      → is_on_curve c x y ≡ true
  unfolding scalar_mult
  scalar_mult-is_on_curve bx by x y k positive on inverse h =
      let start = affine-OnCurve c bx by on in
      let st = bytes_loop c (bx, by) k (false, (bx, by, 1)) in
      taken (st.0) (affine_from_jacobian c mod_inverse (st.1)) h (
        affine_from_jacobian-is_on_curve (st.1) positive
          (bytes_loop-OnCurve c positive bx by start k (false, (bx, by, 1)) start) inverse)
    where
      taken :
          (seen : Bool) (a : Affine)
          → (if seen then some a else none) ≡ some (x, y)
          → is_on_curve c (a.0) (a.1) ≡ true
          → is_on_curve c x y ≡ true
      taken true a h on = subst (λ r. is_on_curve c (r.0) (r.1) ≡ true) (some-injective _ _ h) on
      taken false a h on = absurd cc
