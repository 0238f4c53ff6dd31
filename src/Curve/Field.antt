-- ===== src/Curve/Field.antt =====
-- Numbers modulo P = κ + 1, where κ stands for -1: a difference is a sum with κ times a number.
use native.Mathlib.Nat.{add-mod, add-mul-mod_self_left, div-add-mod, mod-mod}
use yoin.Base.{
  ℕ, suc, ◌+◌, ◌-◌, ◌*◌, ◌/◌, ◌%◌, ◌≤◌, ◌<◌, ◌≡◌, refl, sym, ap, ◌∙◌, arith, leb, if◌then◌else◌,
  Bool-cases, inl, inr,
}
use yoin.Curve.Int.{
  ℤ, pos, negsuc, pos_part, neg_part, sub_ℕ, ◌+ℤ◌, ◌-ℤ◌, ◌*ℤ◌, mod_ℤ, add_if_negative,
}

pub record Cong (κ a b : ℕ) : Type 0 where
  pub same : a % suc κ ≡ b % suc κ

-- The number that stands for an integer.
abbrev pub rep : ℕ → ℤ → ℕ
rep κ a = pos_part a + κ * neg_part a

mul-mod : (κ a b : ℕ) → a * b % suc κ ≡ a % suc κ * (b % suc κ) % suc κ
mul-mod κ a b =
    let r = a % suc κ in
    let s = b % suc κ in
    let g = a / suc κ in
    let h = b / suc κ in
    let split : a * b ≡ (suc κ * g + r) * (suc κ * h + s) =
      ap (λ t. t * b) (sym (div-add-mod a (suc κ)))
      ∙ ap (λ t. (suc κ * g + r) * t) (sym (div-add-mod b (suc κ))) in
    let joined : a * b ≡ r * s + suc κ * (g * (suc κ * h + s) + r * h) = split ∙ expand κ g h r s in
    ap (λ t. t % suc κ) joined ∙ add-mul-mod_self_left (r * s) (suc κ) (g * (suc κ * h + s) + r * h)
  where
    expand :
        (κ g h r s : ℕ)
        → (suc κ * g + r) * (suc κ * h + s) ≡ r * s + suc κ * (g * (suc κ * h + s) + r * h)
    expand κ g h r s = omega arith

module _ {κ : ℕ} where
  pub cong_of : (a b m n : ℕ) → a + suc κ * m ≡ b + suc κ * n → Cong κ a b
  cong_of a b m n e = record {
    same =
        sym (add-mul-mod_self_left a (suc κ) m)
        ∙ (ap (λ t. t % suc κ) e ∙ add-mul-mod_self_left b (suc κ) n);
  }

  pub cong_refl : (a : ℕ) → Cong κ a a
  cong_refl a = record { same = refl }

  pub cong_sym : {a b : ℕ} → Cong κ a b → Cong κ b a
  cong_sym h = record { same = sym h.same }

  infixr 30 ◌then◌
  pub ◌then◌ : {a b c : ℕ} → Cong κ a b → Cong κ b c → Cong κ a c
  h then k = record { same = h.same ∙ k.same }

  pub cong-add : {a a' b b' : ℕ} → Cong κ a a' → Cong κ b b' → Cong κ (a + b) (a' + b')
  cong-add {a} {a'} {b} {b'} p q = record {
    same = add-mod a b (suc κ) ∙ rw (p.same, q.same) (sym (add-mod a' b' (suc κ)));
  }

  pub cong-mul : {a a' b b' : ℕ} → Cong κ a a' → Cong κ b b' → Cong κ (a * b) (a' * b')
  cong-mul {a} {a'} {b} {b'} p q = record {
    same = mul-mod κ a b ∙ rw (p.same, q.same) (sym (mul-mod κ a' b'));
  }

  rep-sub_ℕ : (a b : ℕ) → Cong κ (rep κ (sub_ℕ a b)) (a + κ * b)
  rep-sub_ℕ a b = elim (Bool-cases (leb b a)) [
    | inl e ↦ rw e (cong_of (a - b + κ * 0) (a + κ * b) b 0 (positive κ a b (ground (arith, e))))
    | inr e ↦
        rw e
          (cong_of (0 + κ * suc (b - a - 1)) (a + κ * b) a 0 (negative κ a b (ground (arith, e))))
  ]
    where
      positive : (κ a b : ℕ) → b ≤ a → a - b + κ * 0 + suc κ * b ≡ a + κ * b + suc κ * 0
      positive κ a b le = omega (arith, le)

      negative : (κ a b : ℕ) → a < b → 0 + κ * suc (b - a - 1) + suc κ * a ≡ a + κ * b + suc κ * 0
      negative κ a b lt =
          let d = b - a - 1 in
          let e : b ≡ a + suc d = omega (arith, lt) in
          ap (λ t. 0 + κ * suc d + suc κ * a) e
          ∙ (shifted κ a d ∙ ap (λ t. a + κ * t + suc κ * 0) (sym e))
        where
          shifted : (κ a d : ℕ) → 0 + κ * suc d + suc κ * a ≡ a + κ * (a + suc d) + suc κ * 0
          shifted κ a d = omega arith

-- `a` and `n` are the same modulo P.
pub record Stands (κ : ℕ) (a : ℤ) (n : ℕ) : Type 0 where
  pub cong : Cong κ (rep κ a) n

module _ {κ : ℕ} where
  pub pos-Stands : {m n : ℕ} → Cong κ m n → Stands κ (pos m) n
  pos-Stands {m} h = record { cong = cong_of (m + κ * 0) m 0 0 (omega arith) then h }

  pub Stands-cong : {a : ℤ} {m n : ℕ} → Stands κ a m → Cong κ m n → Stands κ a n
  Stands-cong h k = record { cong = h.cong then k }

  pub sub-Stands : {a b : ℤ} {m n : ℕ} → Stands κ a m → Stands κ b n → Stands κ (a -ℤ b) (m + κ * n)
  unfolding ◌-ℤ◌
  sub-Stands {a} {b} p q = record {
    cong =
        rep-sub_ℕ (pos_part a + neg_part b) (neg_part a + pos_part b)
        then cong_of _ _ (κ * neg_part b) (neg_part b) (omega arith)
        then cong-add p.cong (cong-mul (cong_refl κ) q.cong);
  }

  pub mul-Stands : {a b : ℤ} {m n : ℕ} → Stands κ a m → Stands κ b n → Stands κ (a *ℤ b) (m * n)
  unfolding ◌*ℤ◌
  mul-Stands {a} {b} p q = record {
    cong =
        rep-sub_ℕ (pos_part a * pos_part b + neg_part a * neg_part b)
          (pos_part a * neg_part b + neg_part a * pos_part b)
        then cong_of _ _ (κ * (neg_part a * neg_part b)) (neg_part a * neg_part b) (omega arith)
        then cong-mul p.cong q.cong;
  }

  pub add_if_negative-Stands :
      (a : ℤ) {n : ℕ} → Stands κ a n → Stands κ (add_if_negative a (suc κ)) n
  unfolding add_if_negative ◌+ℤ◌
  add_if_negative-Stands (pos m) h = h
  add_if_negative-Stands (negsuc m) h = record {
    cong = rep-sub_ℕ (0 + suc κ) (suc m + 0) then cong_of _ _ 0 1 (omega arith) then h.cong;
  }

  pub mod-Stands : (a : ℤ) {n : ℕ} → Stands κ a n → Cong κ (mod_ℤ a (suc κ)) n
  unfolding mod_ℤ
  mod-Stands (pos m) h =
      record { same = mod-mod m (suc κ) } then cong_of m (m + κ * 0) 0 0 (omega arith) then h.cong
  mod-Stands (negsuc m) h =
      cong_of _ _ (κ * (m / suc κ) + m % suc κ) 0
        (expand κ m (m / suc κ) (m % suc κ) (sym (div-add-mod m (suc κ))) (omega arith))
      then h.cong
    where
      expand :
          (κ m q r : ℕ)
          → m ≡ suc κ * q + r
          → r ≤ κ
          → suc κ - 1 - r + suc κ * (κ * q + r) ≡ 0 + κ * suc m + suc κ * 0
      expand κ m q r e le = rw e (small κ q r (κ - r) (omega (arith, le)))
        where
          small :
              (κ q r d : ℕ)
              → κ ≡ d + r
              → suc κ - 1 - r + suc κ * (κ * q + r) ≡ 0 + κ * suc (suc κ * q + r) + suc κ * 0
          small κ q r d e = rw e (omega arith)
