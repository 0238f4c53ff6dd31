-- ===== src/Base/Slices.antt =====
-- Parts of concatenated lists.
use Prim.Native.Nat.{ℕ, zero, suc, ◌-◌, ◌≤◌}
use mathlib.Core.Path.{◌≡◌, refl, ap}
use mathlib.Core.List.{List, [], ◌∷◌, ◌++◌}
use native.Mathlib.Omega.{arith}
use yoin.Base.Lists.{length, take, drop}

pub take-append {ℓ} : {A : Type ℓ} (n : ℕ) (p r : List A) → length p ≡ n → take n (p ++ r) ≡ p
take-append zero [] r h = refl
take-append zero (x ∷ p) r h = absurd (omega (arith, h))
take-append (suc n) [] r h = absurd (omega (arith, h))
take-append (suc n) (x ∷ p) r h = ap (λ t. x ∷ t) (take-append n p r (omega (arith, h)))

pub drop-append {ℓ} : {A : Type ℓ} (n : ℕ) (p r : List A) → length p ≡ n → drop n (p ++ r) ≡ r
drop-append zero [] r h = refl
drop-append zero (x ∷ p) r h = absurd (omega (arith, h))
drop-append (suc n) [] r h = absurd (omega (arith, h))
drop-append (suc n) (x ∷ p) r h = drop-append n p r (omega (arith, h))

pub take_all {ℓ} : {A : Type ℓ} (n : ℕ) (b : List A) → length b ≤ n → take n b ≡ b
take_all zero [] h = refl
take_all zero (x ∷ b) h = absurd (omega (arith, h))
take_all (suc n) [] h = refl
take_all (suc n) (x ∷ b) h = ap (λ t. x ∷ t) (take_all n b (omega (arith, h)))

pub take-append-le {ℓ} :
    {A : Type ℓ} (n : ℕ) (b r : List A) → n ≤ length b → take n (b ++ r) ≡ take n b
take-append-le zero b r h = refl
take-append-le (suc n) [] r h = absurd (omega (arith, h))
take-append-le (suc n) (x ∷ b) r h = ap (λ t. x ∷ t) (take-append-le n b r (omega (arith, h)))

pub drop-append-le {ℓ} :
    {A : Type ℓ} (n : ℕ) (b r : List A) → n ≤ length b → drop n (b ++ r) ≡ drop n b ++ r
drop-append-le zero b r h = refl
drop-append-le (suc n) [] r h = absurd (omega (arith, h))
drop-append-le (suc n) (x ∷ b) r h = drop-append-le n b r (omega (arith, h))

pub length-drop {ℓ} : {A : Type ℓ} (n : ℕ) (b : List A) → length (drop n b) ≡ length b - n
length-drop zero b = omega arith
length-drop (suc n) [] = omega arith
length-drop (suc n) (x ∷ b) = omega (arith, length-drop n b)

pub drop_all {ℓ} : {A : Type ℓ} (n : ℕ) (b : List A) → length b ≤ n → drop n b ≡ []
drop_all zero [] h = refl
drop_all zero (x ∷ b) h = absurd (omega (arith, h))
drop_all (suc n) [] h = refl
drop_all (suc n) (x ∷ b) h = drop_all n b (omega (arith, h))

pub length-take {ℓ} : {A : Type ℓ} (n : ℕ) (b : List A) → n ≤ length b → length (take n b) ≡ n
length-take zero b h = refl
length-take (suc n) [] h = absurd (omega (arith, h))
length-take (suc n) (x ∷ b) h = ap suc (length-take n b (omega (arith, h)))
