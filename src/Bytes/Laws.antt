-- ===== src/Bytes/Laws.antt =====
-- Laws of the byte slices: reading back what was written, and slices of a concatenation.
use Prim.Native.Nat.add
use mathlib.Core.Option.{some-injective}
use native.Mathlib.Nat.{pow-suc}
use yoin.Base.{
  ℕ, zero, suc, ◌+◌, ◌-◌, ◌*◌, ◌/◌, ◌%◌, ◌^◌, ◌≤◌, ◌<◌, ◌≡◌, refl, sym, ap, ◌∙◌, ◌↔◌, true, [], ◌∷◌,
  ◌++◌, some, All, arith, length, le→ltb_false, Option-cases, inl, inr,
}
use yoin.Bytes.{Bytes, IsByte, le_bytes, le_value, from?, prefix?, slice?, bytes_equal}

pub length-le_bytes : (k v : ℕ) → length (le_bytes k v) ≡ k
unfolding le_bytes
length-le_bytes zero v = refl
length-le_bytes (suc k) v = ap suc (length-le_bytes k (v / 256))

pub le_value-le_bytes : (k v : ℕ) → v < 256 ^ k → le_value (le_bytes k v) ≡ v
unfolding le_bytes le_value
le_value-le_bytes zero v h = omega arith
le_value-le_bytes (suc k) v h =
    omega (arith, le_value-le_bytes k (v / 256) (omega (arith, pow-suc 256 k)))

pub le_bytes-IsByte : (k v : ℕ) → All IsByte (le_bytes k v)
unfolding le_bytes
le_bytes-IsByte zero v = tt
le_bytes-IsByte (suc k) v = (omega arith, le_bytes-IsByte k (v / 256))

pub le_value-lt : (b : Bytes) → All IsByte b → le_value b < 256 ^ length b
unfolding le_value
le_value-lt [] h = omega arith
le_value-lt (x ∷ b) (hx, hb) = omega (arith, le_value-lt b hb, pow-suc 256 (length b))

-- Writing the value of k bytes gives the bytes back.
pub le_bytes-le_value : (b : Bytes) → All IsByte b → le_bytes (length b) (le_value b) ≡ b
unfolding le_bytes le_value
le_bytes-le_value [] h = refl
le_bytes-le_value (x ∷ b) (hx, hb) =
    let r : (x + 256 * le_value b) % 256 ≡ x = omega arith in
    let q : (x + 256 * le_value b) / 256 ≡ le_value b = omega arith in
    rw (r, q, le_bytes-le_value b hb)

pub from?-length-append : (p r : Bytes) → from? (length p) (p ++ r) ≡ some r
unfolding from?
from?-length-append [] r = refl
from?-length-append (x ∷ p) r = from?-length-append p r

pub prefix?-length-append : (p r : Bytes) → prefix? (length p) (p ++ r) ≡ some p
unfolding prefix?
prefix?-length-append [] r = refl
prefix?-length-append (x ∷ p) r = rw (prefix?-length-append p r)

-- What stands at offset `n` behind what stands at offset `o`.
pub from?-add : (o n : ℕ) (b r : Bytes) → from? o b ≡ some r → from? (o + n) b ≡ from? n r
unfolding from?
from?-add zero n b r h = rw (add.zero, some-injective _ _ h)
from?-add (suc o) n [] r h = cc
from?-add (suc o) n (x ∷ b) r h = rw add.suc (from?-add o n b r h)

pub slice?-at : (o n : ℕ) (b r : Bytes) → from? o b ≡ some r → slice? b o (o + n) ≡ prefix? n r
unfolding slice?
slice?-at o n b r h =
    let e : o + n - o ≡ n = omega arith in rw (h, le→ltb_false (o + n) o (omega arith), e)

pub prefix?-append : (n : ℕ) (p r : Bytes) → length p ≡ n → prefix? n (p ++ r) ≡ some p
prefix?-append n p r h = rw (← h) (prefix?-length-append p r)

pub from?-append : (n : ℕ) (p r : Bytes) → length p ≡ n → from? n (p ++ r) ≡ some r
from?-append n p r h = rw (← h) (from?-length-append p r)

pub length-from? : (n : ℕ) (b r : Bytes) → from? n b ≡ some r → length b ≡ n + length r
unfolding from?
length-from? zero b r h = omega (arith, ap length (some-injective _ _ h))
length-from? (suc n) [] r h = cc
length-from? (suc n) (x ∷ b) r h = omega (arith, length-from? n b r h)

pub length-prefix? : (n : ℕ) (b p : Bytes) → prefix? n b ≡ some p → length p ≡ n
unfolding prefix?
length-prefix? zero b p h = omega (arith, ap length (some-injective _ _ h))
length-prefix? (suc n) [] p h = cc
length-prefix? (suc n) (x ∷ b) p h = elim (Option-cases (prefix? n b)) [
  | inl e ↦ cc
  | inr (q, e) ↦
      let h' : some (x ∷ q) ≡ some p = rw e at h in
      omega (arith, ap length (some-injective _ _ h'), length-prefix? n b q e)
]

pub prefix?-le : (n : ℕ) (b p : Bytes) → prefix? n b ≡ some p → n ≤ length b
unfolding prefix?
prefix?-le zero b p h = omega arith
prefix?-le (suc n) [] p h = cc
prefix?-le (suc n) (x ∷ b) p h = elim (Option-cases (prefix? n b)) [
  | inl e ↦ cc
  | inr (q, e) ↦ omega (arith, prefix?-le n b q e)
]

pub bytes_equal_iff : (a b : Bytes) → (bytes_equal a b ≡ true) ↔ (a ≡ b)
unfolding bytes_equal
bytes_equal_iff [] [] = (λ _. refl, λ _. refl)
bytes_equal_iff [] (y ∷ ys) = (λ h. cc, λ h. cc)
bytes_equal_iff (x ∷ xs) [] = (λ h. cc, λ h. cc)
bytes_equal_iff (x ∷ xs) (y ∷ ys) = let ih = bytes_equal_iff xs ys in ground (arith, ih)

pub bytes_equal_refl : (a : Bytes) → bytes_equal a a ≡ true
bytes_equal_refl a = (bytes_equal_iff a a).1 refl

-- A reader that stands at offset `o` in front of `p`, a field of n bytes: what it cuts out, and
-- where it stands afterwards.
module _ (o n : ℕ) (b p r : Bytes) (here : from? o b ≡ some (p ++ r)) (len : length p ≡ n) where
  pub slice?-field : slice? b o (o + n) ≡ some p
  slice?-field = slice?-at o n b (p ++ r) here ∙ prefix?-append n p r len

  pub from?-field : from? (o + n) b ≡ some r
  from?-field = from?-add o n b (p ++ r) here ∙ from?-append n p r len

pub slice?-bounds :
    (o n : ℕ) (b v : Bytes) → slice? b o (o + n) ≡ some v → (length v ≡ n) × (o + n ≤ length b)
slice?-bounds o n b v h = elim (Option-cases (from? o b)) [
  | inl e ↦ unfold slice? in cc
  | inr (r, e) ↦
      let h' : prefix? n r ≡ some v = sym (slice?-at o n b r e) ∙ h in
      (length-prefix? n r v h', omega (arith, length-from? o b r e, prefix?-le n r v h'))
]
