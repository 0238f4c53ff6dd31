-- ===== src/Qdb/Store/AssocList.antt =====
-- A store of the documented behaviour, for the examples: a list of the records, the latest first.
use mathlib.Core.Option.{some-injective}
use yoin.Base.{
  ℕ, ◌≡◌, refl, ap, ◌∙◌, false, List, [], ◌∷◌, Option, none, some, ◌==◌, if◌then◌else◌, inl, inr,
  Bool-cases, arith,
}
use yoin.Bytes.{Bytes}
use yoin.Qdb.Store.{Kv, KvLaws, AllStored, Visits}

abbrev pub Records : Type 0
Records = List (ℕ × Bytes)

abbrev pub lookup : Records → ℕ → Option Bytes
lookup [] k = none
lookup ((j, v) ∷ d) k = if k == j then some v else lookup d k

abbrev delete : Records → ℕ → Records
delete [] k = []
delete ((j, v) ∷ d) k = let r = delete d k in if j == k then r else (j, v) ∷ r

abbrev with_value : ℕ → Option Bytes → Records → Records
with_value j none r = r
with_value j (some w) r = (j, w) ∷ r

-- The current record of every key in `d`.
abbrev current : Records → Records → Records
current all [] = []
current all ((j, v) ∷ d) = with_value j (lookup all j) (current all d)

abbrev pub assoc_kv : Kv
assoc_kv = record {
  Db = Records;
  get = lookup;
  put = λ d k v. (k, v) ∷ d;
  del = delete;
  browse = λ d. current d d;
}

lookup-delete :
    (d : Records) (k j : ℕ) → lookup (delete d k) j ≡ (if j == k then none else lookup d j)
lookup-delete [] k j = elim (Bool-cases (j == k)) [ inl e ↦ rw e refl | inr e ↦ rw e refl ]
lookup-delete ((i, v) ∷ d) k j = elim (Bool-cases (i == k)) [
  | inl e ↦ elim (Bool-cases (j == k)) [
    | inl e' ↦ rw (e, lookup-delete d k j, e') refl
    | inr e' ↦
        let other : (j == i) ≡ false = ground (arith, e, e') in
        rw (e, lookup-delete d k j, e', other) refl
  ]
  | inr e ↦ elim (Bool-cases (j == k)) [
    | inl e' ↦
        let other : (j == i) ≡ false = ground (arith, e, e') in
        rw (e, e', other, lookup-delete d k j, e') refl
    | inr e' ↦ rw (e, e', lookup-delete d k j, e') refl
  ]
]

with_value-AllStored :
    (all : Records) (j : ℕ) (o : Option Bytes) (r : Records)
    → lookup all j ≡ o
    → AllStored assoc_kv all r
    → AllStored assoc_kv all (with_value j o r)
with_value-AllStored all j none r e h = h
with_value-AllStored all j (some w) r e h = (e, h)

current-AllStored : (all d : Records) → AllStored assoc_kv all (current all d)
current-AllStored all [] = tt
current-AllStored all ((j, v) ∷ d) =
    with_value-AllStored all j (lookup all j) (current all d) refl (current-AllStored all d)

with_value-Visits :
    (k j : ℕ) (v : Bytes) (o : Option Bytes) (r : Records)
    → Visits k v r
    → Visits k v (with_value j o r)
with_value-Visits k j v none r h = h
with_value-Visits k j v (some w) r h = inr h

Visits-with_value :
    (k j : ℕ) (v : Bytes) (o : Option Bytes) (r : Records)
    → j ≡ k
    → o ≡ some v
    → Visits k v (with_value j o r)
Visits-with_value k j v none r e h = absurd cc
Visits-with_value k j v (some w) r e h = inl (e, some-injective _ _ h)

Visits-current :
    (all d : Records) (k : ℕ) (v w : Bytes)
    → lookup all k ≡ some v
    → lookup d k ≡ some w
    → Visits k v (current all d)
Visits-current all [] k v w h h' = absurd cc
Visits-current all ((j, x) ∷ d) k v w h h' = elim (Bool-cases (k == j)) [
  | inl e ↦
      let e' : j ≡ k = ground (arith, e) in
      Visits-with_value k j v (lookup all j) (current all d) e' (ap (lookup all) e' ∙ h)
  | inr e ↦
      let h'' : lookup d k ≡ some w = rw e at h' in
      with_value-Visits k j v (lookup all j) (current all d) (Visits-current all d k v w h h'')
]

pub assoc_laws : KvLaws assoc_kv
assoc_laws = record {
  get_put = λ d k v j. refl;
  get_del = lookup-delete;
  browse_stored = λ d. current-AllStored d d;
  browse_complete = λ d k v h. Visits-current d d k v v h h;
}
