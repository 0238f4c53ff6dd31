-- ===== src/Chain/Merkle/Root.antt =====
-- The root as a tree: `getMerkel` against the definition row by row.
use yoin.Base.{
  ℕ, zero, suc, ◌+◌, ◌-◌, ◌/◌, ◌%◌, ◌≤◌, ◌≡◌, refl, sym, ap, ◌∙◌, true, false, List, [], ◌∷◌, ◌++◌,
  some, ◌>>=◌, ltb, if◌then◌else◌, length, length-append, get_elem?, get_elem?-append, append_assoc,
  append-nil, arith, lt→ltb, le→ltb_false,
}
use yoin.Bytes.{Bytes}
use yoin.Crypto.{Crypto, sha2_sum}
use yoin.Chain.Merkle.{merkle_row, merkle_rows, last_of, get_merkel}

-- The row above: the double hashes of the pairs, the last hash paired with itself if it is alone.
unfoldable pub pair_up : Crypto → List Bytes → List Bytes
pair_up c [] = []
pair_up c (x ∷ []) = sha2_sum c (x ++ x) ∷ []
pair_up c (x ∷ (y ∷ r)) = sha2_sum c (x ++ y) ∷ pair_up c r

-- The only hash of a row is its root, and the root of the row above is that of a longer row.
pub data IsRoot (c : Crypto) : List Bytes → Bytes → Type 0 where
  single : {x : Bytes} → IsRoot c (x ∷ []) x
  above :
      {x y r : Bytes} {xs : List Bytes}
      → IsRoot c (pair_up c (x ∷ y ∷ xs)) r
      → IsRoot c (x ∷ y ∷ xs) r

length-pair_up : (c : Crypto) (xs : List Bytes) → length (pair_up c xs) ≡ (length xs + 1) / 2
unfolding pair_up
length-pair_up c [] = refl
length-pair_up c (x ∷ []) = refl
length-pair_up c (x ∷ y ∷ r) = omega (arith, length-pair_up c r)

get_elem?-here :
    (mtr front rest : List Bytes) (x : Bytes) (n : ℕ)
    → mtr ≡ front ++ x ∷ rest
    → length front ≡ n
    → get_elem? mtr n ≡ some x
get_elem?-here mtr front rest x n e l =
    let z : n + 0 ≡ n = omega arith in
    let g = get_elem?-append front (x ∷ rest) n 0 l in rw e (rw z at g)

merkle_row-end :
    (c : Crypto) (fuel j siz i : ℕ) (mtr : List Bytes)
    → siz ≤ i
    → merkle_row c fuel mtr j siz i ≡ some mtr
unfolding merkle_row
merkle_row-end c zero j siz i mtr h = refl
merkle_row-end c (suc fuel) j siz i mtr h = rw (le→ltb_false i siz h, merkle_row)

-- The inner loop in front of `rest`, the hashes of the row that are not paired yet.
merkle_row_lem :
    (c : Crypto) (fuel j siz i : ℕ) (mtr front rest done : List Bytes)
    → mtr ≡ front ++ (rest ++ done)
    → length front ≡ j + i
    → siz ≡ i + length rest
    → length rest ≤ fuel
    → merkle_row c fuel mtr j siz i ≡ some (mtr ++ pair_up c rest)
unfolding merkle_row pair_up
merkle_row_lem c fuel j siz i mtr front [] done e lf ls h =
    merkle_row-end c fuel j siz i mtr (omega (arith, ls)) ∙ ap some (sym (append-nil mtr))
merkle_row_lem c zero j siz i mtr front (x ∷ r) done e lf ls h = absurd (omega (arith, h))
merkle_row_lem c (suc fuel) j siz i mtr front (x ∷ []) done e lf ls h =
    let t : ltb i siz ≡ true = lt→ltb i siz (omega (arith, ls)) in
    let k : ltb (i + 1) (siz - 1) ≡ false = le→ltb_false (i + 1) (siz - 1) (omega (arith, ls)) in
    let last : siz - 1 ≡ i = omega (arith, ls) in
    let a = get_elem?-here mtr front done x (j + i) e lf in
    let mtr' = mtr ++ sha2_sum c (x ++ x) ∷ [] in
    let stop = merkle_row-end c fuel j siz (i + 2) mtr' (omega (arith, ls)) in
    rw (t, merkle_row, k, last, a, stop) refl
merkle_row_lem c (suc fuel) j siz i mtr front (x ∷ y ∷ r) done e lf ls h =
    let t : ltb i siz ≡ true = lt→ltb i siz (omega (arith, ls)) in
    let k : (if ltb (i + 1) (siz - 1) then i + 1 else siz - 1) ≡ i + 1 = ground arith in
    let a = get_elem?-here mtr front (y ∷ (r ++ done)) x (j + i) e lf in
    let e₁ : mtr ≡ (front ++ x ∷ []) ++ y ∷ (r ++ done) =
      e ∙ sym (append_assoc front (x ∷ []) (y ∷ (r ++ done))) in
    let b =
      get_elem?-here mtr (front ++ x ∷ []) (r ++ done) y (j + (i + 1)) e₁
        (omega (arith, length-append front (x ∷ []), lf)) in
    let pair = sha2_sum c (x ++ y) in
    let mtr' = mtr ++ pair ∷ [] in
    let e₂ : mtr' ≡ (front ++ x ∷ y ∷ []) ++ (r ++ (done ++ pair ∷ [])) =
      rw e (simp append_assoc) in
    let rest =
      merkle_row_lem c fuel j siz (i + 2) mtr' (front ++ x ∷ y ∷ []) r (done ++ pair ∷ []) e₂
        (omega (arith, length-append front (x ∷ y ∷ []), lf)) (omega (arith, ls))
        (omega (arith, h)) in
    rw (t, merkle_row, k, a, b, rest) (ap some (append_assoc mtr (pair ∷ []) (pair_up c r)))

last_of-append : (front : List Bytes) (x : Bytes) → last_of (front ++ x ∷ []) ≡ some x
unfolding last_of
last_of-append [] x = refl
last_of-append (y ∷ []) x = refl
last_of-append (y ∷ z ∷ front) x = last_of-append (z ∷ front) x

-- The outer loop in front of a row that stands at the end.
merkle_rows_lem :
    (c : Crypto) (fuel j : ℕ) (front : List Bytes) (x : Bytes) (xs : List Bytes)
    → length front ≡ j
    → length (x ∷ xs) ≤ fuel
    → (r : Bytes) × ((merkle_rows c fuel (front ++ x ∷ xs) j (length (x ∷ xs)) >>= last_of)
        ≡ some r)
      × IsRoot c (x ∷ xs) r
unfolding merkle_rows pair_up
merkle_rows_lem c zero j front x xs lf h = absurd (omega (arith, h))
merkle_rows_lem c (suc fuel) j front x [] lf h = (x, last_of-append front x, single)
merkle_rows_lem c (suc fuel) j front x (y ∷ xs) lf h =
    let siz = length (x ∷ y ∷ xs) in
    let mtr = front ++ x ∷ y ∷ xs in
    let t : ltb 1 siz ≡ true = lt→ltb 1 siz (omega arith) in
    let e : mtr ≡ front ++ ((x ∷ y ∷ xs) ++ []) =
      ap (λ l. front ++ l) (sym (append-nil (x ∷ y ∷ xs))) in
    let row =
      merkle_row_lem c siz j siz 0 mtr front (x ∷ y ∷ xs) [] e (omega (arith, lf)) (omega arith)
        (omega arith) in
    let up = length-pair_up c (x ∷ y ∷ xs) in
    let (r, found, root) =
      merkle_rows_lem c fuel (j + siz) mtr (sha2_sum c (x ++ y)) (pair_up c xs)
        (omega (arith, length-append front (x ∷ y ∷ xs), lf)) (omega (arith, up, h)) in
    let found' = rw up at found in (r, rw (merkle_rows, t, row) found', above root)

-- For any row of hashes that is not empty `getMerkel` returns its root.
pub get_merkel_lem :
    (c : Crypto) (x : Bytes) (xs : List Bytes)
    → (r : Bytes) × (get_merkel c (x ∷ xs) ≡ some r) × IsRoot c (x ∷ xs) r
unfolding get_merkel
get_merkel_lem c x xs = merkle_rows_lem c (length (x ∷ xs)) 0 [] x xs refl (omega arith)

pub one_root : {c : Crypto} {xs : List Bytes} {r s : Bytes} → IsRoot c xs r → IsRoot c xs s → r ≡ s
one_root single single = refl
one_root (above p) (above q) = one_root p q

pair_up-duplicate :
    (c : Crypto) (xs : List Bytes) (x : Bytes)
    → length xs % 2 ≡ 0
    → pair_up c (xs ++ x ∷ []) ≡ pair_up c (xs ++ x ∷ x ∷ [])
unfolding pair_up
pair_up-duplicate c [] x h = refl
pair_up-duplicate c (y ∷ []) x h = absurd (omega (arith, h))
pair_up-duplicate c (y ∷ z ∷ ys) x h =
    ap (λ l. sha2_sum c (y ++ z) ∷ l) (pair_up-duplicate c ys x (omega (arith, h)))

below :
    {c : Crypto} {x y r : Bytes} {xs : List Bytes}
    → IsRoot c (x ∷ y ∷ xs) r
    → IsRoot c (pair_up c (x ∷ y ∷ xs)) r
below (above p) = p

-- A row of three hashes or more, of odd length, has the same root as the row with its last hash
-- written twice.
pub get_merkel-duplicate :
    (c : Crypto) (xs : List Bytes) (x : Bytes)
    → length xs % 2 ≡ 0
    → 2 ≤ length xs
    → get_merkel c (xs ++ x ∷ []) ≡ get_merkel c (xs ++ x ∷ x ∷ [])
get_merkel-duplicate c [] x even some_pair = absurd (omega (arith, some_pair))
get_merkel-duplicate c (y ∷ []) x even some_pair = absurd (omega (arith, even))
get_merkel-duplicate c (y ∷ z ∷ ys) x even some_pair =
    let (r, e, p) = get_merkel_lem c y (z ∷ ys ++ x ∷ []) in
    let (s, f, q) = get_merkel_lem c y (z ∷ ys ++ x ∷ x ∷ []) in
    let same = pair_up-duplicate c (y ∷ z ∷ ys) x even in
    e ∙ ap some (one_root (rw same at (below p)) (below q)) ∙ sym f
