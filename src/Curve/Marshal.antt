-- ===== src/Curve/Marshal.antt =====
-- The uncompressed form of a point.
use native.Mathlib.Nat.{pow-suc}
use yoin.Base.{
  ℕ, zero, suc, ◌+◌, ◌-◌, ◌*◌, ◌/◌, ◌%◌, ◌^◌, ◌≤◌, ◌<◌, ◌≡◌, refl, sym, ap, ◌∙◌, false, [], ◌∷◌,
  ◌++◌, some, ◌>>=◌, ltb, ◌==◌, length, replicate, append-nil, append_assoc, length-append,
  length-replicate, Bool-cases, inl, inr, ==_iff, le→ltb_false, ==_refl, arith,
}
use yoin.Bytes.{Bytes, be_value, be_value_from}
use yoin.Bytes.Laws.{prefix?-append, from?-append}
use yoin.Base58.{big_bytes}
use yoin.Curve.{BitCurve, overwrite, copy_at, byte_len, marshal, unmarshal}

-- `SetBytes` undoes `Bytes`.
pub be_value_from-big_bytes :
    (fuel n : ℕ) (acc : Bytes)
    → n ≤ fuel
    → be_value_from 0 (big_bytes fuel n acc) ≡ be_value_from n acc
unfolding big_bytes
be_value_from-big_bytes zero n acc le = ap (λ m. be_value_from m acc) (omega (arith, le))
be_value_from-big_bytes (suc fuel) n acc le = elim (Bool-cases (n == 0)) [
  | inl e ↦ rw e (ap (λ m. be_value_from m acc) (sym ((==_iff n 0).0 e)))
  | inr e ↦
      let joined : n / 256 * 256 + n % 256 ≡ n = omega arith in
      rw e (
        be_value_from-big_bytes fuel (n / 256) (n % 256 ∷ acc) (ground (arith, le, e))
        ∙ unfold be_value_from in ap (λ m. be_value_from m acc) joined)
]

length-big_bytes :
    (d fuel n : ℕ) (acc : Bytes) → n < 256 ^ d → length (big_bytes fuel n acc) ≤ d + length acc
unfolding big_bytes
length-big_bytes d zero n acc lt = omega arith
length-big_bytes zero (suc fuel) n acc lt =
    let none_left : n ≡ 0 = omega (arith, lt) in rw none_left (omega arith)
length-big_bytes (suc d) (suc fuel) n acc lt = elim (Bool-cases (n == 0)) [
  | inl e ↦ rw e (omega arith)
  | inr e ↦
      let smaller : n / 256 < 256 ^ d = omega (arith, lt, pow-suc 256 d) in
      rw e (omega (arith, length-big_bytes d fuel (n / 256) (n % 256 ∷ acc) smaller))
]

-- Zeros in front do not count.
be_value_from-zeros : (n : ℕ) (b : Bytes) → be_value_from 0 (replicate n 0 ++ b) ≡ be_value_from 0 b
unfolding be_value_from
be_value_from-zeros zero b = refl
be_value_from-zeros (suc n) b = be_value_from-zeros n b

overwrite-append :
    (src old rest : Bytes) → length src ≡ length old → overwrite src (old ++ rest) ≡ src ++ rest
unfolding overwrite
overwrite-append [] [] rest e = refl
overwrite-append [] (d ∷ old) rest e = absurd (omega (arith, e))
overwrite-append (s ∷ src) [] rest e = absurd (omega (arith, e))
overwrite-append (s ∷ src) (d ∷ old) rest e =
    ap (λ t. s ∷ t) (overwrite-append src old rest (omega (arith, e)))

copy_at_lem :
    (at : ℕ) (src front old rest dst : Bytes)
    → dst ≡ front ++ (old ++ rest)
    → length front ≡ at
    → length src ≡ length old
    → copy_at at src dst ≡ some (front ++ (src ++ rest))
unfolding copy_at
copy_at_lem at src front old rest dst e placed fits =
    rw (e, prefix?-append at front (old ++ rest) placed, from?-append at front (old ++ rest) placed)
      (ap (λ t. some (front ++ t)) (overwrite-append src old rest fits))

replicate_add : (a b n : ℕ) → n ≡ a + b → replicate {A = ℕ} n 0 ≡ replicate a 0 ++ replicate b 0
replicate_add zero b n e = ap (λ m. replicate {A = ℕ} m 0) (omega (arith, e))
replicate_add (suc a) b zero e = absurd (omega (arith, e))
replicate_add (suc a) b (suc n) e = ap (λ t. 0 ∷ t) (replicate_add a b n (omega (arith, e)))

-- A number in a field of a fixed width.
abbrev pub padded : ℕ → ℕ → Bytes
padded width n = let b = big_bytes n n [] in replicate (width - length b) 0 ++ b

pub length-big : (width n : ℕ) → n < 256 ^ width → length (big_bytes n n []) ≤ width
length-big width n lt = omega (arith, length-big_bytes width n n [] lt)

pub length-padded : (width n : ℕ) → n < 256 ^ width → length (padded width n) ≡ width
length-padded width n lt =
    length-append (replicate (width - length (big_bytes n n [])) 0) (big_bytes n n [])
    ∙ omega (
      arith,
      length-replicate {A = ℕ} (width - length (big_bytes n n [])) 0,
      length-big width n lt,
    )

pub be_value-padded : (width n : ℕ) → be_value (padded width n) ≡ n
unfolding be_value
be_value-padded width n =
    be_value_from-zeros (width - length (big_bytes n n [])) (big_bytes n n [])
    ∙ (be_value_from-big_bytes n n [] (omega arith) ∙ unfold be_value_from in refl)

module _ (c : BitCurve) (x y : ℕ) (xl : x < 256 ^ byte_len c) (yl : y < 256 ^ byte_len c) where
  abbrev pub w : ℕ
  w = byte_len c

  abbrev pub lx : ℕ
  lx = length (big_bytes x x [])

  abbrev pub ly : ℕ
  ly = length (big_bytes y y [])

  pub first_copy :
      copy_at (1 + w - lx) (big_bytes x x []) (4 ∷ replicate (2 * w) 0)
      ≡ some ((4 ∷ padded w x) ++ replicate w 0)
  first_copy =
      let fits = length-big w x xl in
      let room : replicate {A = ℕ} (2 * w) 0
          ≡ replicate (w - lx) 0 ++ (replicate lx 0 ++ replicate w 0) =
        replicate_add (w - lx) (lx + w) (2 * w) (omega (arith, fits))
        ∙ ap (λ t. replicate (w - lx) 0 ++ t) (replicate_add lx w (lx + w) refl) in
      copy_at_lem (1 + w - lx) (big_bytes x x []) (4 ∷ replicate (w - lx) 0) (replicate lx 0)
        (replicate w 0) (4 ∷ replicate (2 * w) 0) (ap (λ t. 4 ∷ t) room)
        (omega (arith, length-replicate {A = ℕ} (w - lx) 0, fits))
        (sym (length-replicate {A = ℕ} lx 0))
      ∙ ap (λ t. some (4 ∷ t))
          (sym (append_assoc (replicate (w - lx) 0) (big_bytes x x []) (replicate w 0)))

  pub second_copy :
      copy_at (1 + 2 * w - ly) (big_bytes y y []) ((4 ∷ padded w x) ++ replicate w 0)
      ≡ some (4 ∷ (padded w x ++ padded w y))
  second_copy =
      let fits = length-big w y yl in
      let front = (4 ∷ padded w x) ++ replicate (w - ly) 0 in
      let room : (4 ∷ padded w x) ++ replicate w 0 ≡ front ++ (replicate ly 0 ++ []) =
        ap (λ t. (4 ∷ padded w x) ++ t) (replicate_add (w - ly) ly w (omega (arith, fits)))
        ∙ (sym (append_assoc (4 ∷ padded w x) (replicate (w - ly) 0) (replicate ly 0))
            ∙ ap (λ t. front ++ t) (sym (append-nil (replicate ly 0)))) in
      let placed : length front ≡ 1 + 2 * w - ly =
        length-append (4 ∷ padded w x) (replicate (w - ly) 0)
        ∙ omega (arith, length-padded w x xl, length-replicate {A = ℕ} (w - ly) 0, fits) in
      copy_at_lem (1 + 2 * w - ly) (big_bytes y y []) front (replicate ly 0) []
        ((4 ∷ padded w x) ++ replicate w 0) room placed (sym (length-replicate {A = ℕ} ly 0))
      ∙ ap some (
          ap (λ t. front ++ t) (append-nil (big_bytes y y []))
          ∙ append_assoc (4 ∷ padded w x) (replicate (w - ly) 0) (big_bytes y y []))

  marshal_lem : marshal c x y ≡ some (4 ∷ (padded w x ++ padded w y))
  unfolding marshal
  marshal_lem =
      let in_x : ltb (1 + w) lx ≡ false =
        le→ltb_false (1 + w) lx (omega (arith, length-big w x xl)) in
      let in_y : ltb (1 + 2 * w) ly ≡ false =
        le→ltb_false (1 + 2 * w) ly (omega (arith, length-big w y yl)) in
      rw (in_x, first_copy, in_y) second_copy

  length-marshalled : length (4 ∷ (padded w x ++ padded w y)) ≡ 1 + 2 * w
  length-marshalled =
      ap suc (length-append (padded w x) (padded w y))
      ∙ omega (arith, length-padded w x xl, length-padded w y yl)

  unmarshal-padded : unmarshal c (4 ∷ (padded w x ++ padded w y)) ≡ some (x, y)
  unfolding unmarshal
  unmarshal-padded =
      rw
        (
          length-marshalled,
          ==_refl (1 + 2 * w),
          prefix?-append w (padded w x) (padded w y) (length-padded w x xl),
          from?-append w (padded w x) (padded w y) (length-padded w x xl),
          be_value-padded w x,
          be_value-padded w y,
        )
        refl

  -- `Unmarshal` gives back the point that `Marshal` wrote, when both coordinates fit their fields;
  -- `Marshal` does not panic then.
  pub unmarshal-marshal : (marshal c x y >>= unmarshal c) ≡ some (x, y)
  unmarshal-marshal = ap (λ o. o >>= unmarshal c) marshal_lem ∙ unmarshal-padded
