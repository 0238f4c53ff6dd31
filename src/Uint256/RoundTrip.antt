-- ===== src/Uint256/RoundTrip.antt =====
-- Text and number of a hash.
use mathlib.Core.List.{reverse, reverse-reverse, reverse-cons}
use yoin.Base.{
  ℕ, ◌+◌, ◌*◌, ◌/◌, ◌%◌, ◌<◌, ◌≡◌, refl, sym, ap, ◌∙◌, Bool, true, false, none, Option-cases, inl,
  inr, [], ◌∷◌, ◌++◌, some, ◌==◌, length, ==_iff, arith, All, length-append,
}
use yoin.Bytes.{Bytes, IsByte, le_value, be_value, be_value_from}
use yoin.Base58.RoundTrip.{all_below, all_below-lt}
use yoin.Uint256.{
  hex_digit, hex_value, to_text, string, scan_hex, scan_bytes, new_uint256_from_string, big_int,
}

abbrev reads_back : ℕ → Bool
reads_back d = elim (hex_value (hex_digit d)) [ none ↦ false | some v ↦ v == d ]

all_read_back : all_below reads_back 16 ≡ true
unfolding all_below
all_read_back = refl

hex_value-hex_digit : (d : ℕ) → d < 16 → hex_value (hex_digit d) ≡ some d
hex_value-hex_digit d lt =
    let h = all_below-lt reads_back 16 d all_read_back lt in
    elim (Option-cases (hex_value (hex_digit d))) [
      | inl e ↦ let h' : false ≡ true = rw (reads_back, e) at h in absurd cc
      | inr (v, e) ↦
          let h' : (v == d) ≡ true = rw (reads_back, e) at h in e ∙ ap some ((==_iff v d).0 h')
    ]

-- Two digits give a byte whatever v was.
two_digits : (v x : ℕ) → x < 256 → scan_hex v (hex_digit (x / 16)) (hex_digit (x % 16)) ≡ x
unfolding scan_hex
two_digits v x lt =
    rw
      (
        scan_hex,
        hex_value-hex_digit (x / 16) (omega (arith, lt)),
        hex_value-hex_digit (x % 16) (omega arith),
      )
      (omega arith)

scan_bytes-to_text :
    (b : Bytes) (v : ℕ) → All IsByte b → scan_bytes (length b) v (to_text b) ≡ some b
unfolding scan_bytes
scan_bytes-to_text [] v bytes = refl
scan_bytes-to_text (x ∷ b) v bytes =
    rw (two_digits v x bytes.0, scan_bytes-to_text b x bytes.1) refl

All-append : (a b : Bytes) → All IsByte a → All IsByte b → All IsByte (a ++ b)
All-append [] b ha hb = hb
All-append (x ∷ a) b ha hb = (ha.0, All-append a b ha.1 hb)

All-reverse : (b : Bytes) → All IsByte b → All IsByte (reverse b)
All-reverse [] h = h
All-reverse (x ∷ b) h =
    rw (reverse-cons x b) (All-append (reverse b) (x ∷ []) (All-reverse b h.1) (h.0, tt))

length-reverse : (b : Bytes) → length (reverse b) ≡ length b
length-reverse [] = refl
length-reverse (x ∷ b) =
    rw (reverse-cons x b) (length-append (reverse b) (x ∷ []) ∙ omega (arith, length-reverse b))

-- Reading the text of a hash of 32 bytes gives the hash back.
pub new_uint256_from_string-string :
    (u : Bytes) → length u ≡ 32 → All IsByte u → new_uint256_from_string (string u) ≡ some u
unfolding new_uint256_from_string string
new_uint256_from_string-string u size bytes =
    let read = scan_bytes-to_text (reverse u) 0 (All-reverse u bytes) in
    let here : scan_bytes 32 0 (to_text (reverse u)) ≡ some (reverse u) =
      ap (λ n. scan_bytes n 0 (to_text (reverse u))) (sym (length-reverse u ∙ size)) ∙ read in
    rw here (ap some (reverse-reverse u))

be_value_from-append :
    (a b : Bytes) (n : ℕ) → be_value_from n (a ++ b) ≡ be_value_from (be_value_from n a) b
unfolding be_value_from
be_value_from-append [] b n = refl
be_value_from-append (x ∷ a) b n = be_value_from-append a b (n * 256 + x)

-- The number of a hash is the little-endian value of its bytes.
pub big_int_lem : (u : Bytes) → big_int u ≡ le_value u
unfolding big_int be_value be_value_from le_value
big_int_lem [] = refl
big_int_lem (x ∷ u) =
    let tail = big_int_lem u in
    rw (reverse-cons x u) (be_value_from-append (reverse u) (x ∷ []) 0 ∙ omega (arith, tail))
