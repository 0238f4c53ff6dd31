-- ===== src/Addr/Text/RoundTrip.antt =====
-- Reading the text of an address.
use yoin.Base.{
  ℕ, zero, suc, ◌-◌, ◌≡◌, refl, sym, ap, ◌∙◌, true, [], ◌∷◌, ◌++◌, none, some, ltb, ◌==◌, length,
  take, replicate, All, ==_iff, Bool-cases, inl, inr, arith, length-append, length-take,
  take-append, drop-append,
}
use yoin.Bytes.{Bytes, IsByte, bytes_equal}
use yoin.Bytes.Laws.{bytes_equal_refl}
use yoin.Crypto.{Crypto, DigestSizes, sha2_sum}
use yoin.Base58.RoundTrip.{leading_zeros, strip}
use yoin.Base58.Fits.{decodeb58-encodeb58, leading_zeros-strip}
use yoin.Addr.{BtcAddr}
use yoin.Addr.Text.{parsed, with_checksum, addr_string, fill_up, read_addr, new_addr_from_string}

zeros-strip : (a : Bytes) → replicate (leading_zeros a) 0 ++ strip a ≡ a
unfolding leading_zeros strip
zeros-strip [] = refl
zeros-strip (x ∷ a) = elim (Bool-cases (x == 0)) [
  | inl e ↦
      let none_here : x ≡ 0 = ground (arith, e) in
      rw e (ap (λ t. 0 ∷ t) (zeros-strip a) ∙ ap (λ y. y ∷ a) (sym none_here))
  | inr e ↦ rw e refl
]

fill_up-strip : (a : Bytes) → length a ≡ 25 → fill_up (strip a) ≡ a
unfolding fill_up
fill_up-strip a len =
    let size = leading_zeros-strip a in
    elim (Bool-cases (ltb (length (strip a)) 25)) [
      | inl e ↦
          let missing : 25 - length (strip a) ≡ leading_zeros a = omega (arith, size, len) in
          rw (fill_up, e, missing) (zeros-strip a)
      | inr e ↦
          let none_missing : leading_zeros a ≡ 0 = ground (arith, e, size, len) in
          rw (fill_up, e) (ap (λ n. replicate n 0 ++ strip a) (sym none_missing) ∙ zeros-strip a)
    ]

take-All : (n : ℕ) (b : Bytes) → All IsByte b → All IsByte (take n b)
take-All zero b h = tt
take-All (suc n) [] h = tt
take-All (suc n) (x ∷ b) h = (h.0, take-All n b h.1)

append-All : (a b : Bytes) → All IsByte a → All IsByte b → All IsByte (a ++ b)
append-All [] b h h' = h'
append-All (x ∷ a) b h h' = (h.0, append-All a b h.1 h')

-- Every address has a text, and reading it gives the address back, but for a public key that it holds.
pub new_addr_from_string-addr_string :
    (c : Crypto) (a : BtcAddr)
    → DigestSizes c
    → ((b : Bytes) → All IsByte (c.sha256 b))
    → IsByte a.version
    → All IsByte a.hash160
    → length a.hash160 ≡ 20
    → (s : Bytes) × (addr_string c a ≡ some s)
      × (new_addr_from_string c s ≡ parsed (record a { pub_key = none }))
unfolding addr_string new_addr_from_string with_checksum sha2_sum read_addr
new_addr_from_string-addr_string c a sizes digest version_fits hash_fits len =
    let ad = a.version ∷ a.hash160 in
    let sum = take 4 (sha2_sum c ad) in
    let ls : length sum ≡ 4 =
      let e = sizes.sha256_size (c.sha256 ad) in length-take 4 (sha2_sum c ad) (omega (arith, e)) in
    let l25 : length (ad ++ sum) ≡ 25 = omega (arith, length-append a.hash160 sum, len, ls) in
    let bytes =
      append-All ad sum (version_fits, hash_fits)
        (take-All 4 (sha2_sum c ad) (digest (c.sha256 ad))) in
    let (s, written, read) = decodeb58-encodeb58 (ad ++ sum) bytes in
    let long : (length (ad ++ sum) == 25) ≡ true = (==_iff (length (ad ++ sum)) 25).1 l25 in
    let sum_read : bytes_equal sum sum ≡ true = bytes_equal_refl sum in
    (
      s,
      written,
      rw (new_addr_from_string, read, fill_up-strip (ad ++ sum) l25)
          (rw
            (
              read_addr,
              long,
              take-append 20 a.hash160 sum len,
              drop-append 20 a.hash160 sum len,
              sum_read,
            )
            refl),
    )
