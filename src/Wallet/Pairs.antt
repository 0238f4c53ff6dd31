-- ===== src/Wallet/Pairs.antt =====
-- wallet/wallet.go: the key pairs that `make_wallet` makes with uncompressed public keys.
use yoin.Base.{
  ℕ, zero, suc, ◌^◌, ◌<◌, ◌≡◌, refl, Bool, true, false, List, [], ◌∷◌, ◌++◌, Option, none, some,
  Option-cases, if◌then◌else◌, length, take, drop, All, Bool-cases, inl, inr, arith,
}
use yoin.Bytes.{Bytes, be_value, bytes_equal}
use yoin.Crypto.{Crypto, sha2_sum}
use yoin.Addr.{new_addr_from_pub_key}
use yoin.Curve.{Affine, secp256k1, scalar_base_mult}
use yoin.Wallet.KeyBytes.{
  scalar_base_mult-lt, long_form, length-long_form, key_bytes_lem, new_public_key-long_form,
}
use yoin.Wallet.{done, KeyPair, >>=-eq-done, or_panic-eq-done}
use yoin.Wallet.Keys.{
  key_bytes, get_pub_key, key_pair, add_pair, generate, check_version, key_form, load_other,
  load_others, make_wallet,
}
use yoin.Wallet.Spend.{Signer}
use yoin.Wallet.Inputs.{IsPair}

-- What `ecdsa.Sign` returns for a private key are two positive numbers of at most 256 bits that
-- `ecdsa.Verify` accepts with the point of this key.
abbrev pub SignsRight : Crypto → (ℕ → ℕ → ℕ) → Signer → Type 0
SignsRight c inverse sign =
    (priv : Bytes) (x y i r s : ℕ) (h : Bytes)
    → scalar_base_mult secp256k1 inverse priv ≡ some (x, y)
    → sign i (be_value priv) h ≡ some (r, s)
    → (0 < r) × (r < 256 ^ 32) × (0 < s) × (s < 256 ^ 32) × (c.ecdsa_verify x y h r s ≡ true)

module _ (c : Crypto) (inverse : ℕ → ℕ → ℕ) (sign : Signer)
    (right : SignsRight c inverse sign) where
  abbrev long_pair : ℕ → Bytes → ℕ → ℕ → KeyPair
  long_pair ver priv x y = record {
    priv_key = priv;
    publ_addr = new_addr_from_pub_key c (long_form x y) ver;
  }

  long_pair-IsPair :
      (ver : ℕ) (priv : Bytes) (x y : ℕ)
      → x < 256 ^ 32
      → y < 256 ^ 32
      → scalar_base_mult secp256k1 inverse priv ≡ some (x, y)
      → IsPair c sign (long_pair ver priv x y)
  long_pair-IsPair ver priv x y xl yl on = record {
    key = long_form x y;
    version = ver;
    made = refl;
    size = omega (arith, length-long_form x y xl yl);
    x = x;
    y = y;
    parses = new_public_key-long_form x y xl yl;
    signs = λ i r s h. right priv x y i r s h on;
  }

  is_long_pair :
      (ver : ℕ) (priv : Bytes) (x y : ℕ) {b : Bytes} {k : KeyPair}
      → x < 256 ^ 32
      → y < 256 ^ 32
      → key_bytes false x y ≡ done b
      → done (record { priv_key = priv; publ_addr = new_addr_from_pub_key c b ver }) ≡ done k
      → long_pair ver priv x y ≡ k
  is_long_pair ver priv x y xl yl e f = cc (key_bytes_lem x y xl yl)

  -- A key pair with an uncompressed key.
  key_pair-IsPair :
      (ver : ℕ) (priv : Bytes) {k : KeyPair}
      → key_pair c inverse ver priv false ≡ done k
      → IsPair c sign k
  unfolding key_pair get_pub_key
  key_pair-IsPair ver priv e =
      let (b, e₁, f₁) = >>=-eq-done (get_pub_key c inverse priv false) _ e in
      let ((x, y), e₂, f₂) = >>=-eq-done _ (λ (q : Affine). key_bytes false q.0 q.1) e₁ in
      let on = or_panic-eq-done (scalar_base_mult secp256k1 inverse priv) e₂ in
      let (xl, yl) = scalar_base_mult-lt inverse priv on in
      let xl' : x < 256 ^ 32 = omega arith in
      let yl' : y < 256 ^ 32 = omega arith in
      rw (← is_long_pair ver priv x y xl' yl' f₂ f₁) (long_pair-IsPair ver priv x y xl' yl' on)

  generate-IsPair :
      (ver n : ℕ) (seed : Bytes) (ks : List KeyPair)
      → generate c inverse ver false n seed ≡ done ks
      → All (IsPair c sign) ks
  unfolding generate
  generate-IsPair ver zero seed ks e = let same : [] ≡ ks = cc in rw (← same) tt
  generate-IsPair ver (suc n) seed ks e =
      let (k, e₁, f₁) = >>=-eq-done (key_pair c inverse ver (sha2_sum c seed) false) _ e in
      let (rest, e₂, f₂) = >>=-eq-done (generate c inverse ver false n (sha2_sum c seed)) _ f₁ in
      let same : k ∷ rest ≡ ks = cc in
      rw (← same)
        (key_pair-IsPair ver (sha2_sum c seed) e₁, generate-IsPair ver n (sha2_sum c seed) rest e₂)

  abbrev Taken : Option KeyPair → Type 0
  Taken none = Unit
  Taken (some k) = IsPair c sign k

  key_form-plain :
      (pkb : Bytes) (compr : Bool)
      → length pkb ≡ 37
      → key_form c inverse pkb ≡ some compr
      → compr ≡ false
  unfolding key_form
  key_form-plain pkb compr size e =
      elim (Bool-cases (bytes_equal (take 4 (sha2_sum c (take 33 pkb))) (drop 33 pkb))) [
        | inl t ↦ cc (rw (size, t) at e)
        | inr t ↦ absurd (cc (rw (size, t) at e))
      ]

  -- A line of 37 bytes stands for a key that is not compressed.
  load_other-Taken :
      (vers : ℕ × ℕ) (pkb : Bytes) (r : (ℕ × ℕ) × Option KeyPair)
      → length pkb ≡ 37
      → load_other c inverse vers pkb ≡ done r
      → Taken r.1
  unfolding load_other
  load_other-Taken vers pkb r size e = elim (Option-cases (check_version c inverse vers pkb)) [
    | inl other ↦
        let same : (vers, none) ≡ r = cc (rw (size, other, load_other) at e) in rw (← same) tt
    | inr (vers', known) ↦ elim (Option-cases (key_form c inverse pkb)) [
      | inl bad ↦
          let same : (vers', none) ≡ r = cc (rw (size, known, bad, load_other) at e) in
          rw (← same) tt
      | inr (compr, form) ↦
          let plain = key_form-plain pkb compr size form in
          let (k, e₁, e₂) =
            >>=-eq-done (key_pair c inverse vers'.1 (take 32 (drop 1 pkb)) false)
              (λ k. done (vers', some k)) (rw (size, known, form, plain, load_other) at e) in
          let same : (vers', some k) ≡ r = cc in
          rw (← same) (key_pair-IsPair vers'.1 (take 32 (drop 1 pkb)) e₁)
    ]
  ]

  All-append :
      (ks js : List KeyPair)
      → All (IsPair c sign) ks
      → All (IsPair c sign) js
      → All (IsPair c sign) (ks ++ js)
  All-append [] js a b = b
  All-append (k ∷ ks) js a b = (a.0, All-append ks js a.1 b)

  add_pair-All :
      (o : Option KeyPair) (ks : List KeyPair)
      → Taken o
      → All (IsPair c sign) ks
      → All (IsPair c sign) (add_pair o ks)
  add_pair-All none ks t a = a
  add_pair-All (some k) ks t a = (t, a)

  load_others-IsPair :
      (vers : ℕ × ℕ) (lines : List Bytes) (r : (ℕ × ℕ) × List KeyPair)
      → All (λ (l : Bytes). length l ≡ 37) lines
      → load_others c inverse vers lines ≡ done r
      → All (IsPair c sign) r.1
  unfolding load_others
  load_others-IsPair vers [] r sizes e = let same : (vers, []) ≡ r = cc in rw (← same) tt
  load_others-IsPair vers (l ∷ lines) r sizes e =
      let (q, e₁, f₁) = >>=-eq-done (load_other c inverse vers l) _ e in
      let (rest, e₂, f₂) = >>=-eq-done (load_others c inverse q.0 lines) _ f₁ in
      let kept =
        add_pair-All q.1 rest.1 (load_other-Taken vers l q sizes.0 e₁)
          (load_others-IsPair q.0 lines rest sizes.1 e₂) in
      let same : (rest.0, add_pair q.1 rest.1) ≡ r = cc in rw (← same) kept

  -- The keys of the wallet, with uncompressed public keys: those that `make_wallet` generates, and
  -- those that it takes from lines which decode to 37 bytes. Every address is that of a key which
  -- `NewPublicKey` reads, and which accepts what `ecdsa.Sign` makes with the private key.
  -- `ecdsa.Sign` and `ecdsa.Verify` fit each other on the points that `ScalarBaseMult` gives.
  pub make_wallet-IsPair :
      (testnet : Bool) (key_cnt : ℕ) (lines : List Bytes) (pass : Bytes) (ks : List KeyPair)
      → All (λ (l : Bytes). length l ≡ 37) lines
      → make_wallet c inverse testnet true key_cnt lines pass ≡ done ks
      → All (IsPair c sign) ks
  unfolding make_wallet
  make_wallet-IsPair testnet key_cnt lines [] ks sizes e =
      let vers : ℕ × ℕ = if testnet then (0xef, 0x6f) else (0x80, 0) in
      let (r, e₁, f₁) = >>=-eq-done (load_others c inverse vers lines) _ e in
      let same : r.1 ≡ ks = cc in rw (← same) (load_others-IsPair vers lines r sizes e₁)
  make_wallet-IsPair testnet key_cnt lines (x ∷ pass) ks sizes e =
      let vers : ℕ × ℕ = if testnet then (0xef, 0x6f) else (0x80, 0) in
      let (r, e₁, f₁) = >>=-eq-done (load_others c inverse vers lines) _ e in
      let seed = sha2_sum c (x ∷ pass) in
      let (js, e₂, f₂) = >>=-eq-done (generate c inverse r.0.1 false key_cnt seed) _ f₁ in
      let same : r.1 ++ js ≡ ks = cc in
      rw (← same) (
        All-append r.1 js (load_others-IsPair vers lines r sizes e₁)
          (generate-IsPair r.0.1 key_cnt seed js e₂))
