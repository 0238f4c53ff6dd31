-- ===== src/Wallet/Inputs.antt =====
-- wallet/wallet.go: one input that `make_signed_tx` signs, against core/key.go and core/script.go.
use yoin.Base.{
  ℕ, ◌+◌, ◌%◌, ◌^◌, ◌≤◌, ◌<◌, ◌≡◌, true, List, [], ◌∷◌, ◌++◌, some, leb, length, length-append, All,
  Bool-cases, Option-cases, inl, inr, arith,
}
use yoin.Bytes.{Bytes, be_value, be_value_from, bytes_equal}
use yoin.Bytes.Laws.{bytes_equal_iff}
use yoin.Crypto.{Crypto}
use yoin.Base58.{big_bytes}
use yoin.Curve.Marshal.{be_value_from-big_bytes, length-big}
use yoin.Key.{point, new_public_key, Signature, parsed, new_signature, verify}
use yoin.Key.Parse.{signature_bytes, new_signature-signature_bytes}
use yoin.Tx.{TxOut, Tx}
use yoin.Tx.Sighash.{sighash_all, signature_hash}
use yoin.Addr.{new_addr_from_pub_key}
use yoin.Addr.Scripts.{hash_script, owns-hash_script}
use yoin.Script.Eval.Steps.{push_script}
use yoin.Wallet.{done, KeyPair, owner}
use yoin.Wallet.Spend.{Signer, sign_padded, script_sig_of, input_script}

abbrev pub IsPadded : ℕ → Bytes → Type 0
IsPadded n b = (be_value b ≡ n) × (1 ≤ length b) × (length b ≤ 33)

sign_padded_lem :
    (n : ℕ) (d : Bytes)
    → 0 < n
    → be_value_from 0 d ≡ be_value_from n []
    → length d ≤ 32
    → (b : Bytes) × (sign_padded d ≡ done b) × IsPadded n b
unfolding sign_padded be_value be_value_from
sign_padded_lem n [] above e le = absurd (omega (arith, e))
sign_padded_lem n (x ∷ d) above e le = elim (Bool-cases (leb 0x80 x)) [
  | inl t ↦ (0 ∷ x ∷ d, rw t, (e, omega arith, omega arith))
  | inr t ↦ (x ∷ d, rw t, (e, omega arith, omega arith))
]

-- The bytes that are written for a number of a signature.
pub sign_padded-big_bytes :
    (n : ℕ)
    → 0 < n
    → n < 256 ^ 32
    → (b : Bytes) × (sign_padded (big_bytes n n []) ≡ done b) × IsPadded n b
sign_padded-big_bytes n above fits =
    sign_padded_lem n (big_bytes n n []) above (be_value_from-big_bytes n n [] (omega arith))
      (length-big 32 n fits)

length-signature_bytes :
    (rb sb : Bytes) → length (signature_bytes rb sb) ≡ 7 + length rb + length sb
unfolding signature_bytes
length-signature_bytes rb sb = omega (
  arith,
  length-append rb (0x02 ∷ (length sb % 256) ∷ (sb ++ 0x01 ∷ [])),
  length-append sb (0x01 ∷ []),
)

script_sig_of-push :
    (sig key : Bytes)
    → length sig < 76
    → length key < 76
    → script_sig_of sig key ≡ push_script sig ++ push_script key
unfolding script_sig_of
script_sig_of-push sig key hs hk =
    let es : length sig % 256 ≡ length sig = omega arith in
    let ek : length key % 256 ≡ length key = omega arith in rw (es, ek)

module _ (c : Crypto) (sign : Signer) where
  -- A key pair of the wallet: the address is that of a public key that parses, and what
  -- `ecdsa.Sign` returns for the private key are two numbers of at most 256 bits that pass the check
  -- with the public key.
  pub record IsPair (k : KeyPair) : Type 0 where
    pub key : Bytes
    pub version : ℕ
    pub made : k.publ_addr ≡ new_addr_from_pub_key c key version
    pub size : length key < 76
    pub x : ℕ
    pub y : ℕ
    pub parses : new_public_key key ≡ point x y
    pub signs :
        (i r s : ℕ) (h : Bytes)
        → sign i (be_value k.priv_key) h ≡ some (r, s)
        → (0 < r) × (r < 256 ^ 32) × (0 < s) × (s < 256 ^ 32) × (c.ecdsa_verify x y h r s ≡ true)

  pub owner-hash_script :
      (h : Bytes) (ks : List KeyPair) {k : KeyPair}
      → length h ≡ 20
      → All IsPair ks
      → owner c ks (hash_script h) ≡ done (some k)
      → IsPair k × (h ≡ k.publ_addr.hash160)
  unfolding owner
  owner-hash_script h [] size all e = cc
  owner-hash_script h (p ∷ ks) {k = k} size all e =
      elim (Bool-cases (bytes_equal h p.publ_addr.hash160)) [
        | inl t ↦
            let found : done (some p) ≡ done (some k) =
              rw (owns-hash_script c p.publ_addr h size, owner, t) at e in
            let same : p ≡ k = cc in
            rw (← same) (all.0, (bytes_equal_iff h p.publ_addr.hash160).0 t)
        | inr t ↦
            owner-hash_script h ks size all.1
              (rw (owns-hash_script c p.publ_addr h size, owner, t) at e)
      ]

-- A script that pushes a signature and then the key. The signature parses and passes the check on
-- the digest of the transaction, for input `i` and the script of the output.
pub record IsSigned (c : Crypto) (tx : Tx) (i : ℕ) (o : TxOut) (key script : Bytes) : Type 0 where
  pub sig : Bytes
  pub parts : Signature
  pub digest : Bytes
  pub x : ℕ
  pub y : ℕ
  pub pushes : script ≡ push_script sig ++ push_script key
  pub short_sig : length sig < 76
  pub short_key : length key < 76
  pub key_parses : new_public_key key ≡ point x y
  pub sig_parses : new_signature sig ≡ parsed parts
  pub digested : signature_hash c tx o.script_pub_key i sighash_all ≡ some digest
  pub passes : verify c x y digest parts ≡ true

script_is : {s p t : Bytes} → s ≡ p → done s ≡ done t → t ≡ p
script_is e h = cc

module _ (c : Crypto) (sign : Signer) where
  pub input_script_lem :
      (tx : Tx) (i : ℕ) (o : TxOut) (k : KeyPair) {script : Bytes} (p : IsPair c sign k)
      → input_script c sign tx i o k ≡ done script
      → IsSigned c tx i o p.key script
  unfolding input_script new_addr_from_pub_key verify
  input_script_lem tx i o k {script = script} p e =
      elim (Option-cases (signature_hash c tx o.script_pub_key i sighash_all)) [
        | inl missing ↦ absurd (cc (rw (p.made, p.parses, missing, input_script) at e))
        | inr (h, eh) ↦ elim (Option-cases (sign i (be_value k.priv_key) h)) [
          | inl refused ↦ absurd (cc (rw (p.made, p.parses, eh, refused, input_script) at e))
          | inr ((r, s), eq) ↦
              let (r_above, r_fits, s_above, s_fits, ok) = p.signs i r s h eq in
              let (rb, er, (vr, r1, r33)) = sign_padded-big_bytes r r_above r_fits in
              let (sb, es, (vs, s1, s33)) = sign_padded-big_bytes s s_above s_fits in
              let sig = signature_bytes rb sb in
              let short : length sig < 76 = omega (arith, length-signature_bytes rb sb) in
              let result : done (script_sig_of sig p.key) ≡ done script =
                rw (p.made, p.parses, eh, eq, er, es, input_script) at e in
              record {
                sig = sig;
                parts = record { r = be_value rb; s = be_value sb; hash_type = 1 };
                digest = h;
                x = p.x;
                y = p.y;
                pushes = script_is (script_sig_of-push sig p.key short p.size) result;
                short_sig = short;
                short_key = p.size;
                key_parses = p.parses;
                sig_parses = new_signature-signature_bytes rb sb (omega arith) (omega arith);
                digested = eh;
                passes = rw (vr, vs, verify) ok;
              }
        ]
      ]
