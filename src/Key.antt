-- ===== src/Key.antt =====
-- core/key.go: public keys and signatures as they stand in scripts.
pub mod Parse
mod Examples
use yoin.Base.{
  ℕ, zero, suc, ◌+◌, ◌-◌, ◌*◌, ◌/◌, ◌%◌, Bool, true, false, ◌||◌, not, List, [], ◌∷◌, Option, none,
  some, ltb, ◌==◌, if◌then◌else◌, length,
}
use yoin.Bytes.{Bytes, be_value, from?, prefix?, slice?}
use yoin.Crypto.{Crypto}

-- core/eck256k1.go: the field prime, the constant b of the curve, and `Qplus1div4`.
abbrev pub secp256k1_p : ℕ
secp256k1_p = 0xFFFFFFFFFFFFFFFFFFFFFFFFFFFFFFFFFFFFFFFFFFFFFFFFFFFFFFFEFFFFFC2F

abbrev pub secp256k1_b : ℕ
secp256k1_b = 7

abbrev pub q_plus1_div4 : ℕ
q_plus1_div4 = (secp256k1_p + 1) / 4

-- `Exp` of `big.Int` with a modulus, by squaring; the exponent has at most `fuel` bits.
unfoldable pub exp_mod : ℕ → ℕ → ℕ → ℕ → ℕ
exp_mod zero b e m = 1 % m
exp_mod (suc fuel) b e m =
    let r = exp_mod fuel (b * b % m) (e / 2) m in if e % 2 == 1 then b * r % m else r

xor : Bool → Bool → Bool
xor true b = not b
xor false b = b

-- `none` where `bts[len(bts)-1]` is out of range, for a root 0.
unfoldable pub decompress_point : Bool → ℕ → Option ℕ
unfolding exp_mod xor
decompress_point off x =
    let y = exp_mod 256 (x * x * x + secp256k1_b) q_plus1_div4 secp256k1_p in
    if y == 0 then none else some (if xor (y % 2 == 1) off then secp256k1_p - y else y)

pub data PublicKey : Type 0 where
  point : ℕ → ℕ → PublicKey
  unknown_format : PublicKey
  key_panic : PublicKey

-- The length alone chooses the format; the first byte only tells the parity of a short key.
unfoldable pub new_public_key : Bytes → PublicKey
unfolding decompress_point
new_public_key [] = unknown_format
new_public_key (tag ∷ r) =
    if length r == 64
    then elim (prefix? 32 r) [
      | none ↦ key_panic
      | some x ↦ elim (from? 32 r) [ none ↦ key_panic | some y ↦ point (be_value x) (be_value y) ]
    ]
    else if length r == 32
    then elim (decompress_point (tag == 3) (be_value r)) [
      | none ↦ key_panic
      | some y ↦ point (be_value r) y
    ]
    else unknown_format

pub record Signature : Type 0 where
  pub r : ℕ
  pub s : ℕ
  pub hash_type : ℕ

-- The step of `NewSignature` that fails.
pub data SigError : Type 0 where
  key_too_short step_1 step_2 step_3 step_4 step_5 step_5a step_6 step_7 step_8 : SigError

pub data Parsed {ℓ} (A : Type ℓ) : Type ℓ where
  parsed : A → Parsed A
  bad : SigError → Parsed A

infixl 5 ◌>>=◌ ◌>>◌
abbrev pub ◌>>=◌ {ℓ κ} : {A : Type ℓ} {B : Type κ} → Parsed A → (A → Parsed B) → Parsed B
parsed a >>= f = f a
bad e >>= f = bad e

abbrev pub ◌>>◌ {ℓ} : {B : Type ℓ} → Parsed (Unit {0}) → Parsed B → Parsed B
m >> k = m >>= λ _. k

-- `if b { return error }`
abbrev pub bad_if : Bool → SigError → Parsed (Unit {0})
bad_if b e = if b then bad e else parsed tt

-- `rd.ReadByte()`, with the bytes left.
unfoldable pub read_byte : SigError → Bytes → Parsed (ℕ × Bytes)
read_byte e [] = bad e
read_byte e (c ∷ rd) = parsed (c, rd)

-- `rd.Read(dat)` for `c` bytes, refused when fewer are read. At its end the reader refuses 0 bytes too.
unfoldable pub read_block : SigError → ℕ → Bytes → Parsed (Bytes × Bytes)
read_block e c [] = bad e
read_block e c (x ∷ rd) = elim (prefix? c (x ∷ rd)) [
  | none ↦ bad e
  | some d ↦ elim (from? c (x ∷ rd)) [ none ↦ bad e | some rest ↦ parsed (d, rest) ]
]

unfoldable pub new_signature : Bytes → Parsed Signature
unfolding read_byte read_block
new_signature buf = do
  bad_if (ltb (length buf) 9) key_too_short
  (c₁, rd₁) ← read_byte step_1 buf
  bad_if (not (c₁ == 0x30)) step_1
  (c₂, rd₂) ← read_byte step_2 rd₁
  bad_if (ltb (length rd₂) (c₂ + 1)) step_2
  (c₃, rd₃) ← read_byte step_3 rd₂
  bad_if (not (c₃ == 0x02)) step_3
  (c₄, rd₄) ← read_byte step_4 rd₃
  (rdat, rd₅) ← read_block step_5 c₄ rd₄
  (c₅, rd₆) ← read_byte step_5a rd₅
  bad_if (not (c₅ == 0x02)) step_5a
  (c₆, rd₇) ← read_byte step_6 rd₆
  (sdat, rd₈) ← read_block step_7 c₆ rd₇
  (c₇, rd₉) ← read_byte step_8 rd₈
  parsed (record { r = be_value rdat; s = be_value sdat; hash_type = c₇ })

-- `pk.Verify(h, s)` for the point (x, y).
unfoldable pub verify : Crypto → ℕ → ℕ → Bytes → Signature → Bool
verify c x y h sig = c.ecdsa_verify x y h sig.r sig.s
