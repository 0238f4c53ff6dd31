-- ===== src/Wallet/Digests.antt =====
-- wallet/wallet.go: the assignment `tx.TxIns[i].ScriptSig = s` and the digests of the transaction.
use yoin.Base.{
  ℕ, zero, suc, ◌+◌, ◌<◌, ◌≡◌, ◌≢◌, refl, ap, ◌∙◌, List, [], ◌∷◌, some, length, map, get_elem?,
  arith,
}
use yoin.Bytes.{Bytes}
use yoin.Crypto.{Crypto}
use yoin.Tx.{TxIn, TxOut, Tx}
use yoin.Tx.Sighash.{sign_inputs, signature_message, signature_hash}
use yoin.Wallet.Spend.{set_script}
use yoin.Wallet.Inputs.{IsSigned}

pub length-set_script :
    (i : ℕ) (s : Bytes) (xs : List TxIn) → length (set_script i s xs) ≡ length xs
unfolding set_script
length-set_script i s [] = refl
length-set_script zero s (x ∷ xs) = refl
length-set_script (suc i) s (x ∷ xs) = ap suc (length-set_script i s xs)

pub get_elem?-set_script_self :
    (i : ℕ) (s : Bytes) (xs : List TxIn)
    → i < length xs
    → (x : TxIn) × (get_elem? (set_script i s xs) i ≡ some x) × (x.script_sig ≡ s)
unfolding set_script
get_elem?-set_script_self i s [] h = absurd (omega (arith, h))
get_elem?-set_script_self zero s (x ∷ xs) h = (record x { script_sig = s }, refl, refl)
get_elem?-set_script_self (suc i) s (x ∷ xs) h = get_elem?-set_script_self i s xs (omega (arith, h))

pub get_elem?-set_script_ne :
    (i j : ℕ) (s : Bytes) (xs : List TxIn)
    → j ≢ i
    → get_elem? (set_script i s xs) j ≡ get_elem? xs j
unfolding set_script
get_elem?-set_script_ne i j s [] ne = refl
get_elem?-set_script_ne zero zero s (x ∷ xs) ne = absurd (ne refl)
get_elem?-set_script_ne zero (suc j) s (x ∷ xs) ne = refl
get_elem?-set_script_ne (suc i) zero s (x ∷ xs) ne = refl
get_elem?-set_script_ne (suc i) (suc j) s (x ∷ xs) ne =
    get_elem?-set_script_ne i j s xs (λ e. ne (ap suc e))

sign_inputs-set_script :
    (i j n ht : ℕ) (s script : Bytes) (xs : List TxIn)
    → sign_inputs script n ht j (set_script i s xs) ≡ sign_inputs script n ht j xs
unfolding sign_inputs set_script
sign_inputs-set_script i j n ht s script [] = refl
sign_inputs-set_script zero j n ht s script (x ∷ xs) = refl
sign_inputs-set_script (suc i) j n ht s script (x ∷ xs) =
    rw (sign_inputs-set_script i (j + 1) n ht s script xs)

pub inputs-set_script :
    (i : ℕ) (s : Bytes) (xs : List TxIn)
    → map (λ (x : TxIn). x.input) (set_script i s xs) ≡ map (λ (x : TxIn). x.input) xs
unfolding set_script
inputs-set_script i s [] = refl
inputs-set_script zero s (x ∷ xs) = refl
inputs-set_script (suc i) s (x ∷ xs) = ap (λ t. x.input ∷ t) (inputs-set_script i s xs)

-- The digest that an input signs is the same for two transactions.
abbrev pub SameDigests : Crypto → Tx → Tx → Type 0
SameDigests c t t' =
    (script : Bytes) (n : ℕ) → signature_hash c t' script n 1 ≡ signature_hash c t script n 1

pub signature_hash-set_script :
    (c : Crypto) (t : Tx) (i : ℕ) (s : Bytes)
    → SameDigests c t (record t { tx_ins = set_script i s t.tx_ins })
unfolding signature_hash signature_message
signature_hash-set_script c t i s script n =
    rw (length-set_script i s t.tx_ins, sign_inputs-set_script i 0 n 1 s script t.tx_ins)

pub IsSigned-digests :
    {c : Crypto} {t t' : Tx} {i : ℕ} {o : TxOut} {key script : Bytes}
    → SameDigests c t t'
    → IsSigned c t i o key script
    → IsSigned c t' i o key script
IsSigned-digests {i = i} {o = o} same p = record {
  sig = p.sig;
  parts = p.parts;
  digest = p.digest;
  x = p.x;
  y = p.y;
  pushes = p.pushes;
  short_sig = p.short_sig;
  short_key = p.short_key;
  key_parses = p.key_parses;
  sig_parses = p.sig_parses;
  digested = same o.script_pub_key i ∙ p.digested;
  passes = p.passes;
}
