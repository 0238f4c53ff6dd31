-- ===== src/Chain/BlockCheck/Transactions.antt =====
-- What the tests of a block's transactions come to, without the code's own loops.
use mathlib.Core.Option.{some-injective}
use mathlib.Core.Path.{subst}
use yoin.Base.{
  ◌≡◌, ◌↔◌, ◌⊎◌, length, refl, sym, ap, ◌∙◌, Bool, true, false, ◌==◌, ==_iff, List, [], ◌∷◌, Option,
  none, some, ◌>>=◌, All, arith, Bool-cases, Option-cases, inl, inr,
}
use yoin.Bytes.{Bytes}
use yoin.Crypto.{Crypto}
use yoin.Tx.{TxIn, Tx, allzeros, is_null, first_is_null, is_coin_base}
use yoin.Tx.Check.{CheckError, Verdict, accepted, rejected, check_transaction}
use yoin.Chain.Block.{Block}
use yoin.Chain.Merkle.{get_merkel}
use yoin.Chain.Merkle.Root.{IsRoot, get_merkel_lem, one_root}
use yoin.Chain.BlockCheck.{hashes_of, first_is_coin_base, any_coin_base, tail_of, check_all}

-- One input, with a hash of zeros and the largest index.
pub record IsCoinBase (t : Tx) : Type 0 where
  pub input : TxIn
  pub only : t.tx_ins ≡ input ∷ []
  pub zeros : All (λ b. b ≡ 0) input.input.pre_out_tx_hash
  pub last_index : input.input.out_idx_in_tx ≡ 0xffffffff

abbrev pub Hashed : List Tx → List Bytes → Type 0
Hashed [] [] = Unit
Hashed (t ∷ ts) (h ∷ hs) = (t.hash ≡ some h) × Hashed ts hs
Hashed _ _ = ⊥

-- The transactions of a block that is let through: a coin base in front and nowhere else, the root
-- of the hashes in the header, and every transaction accepted.
pub record TxsPass (c : Crypto) (slow_mode : Bool) (b : Block) : Type 0 where
  pub coin_base : Tx
  pub others : List Tx
  pub in_front : b.txs ≡ coin_base ∷ others
  pub coin_base_first : IsCoinBase coin_base
  pub no_other : All (λ t. IsCoinBase t → ⊥) others
  pub hashes : List Bytes
  pub hashed : Hashed b.txs hashes
  pub root : IsRoot c hashes b.merkle_root
  pub all_accepted : All (λ t. check_transaction slow_mode t ≡ accepted) b.txs

allzeros_iff : (b : Bytes) → (allzeros b ≡ true) ↔ All (λ x. x ≡ 0) b
unfolding allzeros
allzeros_iff [] = ((λ _. tt), (λ _. refl))
allzeros_iff (x ∷ b) = elim (Bool-cases (x == 0)) [
  | inl e ↦ rw e ((λ h. ((==_iff x 0).0 e, (allzeros_iff b).0 h)), (λ (_, r). (allzeros_iff b).1 r))
  | inr e ↦ rw e ((λ h. cc), (λ (z, _). cc ((==_iff x 0).1 z)))
]

is_coin_base_iff : (t : Tx) → (is_coin_base t ≡ true) ↔ IsCoinBase t
unfolding is_coin_base is_null first_is_null
is_coin_base_iff t = (to t t.tx_ins refl, from)
  where
    to : (t : Tx) (is : List TxIn) → t.tx_ins ≡ is → is_coin_base t ≡ true → IsCoinBase t
    to t [] e h = let h' = rw e at h in cc
    to t (i ∷ j ∷ is) e h =
        let one : length t.tx_ins ≡ 1 = ground (arith, h) in
        absurd (omega (arith, one, ap length e))
    to t (i ∷ []) e h =
        let h' = rw e at h in
        elim (Bool-cases (allzeros i.input.pre_out_tx_hash)) [
          | inr z ↦ let h'' = rw z at h' in cc
          | inl z ↦
              let h'' : (i.input.out_idx_in_tx == 0xffffffff) ≡ true = rw z at h' in
              record {
                input = i;
                only = e;
                zeros = (allzeros_iff i.input.pre_out_tx_hash).0 z;
                last_index = (==_iff i.input.out_idx_in_tx 0xffffffff).0 h'';
              }
        ]

    from : IsCoinBase t → is_coin_base t ≡ true
    from r =
        rw
          (
            is_coin_base,
            r.only,
            (allzeros_iff r.input.input.pre_out_tx_hash).1 r.zeros,
            (==_iff r.input.input.out_idx_in_tx 0xffffffff).1 r.last_index,
          )
          refl

any_coin_base_iff : (ts : List Tx) → (any_coin_base ts ≡ false) ↔ All (λ t. IsCoinBase t → ⊥) ts
unfolding any_coin_base
any_coin_base_iff [] = ((λ _. tt), (λ _. refl))
any_coin_base_iff (t ∷ ts) = elim (Bool-cases (is_coin_base t)) [
  | inl e ↦ rw e ((λ h. cc), (λ (not_, _). absurd (not_ ((is_coin_base_iff t).0 e))))
  | inr e ↦ rw e (
    (λ h. ((λ is. cc ((is_coin_base_iff t).1 is)), (any_coin_base_iff ts).0 h)),
    (λ (_, r). (any_coin_base_iff ts).1 r),
  )
]

verdict-cases : (v : Verdict) → (v ≡ accepted) ⊎ ((e : CheckError) × (v ≡ rejected e))
verdict-cases accepted = inl refl
verdict-cases (rejected e) = inr (e, refl)

check_all_iff :
    (slow_mode : Bool) (ts : List Tx)
    → (check_all slow_mode ts ≡ none) ↔ All (λ t. check_transaction slow_mode t ≡ accepted) ts
unfolding check_all
check_all_iff slow_mode [] = ((λ _. tt), (λ _. refl))
check_all_iff slow_mode (t ∷ ts) = elim (verdict-cases (check_transaction slow_mode t)) [
  | inl e ↦
      rw (check_all, e)
        (
          (λ h. (refl, (check_all_iff slow_mode ts).0 h)),
          (λ (_, r). (check_all_iff slow_mode ts).1 r),
        )
  | inr (x, e) ↦ rw (check_all, e) ((λ h. cc), (λ (a, _). cc))
]

hashes_of-Hashed : (ts : List Tx) (hs : List Bytes) → hashes_of ts ≡ some hs → Hashed ts hs
unfolding hashes_of
hashes_of-Hashed [] [] e = tt
hashes_of-Hashed [] (h ∷ hs) e = absurd cc
hashes_of-Hashed (t ∷ ts) hs e = elim (Option-cases t.hash) [
  | inl n ↦ let e' = rw n at e in cc
  | inr (x, at) ↦ elim (Option-cases (hashes_of ts)) [
    | inl n ↦ let e' = rw (at, n) at e in cc
    | inr (xs, more) ↦
        let e' : some (x ∷ xs) ≡ some hs = rw (at, more) at e in
        subst (Hashed (t ∷ ts)) (some-injective _ _ e') (at, hashes_of-Hashed ts xs more)
  ]
]

Hashed-hashes_of : (ts : List Tx) (hs : List Bytes) → Hashed ts hs → hashes_of ts ≡ some hs
unfolding hashes_of
Hashed-hashes_of [] [] r = refl
Hashed-hashes_of [] (h ∷ hs) r = absurd r
Hashed-hashes_of (t ∷ ts) [] r = absurd r
Hashed-hashes_of (t ∷ ts) (h ∷ hs) (at, r) = rw (hashes_of, at, Hashed-hashes_of ts hs r) refl

get_merkel-IsRoot :
    (c : Crypto) (h r : Bytes) (hs : List Bytes)
    → get_merkel c (h ∷ hs) ≡ some r
    → IsRoot c (h ∷ hs) r
get_merkel-IsRoot c h r hs e =
    let (s, f, p) = get_merkel_lem c h hs in
    subst (IsRoot c (h ∷ hs)) (some-injective _ _ (sym f ∙ e)) p

IsRoot-get_merkel :
    (c : Crypto) (r : Bytes) (hs : List Bytes) → IsRoot c hs r → get_merkel c hs ≡ some r
IsRoot-get_merkel c r [] p = elim p [ ]
IsRoot-get_merkel c r (h ∷ hs) p =
    let (s, f, q) = get_merkel_lem c h hs in f ∙ ap some (one_root q p)

-- The same by the functions of the code.
pub record TestsPass (c : Crypto) (slow_mode : Bool) (b : Block) : Type 0 where
  pub coin_base_first : first_is_coin_base b.txs ≡ true
  pub no_other : any_coin_base (tail_of b.txs) ≡ false
  pub root_matches : (hashes_of b.txs >>= get_merkel c) ≡ some b.merkle_root
  pub all_accepted : check_all slow_mode b.txs ≡ none

module _ (c : Crypto) (slow_mode : Bool) (b : Block) where
  split-TxsPass :
      (ts : List Tx) (hashes : Option (List Bytes))
      → b.txs ≡ ts
      → hashes_of b.txs ≡ hashes
      → TestsPass c slow_mode b
      → TxsPass c slow_mode b
  unfolding first_is_coin_base any_coin_base tail_of
  split-TxsPass [] hashes e f p = let h = rw e at p.coin_base_first in cc
  split-TxsPass (t ∷ ts) none e f p = let h = rw f at p.root_matches in cc
  split-TxsPass (t ∷ ts) (some []) e f p = absurd (rw e at (hashes_of-Hashed b.txs [] f))
  split-TxsPass (t ∷ ts) (some (x ∷ hs)) e f p = record {
    coin_base = t;
    others = ts;
    in_front = e;
    coin_base_first = (is_coin_base_iff t).0 (rw e at p.coin_base_first);
    no_other = (any_coin_base_iff ts).0 (rw e at p.no_other);
    hashes = x ∷ hs;
    hashed = hashes_of-Hashed b.txs (x ∷ hs) f;
    root = get_merkel-IsRoot c x b.merkle_root hs (rw f at p.root_matches);
    all_accepted = (check_all_iff slow_mode b.txs).0 p.all_accepted;
  }

  pub TestsPass-TxsPass : TestsPass c slow_mode b → TxsPass c slow_mode b
  TestsPass-TxsPass = split-TxsPass b.txs (hashes_of b.txs) refl refl

  pub TxsPass-TestsPass : TxsPass c slow_mode b → TestsPass c slow_mode b
  unfolding first_is_coin_base any_coin_base tail_of
  TxsPass-TestsPass p = record {
    coin_base_first = rw p.in_front ((is_coin_base_iff p.coin_base).1 p.coin_base_first);
    no_other = rw p.in_front ((any_coin_base_iff p.others).1 p.no_other);
    root_matches =
        rw (Hashed-hashes_of b.txs p.hashes p.hashed)
          (IsRoot-get_merkel c b.merkle_root p.hashes p.root);
    all_accepted = (check_all_iff slow_mode b.txs).1 p.all_accepted;
  }
