-- ===== src/Wallet.antt =====
-- wallet/wallet.go: the wallet tool, which makes keys and signs a payment.
-- Files and the command line are arguments: what `load_balance` reads from the files is
-- `loaded_txs` and a list of outputs. `priv_keys` and `publ_addrs` grow together and are one list.
pub mod Keys
pub mod Spend
pub mod Inputs
pub mod Digests
pub mod KeyBytes
pub mod Pairs
pub mod Signed
pub mod Made
pub mod Accepted
pub mod Completes
pub mod Amounts
pub mod Balanced
mod Examples
use yoin.Base.{
  ℕ, ◌+◌, ◌%◌, ◌^◌, Bool, List, [], ◌∷◌, ◌++◌, Option, none, some, if◌then◌else◌, get_elem?, ◌≡◌,
  refl,
}
use yoin.Bytes.{Bytes, bytes_equal}
use yoin.Crypto.{Crypto}
use yoin.Tx.{TxPrevOut, TxOut, Tx}
use yoin.Addr.{BtcAddr, owned, owns_panic, owns}

-- `exits` is a call of `os.Exit`, `panics` a run-time panic.
pub data Ran {ℓ} (A : Type ℓ) : Type ℓ where
  done : A → Ran A
  exits : Ran A
  panics : Ran A

infixl 5 ◌>>=◌ ◌>>◌
abbrev pub ◌>>=◌ {ℓ κ} : {A : Type ℓ} {B : Type κ} → Ran A → (A → Ran B) → Ran B
done a >>= f = f a
exits >>= f = exits
panics >>= f = panics

abbrev pub ◌>>◌ {ℓ} : {B : Type ℓ} → Ran (Unit {0}) → Ran B → Ran B
m >> k = m >>= λ _. k

-- Inversion of a step that went through.
pub >>=-eq-done {ℓ κ} :
    {A : Type ℓ} {B : Type κ} (m : Ran A) (f : A → Ran B) {b : B}
    → (m >>= f) ≡ done b
    → (a : A) × (m ≡ done a) × (f a ≡ done b)
>>=-eq-done (done a) f h = (a, refl, h)
>>=-eq-done exits f h = cc
>>=-eq-done panics f h = cc

abbrev pub or_panic {ℓ} : {A : Type ℓ} → Option A → Ran A
or_panic none = panics
or_panic (some a) = done a

abbrev pub or_exit {ℓ} : {A : Type ℓ} → Option A → Ran A
or_exit none = exits
or_exit (some a) = done a

pub or_panic-eq-done {ℓ} : {A : Type ℓ} (o : Option A) {a : A} → or_panic o ≡ done a → o ≡ some a
or_panic-eq-done none h = cc
or_panic-eq-done (some a) h = cc

pub or_exit-eq-done {ℓ} : {A : Type ℓ} (o : Option A) {a : A} → or_exit o ≡ done a → o ≡ some a
or_exit-eq-done none h = cc
or_exit-eq-done (some a) h = cc

abbrev pub exit_if : Bool → Ran (Unit {0})
exit_if b = if b then exits else done tt

pub record KeyPair : Type 0 where
  pub priv_key : Bytes
  pub publ_addr : BtcAddr

pub record OneSendTo : Type 0 where
  pub addr : BtcAddr
  pub amount : ℕ

-- `change` is the text of the switch, empty when it is not given.
pub record Wallet : Type 0 where
  pub loaded_txs : List (Bytes × Tx)
  pub keys : List KeyPair
  pub send_to : List OneSendTo
  pub fee_btc : ℕ
  pub change : Bytes

-- `loadedTxs[h]`
unfoldable pub find_tx : Bytes → List (Bytes × Tx) → Option Tx
find_tx h [] = none
find_tx h ((k, t) ∷ m) = if bytes_equal k h then some t else find_tx h m

-- `UO`. A missing transaction is a nil pointer.
unfoldable pub uo : Wallet → TxPrevOut → Ran TxOut
unfolding find_tx
uo w p = do
  t ← or_panic (find_tx p.pre_out_tx_hash w.loaded_txs)
  or_panic (get_elem? t.tx_outs p.out_idx_in_tx)

-- The loop over `publ_addrs` up to the first one that owns the script. `Owns` changes an address
-- only where it has no key yet, and the addresses of the wallet have one.
unfoldable pub owner : Crypto → List KeyPair → Bytes → Ran (Option KeyPair)
owner c [] scr = done none
owner c (k ∷ ks) scr =
    let rest = owner c ks scr in
    elim (owns c k.publ_addr scr) [
      | owns_panic ↦ panics
      | owned owns_it a ↦ if owns_it then done (some (record k { publ_addr = a })) else rest
    ]

-- The outputs and `totBtc` with one more output, if it has an owner.
unfoldable pub keep_owned : Option KeyPair → TxPrevOut → ℕ → List TxPrevOut × ℕ → List TxPrevOut × ℕ
keep_owned none p value acc = acc
keep_owned (some k) p value (outs, tot) = (outs ++ p ∷ [], (tot + value) % 2 ^ 64)

-- `load_balance` behind the reading of the files.
unfoldable pub load_balance :
    Crypto → Wallet → List TxPrevOut → List TxPrevOut × ℕ → Ran (List TxPrevOut × ℕ)
unfolding uo owner keep_owned
load_balance c w [] acc = done acc
load_balance c w (p ∷ ps) acc = do
  o ← uo w p
  k ← owner c w.keys o.script_pub_key
  load_balance c w ps (keep_owned k p o.value acc)
