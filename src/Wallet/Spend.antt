-- ===== src/Wallet/Spend.antt =====
-- wallet/wallet.go: `make_signed_tx` up to its writing of files, and the payment that `main` makes.
-- `sign i d h` is what the call of `ecdsa.Sign` for input i returns for the key d and the hash h,
-- `none` for its error: the random numbers of each call are its own.
use yoin.Base.{
  ℕ, zero, suc, ◌+◌, ◌-◌, ◌%◌, ◌^◌, List, [], ◌∷◌, ◌++◌, Option, none, some, ltb, leb,
  if◌then◌else◌, length, get_elem?, map, drop,
}
use yoin.Bytes.{Bytes, be_value}
use yoin.Crypto.{Crypto, sha2_sum}
use yoin.Base58.{big_bytes}
use yoin.Key.{PublicKey, point, unknown_format, key_panic, new_public_key}
use yoin.Key.Parse.{signature_bytes}
use yoin.Tx.{TxPrevOut, TxIn, TxOut, Tx}
use yoin.Tx.Codec.{serialize}
use yoin.Tx.Sighash.{sighash_all, signature_hash}
use yoin.Addr.{BtcAddr, out_script}
use yoin.Addr.Text.{parsed, refused, new_addr_from_string}
use yoin.Wallet.{
  Ran, done, exits, panics, ◌>>=◌, ◌>>◌, or_panic, or_exit, KeyPair, OneSendTo, Wallet, uo, owner,
  load_balance,
}

abbrev pub Signer : Type 0
Signer = ℕ → ℕ → Bytes → Option (ℕ × ℕ)

-- `spendBtc`, a `uint64`.
unfoldable pub spend_btc : List OneSendTo → ℕ → ℕ
spend_btc [] sum = sum
spend_btc (s ∷ ss) sum = spend_btc ss ((sum + s.amount) % 2 ^ 64)

-- `spendBtc + feeBtc`
unfoldable pub spend_and_fee : Wallet → ℕ
unfolding spend_btc
spend_and_fee w = (spend_btc w.send_to 0 + w.fee_btc) % 2 ^ 64

unfoldable pub new_input : TxPrevOut → TxIn
new_input p = record { input = p; script_sig = []; sequence = 0xffffffff }

-- The loop that selects inputs: they, and `btcsofar`.
unfoldable pub select_inputs : Wallet → ℕ → List TxPrevOut → ℕ → Ran (List TxIn × ℕ)
unfolding uo new_input
select_inputs w goal [] sofar = done ([], sofar)
select_inputs w goal (p ∷ ps) sofar = do
  o ← uo w p
  let sofar' = (sofar + o.value) % 2 ^ 64
  let rest = select_inputs w goal ps sofar'
  r ← if leb goal sofar' then done ([], sofar') else rest
  done (new_input p ∷ r.0, r.1)

unfoldable pub send_out : OneSendTo → TxOut
unfolding out_script
send_out s = record { value = s.amount; block_height = 0; script_pub_key = out_script s.addr }

-- The text of `-change` is parsed, and what it gives is always replaced.
unfoldable pub check_change : Crypto → Bytes → Ran (Unit {0})
unfolding new_addr_from_string
check_change c [] = done tt
check_change c (x ∷ s) = elim (new_addr_from_string c (x ∷ s)) [
  | parsed a ↦ done tt
  | refused e ↦ exits
]

unfoldable pub get_change_addr : Crypto → Wallet → List TxPrevOut → Ran BtcAddr
unfolding check_change uo owner
get_change_addr c w outs = do
  check_change c w.change
  p ← or_panic (get_elem? outs 0)
  o ← uo w p
  found ← owner c w.keys o.script_pub_key
  k ← or_exit found
  done k.publ_addr

unfoldable pub make_outputs : Crypto → Wallet → List TxPrevOut → ℕ → Ran (List TxOut)
unfolding get_change_addr send_out out_script
make_outputs c w outs change_btc =
    let with_change : Ran (List TxOut) =
      (get_change_addr c w outs >>= λ a. done (
        map send_out w.send_to
        ++ record { value = change_btc; block_height = 0; script_pub_key = out_script a } ∷ [])) in
    if ltb 0 change_btc then with_change else done (map send_out w.send_to)

-- `rb` and `sb`: a zero in front of a first byte from 0x80 on; `rb[0]` of no bytes panics.
unfoldable pub sign_padded : Bytes → Ran Bytes
sign_padded [] = panics
sign_padded (x ∷ b) = done (if leb 0x80 x then 0 ∷ x ∷ b else x ∷ b)

-- `buscr`
unfoldable pub script_sig_of : Bytes → Bytes → Bytes
script_sig_of sig key = (length sig % 256) ∷ (sig ++ (length key % 256) ∷ key)

-- `tx.TxIns[i].ScriptSig = s`
unfoldable pub set_script : ℕ → Bytes → List TxIn → List TxIn
set_script i s [] = []
set_script zero s (x ∷ xs) = record x { script_sig = s } ∷ xs
set_script (suc i) s (x ∷ xs) = x ∷ set_script i s xs

-- `NewPublicKey(publ_addrs[j].PubKey)`, for the error only.
abbrev pub key_checked : PublicKey → Ran (Unit {0})
key_checked (point x y) = done tt
key_checked unknown_format = exits
key_checked key_panic = panics

-- `PubKey`, where nil reads as no bytes.
abbrev pub pub_key_bytes : BtcAddr → Bytes
pub_key_bytes a = elim a.pub_key [ none ↦ [] | some b ↦ b ]

module _ (c : Crypto) (sign : Signer) where
  -- The script that signs input `i` of the transaction for the output `o`.
  unfoldable pub input_script : Tx → ℕ → TxOut → KeyPair → Ran Bytes
  input_script tx i o k = do
    let key = pub_key_bytes k.publ_addr
    key_checked (new_public_key key)
    h ← or_panic (signature_hash c tx o.script_pub_key i sighash_all)
    q ← or_exit (sign i (be_value k.priv_key) h)
    rb ← sign_padded (big_bytes q.0 q.0 [])
    sb ← sign_padded (big_bytes q.1 q.1 [])
    done (script_sig_of (signature_bytes rb sb) key)

module _ (c : Crypto) (sign : Signer) (w : Wallet) (outs : List TxPrevOut) where
  -- One round of the loop over the inputs.
  unfoldable pub sign_input : Tx → ℕ → Ran Tx
  unfolding set_script
  sign_input tx i = do
    p ← or_panic (get_elem? outs i)
    o ← uo w p
    found ← owner c w.keys o.script_pub_key
    k ← or_exit found
    s ← input_script c sign tx i o k
    done (record tx { tx_ins = set_script i s tx.tx_ins })

  -- The rounds that are left, from input `i` on.
  unfoldable pub sign_loop : ℕ → ℕ → Tx → Ran Tx
  unfolding sign_input
  sign_loop zero i tx = done tx
  sign_loop (suc n) i tx = do tx' ← sign_input tx i; sign_loop n (suc i) tx'

  -- The transaction, and the outputs that stay in balance/unspent.txt.
  unfoldable pub make_signed_tx : Ran (Tx × List TxPrevOut)
  unfolding spend_and_fee select_inputs make_outputs sign_loop sha2_sum serialize
  make_signed_tx = do
    r ← select_inputs w (spend_and_fee w) outs 0
    tx_outs ← make_outputs c w outs ((r.1 + 2 ^ 64 - spend_and_fee w) % 2 ^ 64)
    tx ← sign_loop (length r.0) 0 (record {
      version = 1;
      tx_ins = r.0;
      tx_outs = tx_outs;
      lock_time = 0;
      size = 0;
      hash = none;
    })
    done (record tx { hash = some (sha2_sum c (serialize tx)) }, drop (length r.0) outs)

-- `main` behind `parse_spend`, for the outputs that balance/unspent.txt lists. `none` where more is
-- to be spent than there is.
unfoldable pub send_money :
    Crypto → Signer → Wallet → List TxPrevOut → Ran (Option (Tx × List TxPrevOut))
unfolding load_balance spend_and_fee make_signed_tx
send_money c sign w listed = do
  b ← load_balance c w listed ([], 0)
  let made = make_signed_tx c sign w b.0
  if ltb b.1 (spend_and_fee w) then done none else (made >>= λ r. done (some r))
