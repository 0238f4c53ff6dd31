-- ===== src/Wallet/Examples.antt =====
-- A wallet with one key and three outputs, for wallet/wallet.go.
use yoin.Base.{
  ℕ, ◌+◌, ◌<◌, ◌^◌, ◌≡◌, refl, true, false, List, [], ◌∷◌, ◌++◌, none, some, replicate, All, arith,
}
use yoin.Bytes.{Bytes, prefix?, from?, bytes_equal}
use yoin.Crypto.{Crypto, rimp160_after_sha256}
use yoin.Key.{new_public_key}
use yoin.Tx.{TxPrevOut, TxIn, TxOut, Tx}
use yoin.Tx.Check.Sound.{total}
use yoin.Tx.Sighash.{signature_hash}
use yoin.Addr.{owns, new_addr_from_pub_key}
use yoin.Addr.Scripts.{bare_addr, hash_script}
use yoin.Curve.{secp256k1, scalar_base_mult}
use yoin.Script.Eval.{returned, verify_tx_script}
use yoin.Wallet.{done, KeyPair, Wallet, uo, owner, load_balance}
use yoin.Wallet.Keys.{make_wallet}
use yoin.Wallet.KeyBytes.{long_form}
use yoin.Wallet.Pairs.{SignsRight, make_wallet-IsPair}
use yoin.Key.Parse.{signature_bytes}
use yoin.Wallet.Spend.{Signer, script_sig_of, sign_padded, input_script, make_signed_tx, send_money}
use yoin.Wallet.Inputs.{IsPair, IsSigned}
use yoin.Wallet.Signed.{outpoints}
use yoin.Wallet.Accepted.{make_signed_tx-verifies}
use yoin.Wallet.Completes.{IsOurs, make_signed_tx-completes}
use yoin.Wallet.Amounts.{total_value, total_amount}
use yoin.Wallet.Balanced.{send_money-balances}

-- One digest for all, which is a private key as well.
abbrev one : Bytes
one = replicate 31 0 ++ 1 ∷ []

abbrev plain_crypto : Crypto
plain_crypto = record {
  sha256 = λ b. one;
  ripemd160 = λ b. replicate 20 2;
  ecdsa_verify = λ x y h r s. true;
}

abbrev same_signature : Signer
same_signature i d h = some (5, 200)

abbrev base_key : Bytes
base_key = long_form secp256k1.gx secp256k1.gy

abbrev base_pair : KeyPair
base_pair = record { priv_key = one; publ_addr = new_addr_from_pub_key plain_crypto base_key 0 }

-- A line with the private key 1, and one key that is generated.
abbrev dumped : Bytes
dumped = 0x80 ∷ (one ++ replicate 4 0)

same_signature-right : SignsRight plain_crypto (λ z p. 1) same_signature
same_signature-right priv x y i r s h on e =
    let five : 5 ≡ r = cc in
    let two_hundred : 200 ≡ s = cc in
    rw (← five, ← two_hundred) (omega arith, omega arith, omega arith, omega arith, refl)

one_key : make_wallet plain_crypto (λ z p. 1) false true 1 [] (7 ∷ []) ≡ done (base_pair ∷ [])
unfolding make_wallet scalar_base_mult prefix? from?
one_key = refl

base_pair-IsPair : All (IsPair plain_crypto same_signature) (base_pair ∷ [])
base_pair-IsPair =
    make_wallet-IsPair plain_crypto (λ z p. 1) same_signature same_signature-right false 1 []
      (7 ∷ []) (base_pair ∷ []) tt one_key

two_keys :
    make_wallet plain_crypto (λ z p. 1) false true 1 (dumped ∷ []) (7 ∷ [])
    ≡ done (base_pair ∷ base_pair ∷ [])
unfolding make_wallet scalar_base_mult prefix? from?
two_keys = refl

make_wallet-IsPair_example : All (IsPair plain_crypto same_signature) (base_pair ∷ base_pair ∷ [])
make_wallet-IsPair_example =
    make_wallet-IsPair plain_crypto (λ z p. 1) same_signature same_signature-right false 1
      (dumped ∷ []) (7 ∷ []) (base_pair ∷ base_pair ∷ []) (refl, tt) two_keys

-- Three outputs of 400 to the key; 500 is sent and 100 is the fee.
abbrev ours : Bytes
ours = hash_script (replicate 20 2)

abbrev four_hundred : TxOut
four_hundred = record { value = 400; block_height = 0; script_pub_key = ours }

abbrev funding : Tx
funding = record {
  version = 1;
  tx_ins = [];
  tx_outs = four_hundred ∷ four_hundred ∷ four_hundred ∷ [];
  lock_time = 0;
  size = 0;
  hash = none;
}

abbrev wallet : Wallet
wallet = record {
  loaded_txs = (replicate 32 9, funding) ∷ [];
  keys = base_pair ∷ [];
  send_to = record { addr = bare_addr 0 (replicate 20 5); amount = 500 } ∷ [];
  fee_btc = 100;
  change = [];
}

abbrev at : ℕ → TxPrevOut
at n = record { pre_out_tx_hash = replicate 32 9; out_idx_in_tx = n }

abbrev listed : List TxPrevOut
listed = at 0 ∷ at 1 ∷ at 2 ∷ []

abbrev signed_input : ℕ → TxIn
signed_input n = record {
  input = at n;
  script_sig = script_sig_of (signature_bytes (5 ∷ []) (0 ∷ 200 ∷ [])) base_key;
  sequence = 0xffffffff;
}

abbrev payment : Tx
payment = record {
  version = 1;
  tx_ins = signed_input 0 ∷ signed_input 1 ∷ [];
  tx_outs =
      record { value = 500; block_height = 0; script_pub_key = hash_script (replicate 20 5) }
      ∷ record { value = 200; block_height = 0; script_pub_key = ours }
      ∷ [];
  lock_time = 0;
  size = 0;
  hash = some one;
}

made : make_signed_tx plain_crypto same_signature wallet listed ≡ done (payment, at 2 ∷ [])
unfolding make_signed_tx owns from? new_addr_from_pub_key input_script new_public_key signature_hash
    sign_padded
made = refl

looked_up : uo wallet (at 1) ≡ done four_hundred
unfolding uo bytes_equal
looked_up = refl

make_signed_tx-verifies_example :
    (key : Bytes) × (s : IsSigned plain_crypto payment 1 four_hundred key
      (signed_input 1).script_sig)
    × (replicate 20 2 ≡ rimp160_after_sha256 plain_crypto key)
    × (verify_tx_script plain_crypto payment 1 (signed_input 1).script_sig ours
        ≡ returned true (key ∷ s.sig ∷ []))
make_signed_tx-verifies_example =
    make_signed_tx-verifies plain_crypto same_signature wallet listed base_pair-IsPair made 1
      (signed_input 1) four_hundred (replicate 20 2) refl looked_up refl refl

sent : send_money plain_crypto same_signature wallet listed ≡ done (some (payment, at 2 ∷ []))
unfolding send_money make_signed_tx owns from? new_addr_from_pub_key input_script new_public_key
    signature_hash sign_padded
sent = refl

held : total_value wallet listed < 2 ^ 64
unfolding total_value uo bytes_equal
held = omega arith

asked : total_amount wallet.send_to + wallet.fee_btc < 2 ^ 64
unfolding total_amount
asked = omega arith

send_money-balances_example :
    (total_value wallet (outpoints payment) ≡ total payment.tx_outs + wallet.fee_btc)
    × ((tot : ℕ) × (load_balance plain_crypto wallet listed ([], 0)
          ≡ done (outpoints payment ++ at 2 ∷ [], tot)))
send_money-balances_example =
    send_money-balances plain_crypto same_signature wallet listed asked held sent

four_hundred-owner :
    owner plain_crypto wallet.keys four_hundred.script_pub_key ≡ done (some base_pair)
unfolding owner owns from? new_addr_from_pub_key rimp160_after_sha256 bytes_equal
four_hundred-owner = refl

at-IsOurs :
    (n : ℕ)
    → uo wallet (at n) ≡ done four_hundred
    → IsOurs plain_crypto same_signature wallet (at n)
at-IsOurs n up = (four_hundred, replicate 20 2, base_pair, up, refl, refl, four_hundred-owner)

listed-IsOurs : All (IsOurs plain_crypto same_signature wallet) listed
unfolding uo bytes_equal
listed-IsOurs = (at-IsOurs 0 refl, (at-IsOurs 1 refl, (at-IsOurs 2 refl, tt)))

make_signed_tx-completes_example :
    (tx : Tx) × (kept : List TxPrevOut) × (make_signed_tx plain_crypto same_signature wallet listed
      ≡ done (tx, kept))
make_signed_tx-completes_example =
    make_signed_tx-completes plain_crypto same_signature wallet base_pair-IsPair
      (λ i d h. ((5, 200), refl)) listed listed-IsOurs (omega arith) refl
