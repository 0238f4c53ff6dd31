-- ===== src/Addr/Scripts.antt =====
-- The scripts that `OutScript` writes and `NewAddrFromPkScript` reads, and what `Owns` says of them.
use yoin.Base.{
  ℕ, zero, suc, ◌≡◌, refl, ap, ◌∙◌, ◌↔◌, true, false, [], ◌∷◌, ◌++◌, none, some, length,
  length-append, get_elem?-append, get_elem?, arith,
}
use yoin.Bytes.{Bytes, from?, slice?, bytes_equal}
use yoin.Bytes.Laws.{bytes_equal_iff, prefix?-append}
use yoin.Crypto.{Crypto}
use yoin.Addr.{
  BtcAddr, byte_at, copy_into, new_addr_from_hash160, pays_to_hash, pays_to_long_key,
  pays_to_short_key, pays_to_script, new_addr_from_pk_script, owned, owns, out_script,
}

copy_into_lem : (n : ℕ) (b : Bytes) → length b ≡ n → copy_into n b ≡ b
unfolding copy_into
copy_into_lem zero [] h = refl
copy_into_lem zero (x ∷ b) h = absurd (omega (arith, h))
copy_into_lem (suc n) [] h = absurd (omega (arith, h))
copy_into_lem (suc n) (x ∷ b) h = ap (λ t. x ∷ t) (copy_into_lem n b (omega (arith, h)))

abbrev pub bare_addr : ℕ → Bytes → BtcAddr
bare_addr ver h = record { version = ver; hash160 = h; pub_key = none }

-- The two templates around a hash of 20 bytes.
abbrev pub hash_script : Bytes → Bytes
hash_script h = 0x76 ∷ 0xa9 ∷ 20 ∷ h ++ (0x88 ∷ 0xac ∷ [])

abbrev pub script_hash_script : Bytes → Bytes
script_hash_script h = 0xa9 ∷ 20 ∷ h ++ (0x87 ∷ [])

module _ (h : Bytes) (size : length h ≡ 20) where
  pays_to_hash-hash_script : pays_to_hash (hash_script h) ≡ true
  unfolding pays_to_hash byte_at
  pays_to_hash-hash_script =
      let len : length (h ++ (0x88 ∷ 0xac ∷ [])) ≡ 22 =
        length-append h (0x88 ∷ 0xac ∷ []) ∙ omega (arith, size) in
      let a : get_elem? (h ++ (0x88 ∷ 0xac ∷ [])) 20 ≡ some 0x88 =
        get_elem?-append h (0x88 ∷ 0xac ∷ []) 20 0 size in
      let b : get_elem? (h ++ (0x88 ∷ 0xac ∷ [])) 21 ≡ some 0xac =
        get_elem?-append h (0x88 ∷ 0xac ∷ []) 20 1 size in
      rw (len, byte_at, a, b)

  slice?-hash_script : slice? (hash_script h) 3 23 ≡ some h
  unfolding slice? from?
  slice?-hash_script = prefix?-append 20 h (0x88 ∷ 0xac ∷ []) size

  script_hash_script-not_hash : pays_to_hash (script_hash_script h) ≡ false
  unfolding pays_to_hash
  script_hash_script-not_hash =
      let len : length (h ++ (0x87 ∷ [])) ≡ 21 =
        length-append h (0x87 ∷ []) ∙ omega (arith, size) in
      rw len

  pays_to_script-script_hash_script : pays_to_script (script_hash_script h) ≡ true
  unfolding pays_to_script byte_at
  pays_to_script-script_hash_script =
      let len : length (h ++ (0x87 ∷ [])) ≡ 21 =
        length-append h (0x87 ∷ []) ∙ omega (arith, size) in
      let a : get_elem? (h ++ (0x87 ∷ [])) 20 ≡ some 0x87 =
        get_elem?-append h (0x87 ∷ []) 20 0 size in
      rw (len, byte_at, a)

  slice?-script_hash_script : slice? (script_hash_script h) 2 22 ≡ some h
  unfolding slice? from?
  slice?-script_hash_script = prefix?-append 20 h (0x87 ∷ []) size

pub owns-hash_script :
    (c : Crypto) (a : BtcAddr) (h : Bytes)
    → length h ≡ 20
    → owns c a (hash_script h) ≡ owned (bytes_equal h a.hash160) a
unfolding owns
owns-hash_script c a h size = rw (pays_to_hash-hash_script h size, slice?-hash_script h size, owns)

-- An address owns the script that another address writes exactly if their hashes are the same, and
-- asking changes nothing.
pub owns-out_script :
    (c : Crypto) (a b : BtcAddr)
    → length b.hash160 ≡ 20
    → (owns c a (out_script b) ≡ owned true a) ↔ (b.hash160 ≡ a.hash160)
unfolding owns out_script
owns-out_script c a b size =
    let copied = copy_into_lem 20 b.hash160 size in
    let t = pays_to_hash-hash_script b.hash160 size in
    let s = slice?-hash_script b.hash160 size in
    let iff = bytes_equal_iff b.hash160 a.hash160 in
    rw (copied, t, s, owns) ((λ e. iff.0 (cc)), (λ e. ap (λ x. owned x a) (iff.1 e)))

-- The address of the script that an address writes has its hash, under the version that is given.
pub new_addr_from_pk_script-out_script :
    (c : Crypto) (a : BtcAddr) (ver : ℕ)
    → length a.hash160 ≡ 20
    → new_addr_from_pk_script c (out_script a) ver ≡ some (some (bare_addr ver a.hash160))
unfolding new_addr_from_pk_script out_script new_addr_from_hash160
new_addr_from_pk_script-out_script c a ver size =
    let copied = copy_into_lem 20 a.hash160 size in
    let t = pays_to_hash-hash_script a.hash160 size in
    let s = slice?-hash_script a.hash160 size in rw (copied, t, s, copied)

module _ (h : Bytes) (size : length h ≡ 20) where
  script_hash_script-not_key :
      (pays_to_long_key (script_hash_script h) ≡ false)
      × (pays_to_short_key (script_hash_script h) ≡ false)
  unfolding pays_to_long_key pays_to_short_key
  script_hash_script-not_key =
      let len : length (h ++ (0x87 ∷ [])) ≡ 21 =
        length-append h (0x87 ∷ []) ∙ omega (arith, size) in
      rw len (refl, refl)

-- A script that pays to the hash of a script has an address, which does not own it.
pub owns-script_hash_script :
    (c : Crypto) (h : Bytes) (ver : ℕ)
    → length h ≡ 20
    → (new_addr_from_pk_script c (script_hash_script h) ver ≡ some (some (bare_addr ver h)))
      × (owns c (bare_addr ver h) (script_hash_script h) ≡ owned false (bare_addr ver h))
unfolding new_addr_from_pk_script new_addr_from_hash160 owns
owns-script_hash_script c h ver size =
    let other = script_hash_script-not_hash h size in
    let (long, short) = script_hash_script-not_key h size in
    let t = pays_to_script-script_hash_script h size in
    let s = slice?-script_hash_script h size in
    let copied = copy_into_lem 20 h size in
    (rw (other, long, t, s, copied) refl, rw (other, long, short) refl)
