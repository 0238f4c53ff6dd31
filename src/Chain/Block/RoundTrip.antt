-- ===== src/Chain/Block/RoundTrip.antt =====
-- Decoding a block from its bytes.
use yoin.Base.{
  ℕ, ◌+◌, ◌%◌, ◌^◌, ◌≤◌, ◌<◌, ◌≡◌, refl, sym, ap, ◌∙◌, false, List, [], ◌++◌, some, ◌>>=◌, ltb,
  length, length-append, append_assoc, All, map, arith, le→ltb_false, Bool-cases, inl, inr, ltb→lt,
}
use yoin.Bytes.{Bytes, le_bytes, from?, prefix?}
use yoin.Bytes.Laws.{length-le_bytes, le_value-le_bytes, prefix?-append, slice?-field, from?-field}
use yoin.Crypto.{Crypto, sha2_sum}
use yoin.VarLen.{var_len_field}
use yoin.VarLen.RoundTrip.{
  load-var_len_field, length-var_len_field_small, length-var_len_field_large,
}
use yoin.Tx.{Tx}
use yoin.Tx.Codec.{serialize, write_all}
use yoin.Tx.Codec.RoundTrip.{TxFits, wire, read_all-write_all, deserialize-serialize}
use yoin.Chain.Block.{Block, deserialize_block, decode_hashed, decode_tx_list_from_raw}

-- A header field by field, with the sizes of the fields.
pub record Header : Type 0 where
  pub version : ℕ
  pub pre_block_hash : Bytes
  pub merkle_root : Bytes
  pub create_time : ℕ
  pub difficulty_target : ℕ
  pub nonce : ℕ

pub record HeaderFits (h : Header) : Type 0 where
  pub version_fits : h.version < 2 ^ 32
  pub previous_length : length h.pre_block_hash ≡ 32
  pub root_length : length h.merkle_root ≡ 32
  pub time_fits : h.create_time < 2 ^ 32
  pub target_fits : h.difficulty_target < 2 ^ 32
  pub nonce_fits : h.nonce < 2 ^ 32

-- The wire form of a header in front of `rest`, and that of a list of transactions.
abbrev pub header_bytes : Header → Bytes → Bytes
header_bytes h rest =
    le_bytes 4 h.version
    ++ (h.pre_block_hash
        ++ (h.merkle_root
            ++ (le_bytes 4 h.create_time
                ++ (le_bytes 4 h.difficulty_target ++ (le_bytes 4 h.nonce ++ rest)))))

abbrev pub tx_list_bytes : List Tx → Bytes
tx_list_bytes ts = var_len_field (length ts) ++ write_all serialize ts

-- A transaction as it comes out of a block.
abbrev pub sealed : Crypto → Tx → Tx
sealed c t = record (wire t) {
  size = length (serialize t) % 2 ^ 32;
  hash = some (sha2_sum c (serialize t));
}

decode_hashed-serialize :
    (c : Crypto) (t : Tx) (rest : Bytes)
    → TxFits t
    → decode_hashed c (serialize t ++ rest) ≡ some (sealed c t, length (serialize t))
unfolding decode_hashed
decode_hashed-serialize c t rest fits =
    rw (deserialize-serialize t rest fits, prefix?-append _ (serialize t) rest refl)

field_nonempty : (n : ℕ) → n ≤ 0x7fffffff → 1 ≤ length (var_len_field n)
field_nonempty n h = elim (Bool-cases (ltb n 0xfd)) [
  | inl e ↦ omega (arith, length-var_len_field_small n (ltb→lt n 0xfd e))
  | inr e ↦ omega (arith, length-var_len_field_large n (ground arith) (omega arith))
]

module _ (h : Header) (fits : HeaderFits h) (rest : Bytes) where
  length-header_bytes : length (header_bytes h rest) ≡ 80 + length rest
  length-header_bytes =
      let v = le_bytes 4 h.version in
      let t = le_bytes 4 h.create_time in
      let d = le_bytes 4 h.difficulty_target in
      let n = le_bytes 4 h.nonce in
      omega (
        arith,
        length-append v (h.pre_block_hash ++ (h.merkle_root ++ (t ++ (d ++ (n ++ rest))))),
        length-append h.pre_block_hash (h.merkle_root ++ (t ++ (d ++ (n ++ rest)))),
        length-append h.merkle_root (t ++ (d ++ (n ++ rest))),
        length-append t (d ++ (n ++ rest)),
        length-append d (n ++ rest),
        length-append n rest,
        length-le_bytes 4 h.version,
        length-le_bytes 4 h.create_time,
        length-le_bytes 4 h.difficulty_target,
        length-le_bytes 4 h.nonce,
        fits.previous_length,
        fits.root_length,
      )

  at_start : from? 0 (header_bytes h rest) ≡ some (header_bytes h rest)
  unfolding from?
  at_start = refl

  deserialize_block-header_bytes :
      (c : Crypto) (head : Bytes)
      → 1 ≤ length rest
      → prefix? 80 (header_bytes h rest) ≡ some head
      → deserialize_block c (header_bytes h rest)
        ≡ some (record {
          version = h.version;
          pre_block_hash = h.pre_block_hash;
          merkle_root = h.merkle_root;
          create_time = h.create_time;
          difficulty_target = h.difficulty_target;
          nonce = h.nonce;
          txs = [];
          raw = header_bytes h rest;
          hash = sha2_sum c head;
          trusted = false;
        })
  unfolding deserialize_block
  deserialize_block-header_bytes c head nonempty p =
      let b = header_bytes h rest in
      let v = le_bytes 4 h.version in
      let t = le_bytes 4 h.create_time in
      let d = le_bytes 4 h.difficulty_target in
      let n = le_bytes 4 h.nonce in
      let lv = length-le_bytes 4 h.version in
      let lt = length-le_bytes 4 h.create_time in
      let ld = length-le_bytes 4 h.difficulty_target in
      let ln = length-le_bytes 4 h.nonce in
      let at4 = from?-field 0 4 b v _ at_start lv in
      let at36 = from?-field 4 32 b h.pre_block_hash _ at4 fits.previous_length in
      let at68 = from?-field 36 32 b h.merkle_root _ at36 fits.root_length in
      let at72 = from?-field 68 4 b t _ at68 lt in
      let at76 = from?-field 72 4 b d _ at72 ld in
      let long : ltb (length b) 81 ≡ false =
        le→ltb_false _ _ (omega (arith, length-header_bytes, nonempty)) in
      rw
        (
          long,
          p,
          slice?-field 0 4 b v _ at_start lv,
          slice?-field 4 32 b h.pre_block_hash _ at4 fits.previous_length,
          slice?-field 36 32 b h.merkle_root _ at36 fits.root_length,
          slice?-field 68 4 b t _ at68 lt,
          slice?-field 72 4 b d _ at72 ld,
          slice?-field 76 4 b n rest at76 ln,
          le_value-le_bytes 4 h.version fits.version_fits,
          le_value-le_bytes 4 h.create_time fits.time_fits,
          le_value-le_bytes 4 h.difficulty_target fits.target_fits,
          le_value-le_bytes 4 h.nonce fits.nonce_fits,
        )
        refl

  from?-header_bytes : from? 80 (header_bytes h rest) ≡ some rest
  from?-header_bytes =
      let b = header_bytes h rest in
      let at4 = from?-field 0 4 b (le_bytes 4 h.version) _ at_start (length-le_bytes 4 h.version) in
      let at36 = from?-field 4 32 b h.pre_block_hash _ at4 fits.previous_length in
      let at68 = from?-field 36 32 b h.merkle_root _ at36 fits.root_length in
      let at72 =
        from?-field 68 4 b (le_bytes 4 h.create_time) _ at68 (length-le_bytes 4 h.create_time) in
      let at76 =
        from?-field 72 4 b (le_bytes 4 h.difficulty_target) _ at72
          (length-le_bytes 4 h.difficulty_target) in
      from?-field 76 4 b (le_bytes 4 h.nonce) rest at76 (length-le_bytes 4 h.nonce)

module _ (h : Header) (fits : HeaderFits h) where
  prefix?-header_bytes :
      (rest : Bytes) → prefix? 80 (header_bytes h rest) ≡ some (header_bytes h [])
  prefix?-header_bytes rest =
      let e : header_bytes h [] ++ rest ≡ header_bytes h rest = simp append_assoc in
      rw (sym e) (prefix?-append 80 (header_bytes h []) rest (length-header_bytes h fits []))

-- The block with these parts.
abbrev pub block_of : Crypto → Header → List Tx → Bytes → Block
block_of c h ts rest = record {
  version = h.version;
  pre_block_hash = h.pre_block_hash;
  merkle_root = h.merkle_root;
  create_time = h.create_time;
  difficulty_target = h.difficulty_target;
  nonce = h.nonce;
  txs = map (sealed c) ts;
  raw = header_bytes h (tx_list_bytes ts ++ rest);
  hash = sha2_sum c (header_bytes h []);
  trusted = false;
}

-- Decoding the bytes of a block, whatever follows them, gives back its header and its transactions,
-- each with the count of its bytes and the hash of exactly those bytes, and the hash of the 80 bytes
-- of the header, if every field has the size of its type and there are at most 0x7fffffff
-- transactions.
pub decode_tx_list_from_raw-deserialize_block :
    (c : Crypto) (h : Header) (ts : List Tx) (rest : Bytes)
    → HeaderFits h
    → All TxFits ts
    → length ts ≤ 0x7fffffff
    → (deserialize_block c (header_bytes h (tx_list_bytes ts ++ rest))
        >>= decode_tx_list_from_raw c)
      ≡ some (block_of c h ts rest)
unfolding decode_tx_list_from_raw
decode_tx_list_from_raw-deserialize_block c h ts rest fits all count =
    let field = var_len_field (length ts) in
    let body = write_all serialize ts in
    let tail = (field ++ body) ++ rest in
    let b = header_bytes h tail in
    let nonempty : 1 ≤ length tail = omega (
      arith,
      length-append (field ++ body) rest,
      length-append field body,
      field_nonempty (length ts) count,
    ) in
    let start =
      deserialize_block-header_bytes h fits tail c (header_bytes h []) nonempty
        (prefix?-header_bytes h fits tail) in
    let here = from?-header_bytes h fits tail in
    let e : tail ≡ field ++ (body ++ rest) = append_assoc field body rest in
    let here' : from? 80 b ≡ some (field ++ (body ++ rest)) = here ∙ ap some e in
    let in_list = from?-field 80 (length field) b field (body ++ rest) here' refl in
    let decoded =
      read_all-write_all serialize (decode_hashed c) (sealed c) TxFits (decode_hashed-serialize c)
        ts b rest (80 + length field) all in_list in
    rw (start, here', load-var_len_field (length ts) (body ++ rest) count, decoded) refl
