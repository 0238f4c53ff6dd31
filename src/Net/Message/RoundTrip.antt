-- ===== src/Net/Message/RoundTrip.antt =====
-- What `FetchMessage` does behind its reads, for what `SendRawMsg` wrote.
use native.Mathlib.Nat.{mod-eq_of_lt}
use yoin.Base.{
  ℕ, zero, suc, ◌+◌, ◌-◌, ◌*◌, ◌%◌, ◌^◌, ◌≤◌, ◌<◌, ◌≡◌, refl, sym, ap, ◌∙◌, [], ◌∷◌, ◌++◌, none,
  length, take, drop, replicate, arith, length-append, length-replicate, append_assoc, take-append,
  drop-append, take_all, length-take,
}
use yoin.Bytes.{Bytes, le_value, le_bytes}
use yoin.Bytes.Laws.{length-le_bytes, le_value-le_bytes}
use yoin.Crypto.{Crypto, DigestSizes, sha2_sum}
use yoin.Net.Message.{Connection, trim_right, padded, header, send_raw_msg, got}

-- What the fields of a header hold.
pub record IsHeader (c : Crypto) (magic h cmd pl : Bytes) : Type 0 where
  pub size : length h ≡ 24
  pub starts : take 4 h ≡ magic
  pub names : trim_right (take 12 (drop 4 h)) ≡ cmd
  pub counts : le_value (take 4 (drop 16 h)) ≡ length pl
  pub sums : take 4 (drop 20 h) ≡ take 4 (sha2_sum c pl)

-- A command as the protocol has it: at most 12 bytes, and no zero at its end.
pub record IsCommand (cmd : Bytes) : Type 0 where
  pub fits : length cmd ≤ 12
  pub trimmed : trim_right cmd ≡ cmd

trim_right-zeros : (n : ℕ) → trim_right (replicate n 0) ≡ []
unfolding trim_right
trim_right-zeros zero = refl
trim_right-zeros (suc n) = rw (trim_right, trim_right-zeros n) refl

trim_right-append : (cmd : Bytes) (n : ℕ) → trim_right (cmd ++ replicate n 0) ≡ trim_right cmd
unfolding trim_right
trim_right-append [] n = trim_right-zeros n
trim_right-append (x ∷ cmd) n = rw (trim_right, trim_right-append cmd n) refl

length-padded : (cmd : Bytes) → IsCommand cmd → length (padded 12 cmd) ≡ 12
unfolding padded
length-padded cmd is =
    length-append (take 12 cmd) (replicate (12 - length cmd) 0)
    ∙ omega (
      arith,
      ap length (take_all 12 cmd is.fits),
      length-replicate {A = ℕ} (12 - length cmd) 0,
      is.fits,
    )

trim_right-padded : (cmd : Bytes) → IsCommand cmd → trim_right (padded 12 cmd) ≡ cmd
unfolding padded
trim_right-padded cmd is =
    ap (λ t. trim_right (t ++ replicate (12 - length cmd) 0)) (take_all 12 cmd is.fits)
    ∙ (trim_right-append cmd (12 - length cmd) ∙ is.trimmed)

module _ (c : Crypto) (sizes : DigestSizes c) (magic cmd pl : Bytes) (four : length magic ≡ 4)
    (command : IsCommand cmd) (small : length pl < 2 ^ 32) where
  abbrev name : Bytes
  name = padded 12 cmd

  abbrev count : Bytes
  count = le_bytes 4 (length pl % 2 ^ 32)

  abbrev sum : Bytes
  sum = take 4 (sha2_sum c pl)

  length-sum : length sum ≡ 4
  unfolding sha2_sum
  length-sum = length-take 4 (sha2_sum c pl) (omega (arith, sizes.sha256_size (c.sha256 pl)))

  after_magic : drop 4 (header c magic cmd pl) ≡ name ++ (count ++ sum)
  unfolding header
  after_magic = drop-append 4 magic (name ++ (count ++ sum)) four

  after_name : drop 16 (header c magic cmd pl) ≡ count ++ sum
  unfolding header
  after_name =
      ap (drop 16) (sym (append_assoc magic name (count ++ sum)))
      ∙ drop-append 16 (magic ++ name) (count ++ sum)
          (length-append magic name ∙ omega (arith, four, length-padded cmd command))

  after_count : drop 20 (header c magic cmd pl) ≡ sum
  unfolding header
  after_count =
      ap (drop 20) (
        sym (append_assoc magic name (count ++ sum)) ∙ sym (append_assoc (magic ++ name) count sum))
      ∙ drop-append 20 ((magic ++ name) ++ count) sum (
          length-append (magic ++ name) count
          ∙ (omega (
            arith,
            length-append magic name,
            four,
            length-padded cmd command,
            length-le_bytes 4 (length pl % 2 ^ 32),
          )))

  pub header-IsHeader : IsHeader c magic (header c magic cmd pl) cmd pl
  unfolding header
  header-IsHeader = record {
    size =
        length-append magic (name ++ (count ++ sum))
        ∙ omega (
          arith,
          four,
          length-append name (count ++ sum),
          length-append count sum,
          length-padded cmd command,
          length-le_bytes 4 (length pl % 2 ^ 32),
          length-sum,
        );
    starts = take-append 4 magic (name ++ (count ++ sum)) four;
    names =
        ap (λ t. trim_right (take 12 t)) after_magic
        ∙ (ap trim_right (take-append 12 name (count ++ sum) (length-padded cmd command))
            ∙ trim_right-padded cmd command);
    counts =
        ap (λ t. le_value (take 4 t)) after_name
        ∙ (ap le_value (take-append 4 count sum (length-le_bytes 4 (length pl % 2 ^ 32)))
            ∙ (le_value-le_bytes 4 (length pl % 2 ^ 32) (omega arith) ∙ mod-eq_of_lt small));
    sums = ap (take 4) after_count ∙ take_all 4 sum (omega (arith, length-sum));
  }

  abbrev pub received : Connection → Connection
  received k = record k {
    hdr = [];
    dat = none;
    bytes_received = (k.bytes_received + 24 + length pl) % 2 ^ 64;
  }

  -- A connection whose buffers hold the bytes that `SendRawMsg` added.
  pub record Holds (k0 k : Connection) : Type 0 where
    pub room : length k0.send_buf ≤ 1024 * 1024
    pub whole_header : length k.hdr ≡ 24
    pub written : (send_raw_msg c magic k0 cmd pl).send_buf ≡ k0.send_buf ++ (k.hdr ++ got k)
