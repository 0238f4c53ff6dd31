-- ===== src/Qdb/Spent.antt =====
-- core/qdb/spent.go: the records of the unwind data.
pub mod RoundTrip
use yoin.Base.{
  ℕ, ◌-◌, Bool, ◌||◌, List, [], ◌∷◌, ◌++◌, Option, none, some, ltb, ◌==◌, if◌then◌else◌, length,
  take, drop, replicate,
}
use yoin.Bytes.{Bytes, le_bytes, le_value}
use yoin.Tx.{TxPrevOut, TxOut}

-- `none` for a nil output: the output was added.
unfoldable pub write_spent : TxPrevOut → Option TxOut → Bytes
write_spent po none = 1 ∷ (po.pre_out_tx_hash ++ le_bytes 4 po.out_idx_in_tx)
write_spent po (some to) =
    0
    ∷ (po.pre_out_tx_hash
        ++ (le_bytes 4 po.out_idx_in_tx
            ++ (le_bytes 8 to.value
                ++ (le_bytes 4 (length to.script_pub_key) ++ to.script_pub_key))))

-- A nil `po`, at the end or where no record starts; a record with the bytes behind it; or a panic.
pub data SpentRead : Type 0 where
  no_record : SpentRead
  record_read : TxPrevOut → Option TxOut → Bytes → SpentRead
  unexpected_end : SpentRead

-- `f.Read(b)` on a reader: what is read, and zeros where the input is too short.
unfoldable pub read_padded : ℕ → Bytes → Bytes
read_padded n b = take n b ++ replicate (n - length b) 0

-- The part of a record that only a deleted output has.
unfoldable pub read_deleted : TxPrevOut → Bytes → SpentRead
unfolding le_value read_padded
read_deleted po b =
    let n = le_value (take 4 (drop 8 b)) in
    if ltb (length b) 12
    then unexpected_end
    else record_read po
        (some (record {
          value = le_value (take 8 b);
          block_height = 0;
          script_pub_key = read_padded n (drop 12 b);
        }))
        (drop n (drop 12 b))

unfoldable pub read_spent : Bytes → SpentRead
unfolding read_deleted le_value
read_spent [] = no_record
read_spent (tag ∷ b) =
    let po : TxPrevOut = record {
      pre_out_tx_hash = take 32 b;
      out_idx_in_tx = le_value (take 4 (drop 32 b));
    } in
    if ltb (length (tag ∷ b)) 37 || ltb 1 tag
    then no_record
    else if tag == 0
    then read_deleted po (drop 36 b)
    else record_read po none (drop 36 b)
