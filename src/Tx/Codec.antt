-- ===== src/Tx/Codec.antt =====
-- core/tx.go: `Serialize`, `DeserializeTxOut`, `DeserializeTxIn` and `DeserializeTx`.
pub mod RoundTrip
use yoin.Base.{ℕ, zero, suc, ◌+◌, List, [], ◌∷◌, ◌++◌, Option, none, some, ◌>>=◌, length}
use yoin.Bytes.{Bytes, le_bytes, le_value, from?, prefix?, slice?}
use yoin.VarLen.{var_len_field, load_var_len}
use yoin.Tx.{TxPrevOut, TxIn, TxOut, Tx}

unfoldable pub serialize_tx_in : TxIn → Bytes
serialize_tx_in i =
    i.input.pre_out_tx_hash
    ++ (le_bytes 4 i.input.out_idx_in_tx
        ++ (var_len_field (length i.script_sig) ++ (i.script_sig ++ le_bytes 4 i.sequence)))

unfoldable pub serialize_tx_out : TxOut → Bytes
serialize_tx_out o =
    le_bytes 8 o.value ++ (var_len_field (length o.script_pub_key) ++ o.script_pub_key)

-- A `for` loop that writes the elements one after another.
unfoldable pub write_all {ℓ} : {A : Type ℓ} → (A → Bytes) → List A → Bytes
write_all f [] = []
write_all f (x ∷ xs) = f x ++ write_all f xs

unfoldable pub serialize : Tx → Bytes
unfolding serialize_tx_in serialize_tx_out write_all
serialize t =
    le_bytes 4 t.version
    ++ (var_len_field (length t.tx_ins)
        ++ (write_all serialize_tx_in t.tx_ins
            ++ (var_len_field (length t.tx_outs)
                ++ (write_all serialize_tx_out t.tx_outs ++ le_bytes 4 t.lock_time))))

unfoldable pub deserialize_tx_out : Bytes → Option (TxOut × ℕ)
deserialize_tx_out b = do
  v ← prefix? 8 b
  r ← from? 8 b
  (l, n) ← load_var_len r
  s ← slice? b (8 + n) (8 + n + l)
  some (record { value = le_value v; block_height = 0; script_pub_key = s }, 8 + n + l)

unfoldable pub deserialize_tx_in : Bytes → Option (TxIn × ℕ)
deserialize_tx_in b = do
  h ← prefix? 32 b
  i ← slice? b 32 36
  r ← from? 36 b
  (l, n) ← load_var_len r
  s ← slice? b (36 + n) (36 + n + l)
  q ← slice? b (36 + n + l) (36 + n + l + 4)
  some (
    record {
      input = record { pre_out_tx_hash = h; out_idx_in_tx = le_value i };
      script_sig = s;
      sequence = le_value q;
    },
    36 + n + l + 4,
  )

-- `for i := range ... { xs[i], n = dec(b[offs:]); offs += n }`: the elements and the last `offs`.
unfoldable pub read_all {ℓ} :
    {A : Type ℓ} → (Bytes → Option (A × ℕ)) → ℕ → Bytes → ℕ → Option (List A × ℕ)
read_all dec zero b offs = some ([], offs)
read_all dec (suc k) b offs = do
  r ← from? offs b
  (x, n) ← dec r
  (xs, end) ← read_all dec k b (offs + n)
  some (x ∷ xs, end)

unfoldable pub deserialize_tx : Bytes → Option (Tx × ℕ)
unfolding deserialize_tx_in deserialize_tx_out read_all
deserialize_tx b = do
  v ← prefix? 4 b
  r ← from? 4 b
  (l, n) ← load_var_len r
  (ins, offs) ← read_all deserialize_tx_in l b (4 + n)
  r' ← from? offs b
  (l', n') ← load_var_len r'
  (outs, offs') ← read_all deserialize_tx_out l' b (offs + n')
  k ← slice? b offs' (offs' + 4)
  some (
    record {
      version = le_value v;
      tx_ins = ins;
      tx_outs = outs;
      lock_time = le_value k;
      size = 0;
      hash = none;
    },
    offs' + 4,
  )
