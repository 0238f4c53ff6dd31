-- ===== src/Net/Message.antt =====
-- client/net.go: messages on the wire. A header of 24 bytes holds the magic, the command in 12 bytes,
-- the length of the payload and the start of its checksum; the payload follows.
-- `hdr` and `dat` of a connection hold the `hdr_len` and `datlen` bytes received so far; the rest of
-- the two buffers is not read.
-- The `TCPConn` is a state with its `Read`; the two loops of `FetchMessage` run on fuel, one for each
-- call of `SockRead`.
pub mod Ends
pub mod RoundTrip
use yoin.Base.{
  ℕ, zero, suc, ◌+◌, ◌-◌, ◌*◌, ◌%◌, ◌^◌, Bool, true, false, ◌&&◌, not, List, [], ◌∷◌, ◌++◌, Option,
  none, some, ltb, leb, ◌==◌, if◌then◌else◌, length, take, drop, replicate,
}
use yoin.Bytes.{Bytes, le_bytes, le_value, bytes_equal}
use yoin.Crypto.{Crypto, sha2_sum}
use yoin.Net.Bandwidth.{Bandwidth, NetError, timed_out, not_timeout, ReadResult, sock_read}

pub record Connection : Type 0 where
  pub broken : Bool
  pub ban_it : Bool
  pub hdr : Bytes
  pub dat : Option Bytes
  pub send_buf : Bytes
  pub last_cmd_sent : Bytes
  pub bytes_received : ℕ

-- `var buf [n]byte; copy(buf[:], b)`
unfoldable pub padded : ℕ → Bytes → Bytes
padded n b = take n b ++ replicate (n - length b) 0

module _ (c : Crypto) (magic : Bytes) where
  unfoldable pub header : Bytes → Bytes → Bytes
  unfolding padded le_bytes sha2_sum
  header cmd pl =
      magic ++ (padded 12 cmd ++ (le_bytes 4 (length pl % 2 ^ 32) ++ take 4 (sha2_sum c pl)))

  -- A message is dropped, with no error, behind more than 1 MiB that wait.
  unfoldable pub send_raw_msg : Connection → Bytes → Bytes → Connection
  unfolding header
  send_raw_msg k cmd pl =
      if ltb (1024 * 1024) (length k.send_buf)
      then k
      else record k { last_cmd_sent = cmd; send_buf = k.send_buf ++ (header cmd pl ++ pl) }

unfoldable pub dos : Connection → Connection
dos k = record k { ban_it = true; broken = true }

unfoldable pub handle_error : NetError → Connection → Connection
handle_error timed_out k = k
handle_error not_timeout k = record k { hdr = []; dat = none; broken = true }

pub record BcMsg : Type 0 where
  pub cmd : Bytes
  pub pl : Bytes

-- `strings.TrimRight(s, "\000")`
unfoldable pub trim_right : Bytes → Bytes
trim_right [] = []
trim_right (x ∷ s) = elim (trim_right s) [ [] ↦ if x == 0 then [] else x ∷ [] | y ∷ r ↦ x ∷ y ∷ r ]

abbrev pub got : Connection → Bytes
got k = elim k.dat [ none ↦ [] | some d ↦ d ]

-- The connection, its socket, and the counters with their mutex.
pub record Input (S : Type 0) : Type 0 where
  pub conn : Connection
  pub con : S
  pub bandwidth : Bandwidth

-- A loop is over, has returned nil, or has ended the program; or the fuel has run out.
pub data Progress (S : Type 0) : Type 0 where
  full gave_up : Input S → Progress S
  panicked no_fuel : Progress S

-- The message or nil that is returned; or the end of the program.
pub data FetchResult (S : Type 0) : Type 0 where
  returned : Option BcMsg → Input S → FetchResult S
  ended out_of_fuel : FetchResult S

-- The tests behind a read of the payload: the connection with which nil is returned.
unfoldable pub payload_stop : Option NetError → Connection → Option Connection
unfolding handle_error
payload_stop (some e) k = some (handle_error e k)
payload_stop none k = if k.broken then some k else none

module _ (c : Crypto) (magic : Bytes) where
  -- The same behind a read of the header.
  unfoldable pub header_stop : Option NetError → Connection → Option Connection
  unfolding handle_error
  header_stop (some e) k = some (handle_error e k)
  header_stop none k =
      if leb 4 (length k.hdr) && not (bytes_equal (take 4 k.hdr) magic)
      then some (record k { broken = true })
      else if k.broken
      then some k
      else none

  -- From the checksum on.
  unfoldable pub take_message : Connection → Option BcMsg × Connection
  unfolding trim_right dos sha2_sum
  take_message k =
      let pl = got k in
      if not (bytes_equal (take 4 (drop 20 k.hdr)) (take 4 (sha2_sum c pl)))
      then (none, record (dos k) { hdr = []; dat = none; broken = true })
      else (
        some (record { cmd = trim_right (take 12 (drop 4 k.hdr)); pl = pl }),
        record k {
          hdr = [];
          dat = none;
          bytes_received = (k.bytes_received + 24 + length pl) % 2 ^ 64;
        },
      )

module _ (c : Crypto) (magic : Bytes) {S : Type 0} (con_read : S → ℕ → ReadResult S) where
  -- The loop over the header.
  unfoldable pub read_header : ℕ → Input S → Progress S
  unfolding sock_read header_stop
  read_header zero i = if ltb (length i.conn.hdr) 24 then no_fuel else full i
  read_header (suc fuel) i =
      if ltb (length i.conn.hdr) 24
      then elim (sock_read con_read i.con (24 - length i.conn.hdr) i.bandwidth) [
        | none ↦ panicked
        | some (r, b) ↦
            let k = record i.conn { hdr = i.conn.hdr ++ r.bytes } in
            elim (header_stop c magic r.err k) [
              | some k' ↦ gave_up (record { conn = k'; con = r.con; bandwidth = b })
              | none ↦ read_header fuel (record { conn = k; con = r.con; bandwidth = b })
            ]
      ]
      else full i

  -- The loop over the payload, for a buffer that is there.
  unfoldable pub read_payload : ℕ → ℕ → Input S → Progress S
  unfolding sock_read payload_stop
  read_payload dlen zero i = if ltb (length (got i.conn)) dlen then no_fuel else full i
  read_payload dlen (suc fuel) i =
      if ltb (length (got i.conn)) dlen
      then elim (sock_read con_read i.con (dlen - length (got i.conn)) i.bandwidth) [
        | none ↦ panicked
        | some (r, b) ↦
            let k = record i.conn { dat = some (got i.conn ++ r.bytes) } in
            elim (payload_stop r.err k) [
              | some k' ↦ gave_up (record { conn = k'; con = r.con; bandwidth = b })
              | none ↦ read_payload dlen fuel (record { conn = k; con = r.con; bandwidth = b })
            ]
      ]
      else full i

  unfoldable pub after_reads : Progress S → FetchResult S
  unfolding take_message
  after_reads (full i) =
      let (m, k) = take_message c magic i.conn in returned m (record i { conn = k })
  after_reads (gave_up i) = returned none i
  after_reads panicked = ended
  after_reads no_fuel = out_of_fuel

  -- For the length of the payload that the header tells.
  unfoldable pub with_length : ℕ → ℕ → Input S → FetchResult S
  unfolding read_payload after_reads
  with_length dlen fuel i =
      if ltb 0 dlen
      then after_reads
          (read_payload dlen fuel (record i { conn = record i.conn { dat = some (got i.conn) } }))
      else after_reads (full i)

  unfoldable pub fetch_message : ℕ → Input S → FetchResult S
  unfolding read_header with_length le_value after_reads
  fetch_message fuel i = elim (read_header fuel i) [
    | full i' ↦ with_length (le_value (take 4 (drop 16 i'.conn.hdr))) fuel i'
    | stopped ↦ after_reads stopped
  ]
