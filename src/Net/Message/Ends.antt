-- ===== src/Net/Message/Ends.antt =====
-- What `FetchMessage` comes to with the `SockRead` it calls.
use yoin.Base.{
  ℕ, zero, suc, ◌-◌, ◌*◌, ◌<◌, ◌≡◌, refl, sym, ◌∙◌, false, [], Option, none, ltb, length, arith,
  lt→ltb, Bool-cases, inl, inr,
}
use yoin.Bytes.{Bytes}
use yoin.Crypto.{Crypto}
use yoin.Net.Bandwidth.{Bandwidth, NetError, timed_out, not_timeout, ReadResult}
use yoin.Net.Bandwidth.Limit.{sock_read_panics}
use yoin.Net.Message.{
  Connection, Input, BcMsg, panicked, returned, ended, out_of_fuel, send_raw_msg, dos, handle_error,
  read_header, fetch_message, after_reads,
}

-- What `new(oneConnection)` has.
abbrev pub new_connection : Connection
new_connection = record {
  broken = false;
  ban_it = false;
  hdr = [];
  dat = none;
  send_buf = [];
  last_cmd_sent = [];
  bytes_received = 0;
}

module _ (c : Crypto) (magic : Bytes) {S : Type 0} (con_read : S → ℕ → ReadResult S) where
  -- A new connection after calls of the functions of net.go that change what is modelled of it, in any
  -- order; what the socket, the counters and the mutex are at each call is left open. The bytes that
  -- wait to be sent may be taken away.
  pub data Reachable : Connection → Type 0 where
    opened : Reachable new_connection
    sent :
        {k : Connection} (cmd pl : Bytes) → Reachable k → Reachable (send_raw_msg c magic k cmd pl)
    flushed : {k : Connection} (buf : Bytes) → Reachable k → Reachable (record k { send_buf = buf })
    banned : {k : Connection} → Reachable k → Reachable (dos k)
    failed : {k : Connection} (e : NetError) → Reachable k → Reachable (handle_error e k)
    fetched :
        {k : Connection} (fuel : ℕ) (con : S) (b : Bandwidth) (m : Option BcMsg) (i : Input S)
        → Reachable k
        → fetch_message c magic con_read fuel (record { conn = k; con = con; bandwidth = b })
          ≡ returned m i
        → Reachable i.conn

  short-panicked :
      (fuel : ℕ) (i : Input S)
      → length i.conn.hdr < 24
      → read_header c magic con_read (suc fuel) i ≡ panicked
  unfolding read_header
  short-panicked fuel i short =
      rw
        (
          read_header,
          lt→ltb (length i.conn.hdr) 24 short,
          sock_read_panics con_read i.con (24 - length i.conn.hdr) i.bandwidth,
        )
        refl

  short-ended :
      (fuel : ℕ) (i : Input S)
      → length i.conn.hdr < 24
      → fetch_message c magic con_read (suc fuel) i ≡ ended
  unfolding fetch_message after_reads
  short-ended fuel i short = rw (fetch_message, short-panicked fuel i short, after_reads) refl

  short-out_of_fuel :
      (i : Input S) → length i.conn.hdr < 24 → fetch_message c magic con_read zero i ≡ out_of_fuel
  unfolding fetch_message read_header after_reads
  short-out_of_fuel i short =
      rw (fetch_message, read_header, lt→ltb (length i.conn.hdr) 24 short, after_reads) refl

  -- No connection ever has a whole header.
  reachable-short : {k : Connection} → Reachable k → length k.hdr < 24
  unfolding send_raw_msg dos handle_error
  reachable-short opened = omega arith
  reachable-short (sent {k} cmd pl r) = elim (Bool-cases (ltb (1024 * 1024) (length k.send_buf))) [
    | inl e ↦ rw (send_raw_msg, e) (reachable-short r)
    | inr e ↦ rw (send_raw_msg, e) (reachable-short r)
  ]
  reachable-short (flushed buf r) = reachable-short r
  reachable-short (banned r) = reachable-short r
  reachable-short (failed timed_out r) = reachable-short r
  reachable-short (failed not_timeout r) = omega arith
  reachable-short (fetched {k} zero con b m i r e) =
      let e' : out_of_fuel ≡ returned m i =
        sym (short-out_of_fuel (record { conn = k; con = con; bandwidth = b }) (reachable-short r))
        ∙ e in
      cc
  reachable-short (fetched {k} (suc fuel) con b m i r e) =
      let e' : ended ≡ returned m i =
        sym (short-ended fuel (record { conn = k; con = con; bandwidth = b }) (reachable-short r))
        ∙ e in
      cc

  -- On a new connection after any of these calls, with any socket and any state of the counters and
  -- the mutex, `FetchMessage` ends the program, if no other goroutine uses the mutex during the call:
  -- its first `SockRead` unlocks twice, or waits for a mutex that nobody releases. So it returns
  -- neither a message nor nil. The fuel is for at least one call of `SockRead`.
  pub fetch_message-ended :
      (k : Connection) (fuel : ℕ) (con : S) (b : Bandwidth)
      → Reachable k
      → fetch_message c magic con_read (suc fuel) (record { conn = k; con = con; bandwidth = b })
        ≡ ended
  fetch_message-ended k fuel con b r =
      short-ended fuel (record { conn = k; con = con; bandwidth = b }) (reachable-short r)
