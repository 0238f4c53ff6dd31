-- ===== src/Net/Examples.antt =====
-- Messages between two nodes, for client/net.go and client/bwlimit.go.
use yoin.Base.{
  ℕ, ◌≤◌, ◌≡◌, refl, arith, [], ◌∷◌, ◌++◌, none, some, true, false, length, replicate, take, drop,
}
use yoin.Bytes.{Bytes}
use yoin.Crypto.{Crypto}
use yoin.Net.Message.{Input, ended, header, send_raw_msg, fetch_message}
use yoin.Net.Message.Ends.{opened, sent, new_connection, fetch_message-ended}
use yoin.Net.Bandwidth.{Bandwidth, Counters, ReadResult}
use yoin.Net.Bandwidth.Limit.{write_all, write_all-limit}

abbrev c : Crypto
c = record {
  sha256 = λ b. length b ∷ replicate 31 1;
  ripemd160 = λ b. replicate 20 2;
  ecdsa_verify = λ x y h r s. true;
}

abbrev magic : Bytes
magic = 0xF9 ∷ 0xBE ∷ 0xB4 ∷ 0xD9 ∷ []

abbrev cmd : Bytes
cmd = 105 ∷ 110 ∷ 118 ∷ []

abbrev pl : Bytes
pl = 1 ∷ 2 ∷ 3 ∷ []

abbrev nothing : Counters
nothing = record { last_sec = 0; bytes_so_far = 0; bytes_prv_sec = 0; bytes_total = 0 }

abbrev slow : Bandwidth
slow = record { locked = false; dl = nothing; download_limit = 4; ul = nothing; upload_limit = 4 }

-- A socket as the bytes that are there.
abbrev stream_read : Bytes → ℕ → ReadResult Bytes
stream_read s n = record { bytes = take n s; err = none; con = drop n s }

-- A connection that has sent a message, with an answer in its socket.
fetch_message-ended_example :
    fetch_message c magic stream_read 1 (record {
      conn = send_raw_msg c magic new_connection cmd pl;
      con = header c magic cmd pl ++ pl;
      bandwidth = slow;
    })
    ≡ ended
fetch_message-ended_example =
    fetch_message-ended c magic stream_read (send_raw_msg c magic new_connection cmd pl) 0
      (header c magic cmd pl ++ pl) slow (sent cmd pl opened)

abbrev filled : Input Bytes
filled = record {
  conn = record new_connection { hdr = header c magic cmd pl; dat = some pl };
  con = [];
  bandwidth = slow;
}

write_all-limit_example :
    (out : ℕ) × (b : Bandwidth) × (write_all 9 (pl ∷ pl ∷ pl ∷ []) slow ≡ some (out, b)) × (out ≤ 4)
write_all-limit_example =
    write_all-limit 9 (pl ∷ pl ∷ pl ∷ []) slow refl (omega arith) (omega arith) (omega arith)
