-- ===== src/Net/Bandwidth.antt =====
-- client/bwlimit.go: what the limits of the upload and the download let through. `now` is the clock
-- in seconds, and the counters are those of the two directions.
pub mod Limit
use yoin.Base.{
  ℕ, ◌+◌, ◌-◌, ◌*◌, ◌/◌, ◌%◌, ◌^◌, Bool, true, false, not, [], Option, none, some, ◌>>=◌, ltb, ◌==◌,
  if◌then◌else◌, length, take,
}
use yoin.Bytes.{Bytes}

pub record Counters : Type 0 where
  pub last_sec : ℕ
  pub bytes_so_far : ℕ
  pub bytes_prv_sec : ℕ
  pub bytes_total : ℕ

pub record Bandwidth : Type 0 where
  pub locked : Bool
  pub dl : Counters
  pub download_limit : ℕ
  pub ul : Counters
  pub upload_limit : ℕ

-- `UploadLimit = uint(v << 10)` and the same for the download, of what `ParseUint` read.
unfoldable pub set_max : Option ℕ → ℕ → ℕ
set_max none limit = limit
set_max (some v) limit = v * 2 ^ 10 % 2 ^ 64

-- `tickRecv` and `tickSent`
unfoldable pub tick : ℕ → Counters → Counters
tick now c =
    if now == c.last_sec
    then c
    else record c { bytes_prv_sec = c.bytes_so_far; bytes_so_far = 0; last_sec = now }

unfoldable pub count : ℕ → Counters → Counters
count n c = record c {
  bytes_so_far = c.bytes_so_far + n;
  bytes_total = (c.bytes_total + n) % 2 ^ 64;
}

-- `int(limit) - so_far`, cut to 0 and to the size of the buffer; a negative `int` has its top bit set.
unfoldable pub allowed : ℕ → ℕ → ℕ → ℕ
allowed limit so_far size =
    let room = (limit + 2 ^ 64 - so_far) % 2 ^ 64 in
    if limit == 0
    then size
    else if ltb room (2 ^ 63)
    then if ltb size room then size else room
    else 0

-- `bwMutex`: `none` where a goroutine that runs alone would wait for itself, or unlocks what is not
-- locked, which ends the program.
abbrev lock : Bandwidth → Option Bandwidth
lock b = if b.locked then none else some (record b { locked = true })

abbrev unlock : Bandwidth → Option Bandwidth
unlock b = if b.locked then some (record b { locked = false }) else none

unfoldable pub count_rcvd : ℕ → ℕ → Bandwidth → Option Bandwidth
unfolding tick count
count_rcvd now n b = do b₁ ← lock b; unlock (record b₁ { dl = count n (tick now b₁.dl) })

unfoldable pub count_sent : ℕ → ℕ → Bandwidth → Option Bandwidth
unfolding tick count
count_sent now n b = do b₁ ← lock b; unlock (record b₁ { ul = count n (tick now b₁.ul) })

pub data NetError : Type 0 where
  timed_out not_timeout : NetError

-- What `Read` of a connection gives, and the connection after it.
pub record ReadResult (S : Type 0) : Type 0 where
  pub bytes : Bytes
  pub err : Option NetError
  pub con : S

-- `S` is what stands behind a `TCPConn`, and `con_read` its `Read` for a buffer of a size. The
-- deferred `Unlock` runs last.
unfoldable pub sock_read :
    {S : Type 0} → (S → ℕ → ReadResult S) → S → ℕ → Bandwidth → Option (ReadResult S × Bandwidth)
unfolding allowed count
sock_read con_read con size b = do
  b₁ ← lock b
  let toread = allowed b₁.download_limit b₁.dl.bytes_so_far size
  b₂ ← unlock (record b₁ { dl = count toread b₁.dl })
  let r = if ltb 0 toread then con_read con toread else record { bytes = []; err = none; con = con }
  b₃ ← unlock b₂
  some (r, b₃)

-- The bytes handed to `Write` of the connection.
unfoldable pub sock_write : ℕ → Bytes → Bandwidth → Option (Bytes × Bandwidth)
unfolding tick allowed count
sock_write now buf b = do
  b₁ ← lock b
  let ul = tick now b₁.ul
  let tosend = allowed b₁.upload_limit ul.bytes_so_far (length buf)
  b₂ ← unlock (record b₁ { ul = count tosend ul })
  some (take tosend buf, b₂)
