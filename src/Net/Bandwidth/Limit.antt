-- ===== src/Net/Bandwidth/Limit.antt =====
-- What the limits guarantee.
use yoin.Base.{
  ℕ, ◌+◌, ◌-◌, ◌^◌, ◌≤◌, ◌<◌, ◌≡◌, refl, sym, ap, false, List, [], ◌∷◌, Option, none, some, ◌>>=◌,
  ◌==◌, length, length-take, ==_iff, take, arith, Bool-cases, inl, inr,
}
use yoin.Bytes.{Bytes}
use yoin.Net.Bandwidth.{
  Bandwidth, Counters, ReadResult, tick, count, allowed, sock_read, sock_write,
}

-- Writes one after the other in the same second: the bytes that went out, and the state after.
unfoldable pub write_all : ℕ → List Bytes → Bandwidth → Option (ℕ × Bandwidth)
unfolding sock_write
write_all now [] b = some (0, b)
write_all now (buf ∷ bufs) b = do
  (out, b₁) ← sock_write now buf b
  (more, b₂) ← write_all now bufs b₁
  some (length out + more, b₂)

allowed-le :
    (limit so_far size : ℕ)
    → 0 < limit
    → limit < 2 ^ 63
    → so_far < 2 ^ 63
    → allowed limit so_far size ≤ limit - so_far
unfolding allowed
allowed-le limit so_far size some_ small h = ground arith

allowed-size : (limit so_far size : ℕ) → allowed limit so_far size ≤ size
unfolding allowed
allowed-size limit so_far size = ground arith

-- The bytes counted for this second, before a write of it.
abbrev pub used : ℕ → Bandwidth → ℕ
used now b = (tick now b.ul).bytes_so_far

abbrev tosend : ℕ → Bytes → Bandwidth → ℕ
tosend now buf b = allowed b.upload_limit (used now b) (length buf)

abbrev written : ℕ → Bytes → Bandwidth → Bandwidth
written now buf b = record b { locked = false; ul = count (tosend now buf b) (tick now b.ul) }

sock_write_lem :
    (now : ℕ) (buf : Bytes) (b : Bandwidth)
    → b.locked ≡ false
    → sock_write now buf b ≡ some (take (tosend now buf b) buf, written now buf b)
unfolding sock_write
sock_write_lem now buf b free = rw (sock_write, free) refl

tick_again : (now : ℕ) (c : Counters) → (tick now c).last_sec ≡ now
unfolding tick
tick_again now c = elim (Bool-cases (now == c.last_sec)) [
  | inl e ↦ rw e (sym ((==_iff now c.last_sec).0 e))
  | inr e ↦ rw e refl
]

tick_same : (now : ℕ) (c : Counters) → c.last_sec ≡ now → tick now c ≡ c
unfolding tick
tick_same now c h = rw ((==_iff now c.last_sec).1 (sym h)) refl

tick-le : (now : ℕ) (c : Counters) → (tick now c).bytes_so_far ≤ c.bytes_so_far
unfolding tick
tick-le now c = elim (Bool-cases (now == c.last_sec)) [
  | inl e ↦ rw e (omega arith)
  | inr e ↦ rw e (omega arith)
]

used-written :
    (now : ℕ) (buf : Bytes) (b : Bandwidth)
    → used now (written now buf b) ≡ used now b + tosend now buf b
unfolding count
used-written now buf b =
    ap (λ c. c.bytes_so_far)
      (tick_same now (count (tosend now buf b) (tick now b.ul)) (tick_again now b.ul))

-- All the bytes that go out within one second are at most the limit, and what is left of it.
write_all_lem :
    (now : ℕ) (bufs : List Bytes) (b : Bandwidth)
    → b.locked ≡ false
    → 0 < b.upload_limit
    → b.upload_limit < 2 ^ 63
    → used now b < 2 ^ 63
    → (out : ℕ) × (b' : Bandwidth) × (write_all now bufs b ≡ some (out, b'))
      × (out ≤ b.upload_limit - used now b)
unfolding write_all
write_all_lem now [] b free some_ small few = (0, b, refl, omega arith)
write_all_lem now (buf ∷ bufs) b free some_ small few =
    let t = tosend now buf b in
    let le = allowed-le b.upload_limit (used now b) (length buf) some_ small few in
    let next = used-written now buf b in
    let (out, b', runs, rest) =
      write_all_lem now bufs (written now buf b) refl some_ small
        (omega (arith, next, le, small, few)) in
    let sent = length-take t buf (allowed-size b.upload_limit (used now b) (length buf)) in
    (
      length (take t buf) + out,
      b',
      rw (sock_write_lem now buf b free, runs) refl,
      omega (arith, sent, rest, next, le),
    )

-- Whatever the state before, and however many writes there are, the bytes that go out within one
-- second are at most the upload limit, when there is one, below 2 ^ 63.
pub write_all-limit :
    (now : ℕ) (bufs : List Bytes) (b : Bandwidth)
    → b.locked ≡ false
    → 0 < b.upload_limit
    → b.upload_limit < 2 ^ 63
    → b.ul.bytes_so_far < 2 ^ 63
    → (out : ℕ) × (b' : Bandwidth) × (write_all now bufs b ≡ some (out, b'))
      × (out ≤ b.upload_limit)
write_all-limit now bufs b free some_ small few =
    let (out, b', runs, le) =
      write_all_lem now bufs b free some_ small (omega (arith, tick-le now b.ul, few)) in
    (out, b', runs, omega (arith, le))

-- A call of `SockRead` never returns: after its own `Unlock` the deferred one unlocks what is not
-- locked.
pub sock_read_panics :
    {S : Type 0} (con_read : S → ℕ → ReadResult S) (con : S) (size : ℕ) (b : Bandwidth)
    → sock_read con_read con size b ≡ none
unfolding sock_read
sock_read_panics con_read con size b = elim (Bool-cases b.locked) [
  | inl held ↦ rw (sock_read, held) refl
  | inr free ↦ rw (sock_read, free) refl
]
