-- ===== src/Net/Address.antt =====
-- core/netaddr.go: the addresses of nodes, in the 26 bytes of the protocol.
use yoin.Base.{
  ℕ, zero, suc, ◌+◌, ◌*◌, ◌/◌, ◌%◌, ◌^◌, ◌<◌, ◌≡◌, refl, sym, ap, ◌∙◌, [], ◌∷◌, ◌++◌, Option, none,
  some, ◌==◌, if◌then◌else◌, length, take, drop, arith, append_assoc, length-append, take-append,
  drop-append,
}
use yoin.Bytes.{Bytes, le_bytes, le_value, be_value, be_value_from}
use yoin.Bytes.Laws.{length-le_bytes, le_value-le_bytes}

pub record NetAddr : Type 0 where
  pub services : ℕ
  pub ip6 : Bytes
  pub ip4 : Bytes
  pub port : ℕ

abbrev zeros : ℕ → Bytes
zeros zero = []
zeros (suc n) = 0 ∷ zeros n

-- `none` for nil. The second copy goes to the start of `Ip6` too.
unfoldable pub new_net_addr : Bytes → Option NetAddr
unfolding le_value be_value
new_net_addr b =
    if length b == 26
    then some (record {
      services = le_value (take 8 b);
      ip6 = take 4 (drop 20 b) ++ drop 4 (take 12 (drop 8 b));
      ip4 = zeros 4;
      port = be_value (take 2 (drop 24 b));
    })
    else none

-- `Bytes`
unfoldable pub to_bytes : NetAddr → Bytes
unfolding le_bytes
to_bytes a = le_bytes 8 a.services ++ (a.ip6 ++ (a.ip4 ++ (a.port / 256 % 256 ∷ a.port % 256 ∷ [])))

-- The ranges of Go's types.
pub record IsNetAddr (a : NetAddr) : Type 0 where
  pub services : a.services < 2 ^ 64
  pub ip6 : length a.ip6 ≡ 12
  pub ip4 : length a.ip4 ≡ 4
  pub port : a.port < 2 ^ 16

module _ (a : NetAddr) (is : IsNetAddr a) where
  abbrev head : Bytes
  head = le_bytes 8 a.services

  abbrev tail : Bytes
  tail = a.port / 256 % 256 ∷ a.port % 256 ∷ []

  after_services : drop 8 (to_bytes a) ≡ a.ip6 ++ (a.ip4 ++ tail)
  unfolding to_bytes
  after_services = drop-append 8 head (a.ip6 ++ (a.ip4 ++ tail)) (length-le_bytes 8 a.services)

  after_ip6 : drop 20 (to_bytes a) ≡ a.ip4 ++ tail
  unfolding to_bytes
  after_ip6 =
      ap (drop 20) (sym (append_assoc head a.ip6 (a.ip4 ++ tail)))
      ∙ drop-append 20 (head ++ a.ip6) (a.ip4 ++ tail)
          (length-append head a.ip6 ∙ omega (arith, length-le_bytes 8 a.services, is.ip6))

  after_ip4 : drop 24 (to_bytes a) ≡ tail
  unfolding to_bytes
  after_ip4 =
      ap (drop 24) (
        sym (append_assoc head a.ip6 (a.ip4 ++ tail))
        ∙ sym (append_assoc (head ++ a.ip6) a.ip4 tail))
      ∙ drop-append 24 ((head ++ a.ip6) ++ a.ip4) tail (
          length-append (head ++ a.ip6) a.ip4
          ∙ omega (arith, length-append head a.ip6, length-le_bytes 8 a.services, is.ip6, is.ip4))

  length-to_bytes : length (to_bytes a) ≡ 26
  unfolding to_bytes
  length-to_bytes =
      length-append head (a.ip6 ++ (a.ip4 ++ tail))
      ∙ omega (
        arith,
        length-le_bytes 8 a.services,
        length-append a.ip6 (a.ip4 ++ tail),
        length-append a.ip4 tail,
        is.ip6,
        is.ip4,
      )

  services_back : le_value (take 8 (to_bytes a)) ≡ a.services
  unfolding to_bytes
  services_back =
      ap le_value (take-append 8 head (a.ip6 ++ (a.ip4 ++ tail)) (length-le_bytes 8 a.services))
      ∙ le_value-le_bytes 8 a.services is.services

  -- Reading back what `Bytes` wrote keeps the services and the port, but the four bytes of `Ip4` are
  -- at the start of `Ip6` then, over what stood there, and `Ip4` is 0.0.0.0.
  pub new_net_addr-to_bytes :
      new_net_addr (to_bytes a)
      ≡ some (record a { ip6 = a.ip4 ++ drop 4 a.ip6; ip4 = 0 ∷ 0 ∷ 0 ∷ 0 ∷ [] })
  unfolding new_net_addr be_value be_value_from
  new_net_addr-to_bytes =
      let ip6 = take-append 12 a.ip6 (a.ip4 ++ tail) is.ip6 in
      let ip4 = take-append 4 a.ip4 tail is.ip4 in
      let port : (0 * 256 + a.port / 256 % 256) * 256 + a.port % 256 ≡ a.port =
        omega (arith, is.port) in
      rw (length-to_bytes, after_services, after_ip6, after_ip4, services_back, ip6, ip4, port) refl
