-- ===== src/Net/Version.antt =====
-- client/net.go: the messages that open a connection, and the request for blocks.
-- `put_addr` takes the four bytes and the port that `Sscanf` finds in the text of an address.
use yoin.Base.{
  ℕ, zero, suc, ◌+◌, ◌*◌, ◌/◌, ◌%◌, ◌^◌, ◌≡◌, refl, ap, Bool, [], ◌∷◌, ◌++◌, Option, none, some,
  ◌>>=◌, ltb, leb, if◌then◌else◌, length, take, drop, replicate, arith,
}
use yoin.Bytes.{Bytes, le_bytes, le_value, from?, prefix?}
use yoin.Bytes.Laws.{from?-append, prefix?-append}
use yoin.VarLen.{load_var_len, read_var_len}
use yoin.Crypto.{Crypto}
use yoin.Addr.{copy_into}
use yoin.Net.Address.{NetAddr, new_net_addr, to_bytes}
use yoin.Net.Message.{Connection, send_raw_msg}
use yoin.Net.Inventory.{parse_get_blocks, read_hashes, locator_and_stop, after_count}

abbrev pub version : ℕ
version = 7001

-- "/Satoshi:0.8.1"
abbrev user_agent : Bytes
user_agent = 47 ∷ 83 ∷ 97 ∷ 116 ∷ 111 ∷ 115 ∷ 104 ∷ 105 ∷ 58 ∷ 48 ∷ 46 ∷ 56 ∷ 46 ∷ 49 ∷ []

-- The names of the messages, as bytes.
abbrev cmd_version : Bytes
cmd_version = 118 ∷ 101 ∷ 114 ∷ 115 ∷ 105 ∷ 111 ∷ 110 ∷ []

abbrev cmd_verack : Bytes
cmd_verack = 118 ∷ 101 ∷ 114 ∷ 97 ∷ 99 ∷ 107 ∷ []

abbrev cmd_addr : Bytes
cmd_addr = 97 ∷ 100 ∷ 100 ∷ 114 ∷ []

abbrev cmd_getblocks : Bytes
cmd_getblocks = 103 ∷ 101 ∷ 116 ∷ 98 ∷ 108 ∷ 111 ∷ 99 ∷ 107 ∷ 115 ∷ []

unfoldable pub put_addr : Bytes × ℕ → Bytes
unfolding le_bytes
put_addr (ip, port) =
    le_bytes 8 1
    ++ (0 ∷ 0 ∷ 0 ∷ 0 ∷ 0 ∷ 0 ∷ 0 ∷ 0 ∷ 0 ∷ 0 ∷ 0xff ∷ 0xff ∷ [])
    ++ ip
    ++ (port / 256 % 256 ∷ port % 256 ∷ [])

-- The payload of `SendVersion`. The services take four bytes.
unfoldable pub version_payload : ℕ → Bytes × ℕ → Bytes × ℕ → Bytes → ℕ → Bytes
unfolding le_bytes put_addr
version_payload now remote local nonce height =
    le_bytes 4 version
    ++ (le_bytes 4 1
        ++ (le_bytes 8 now
            ++ (put_addr remote
                ++ (put_addr local
                    ++ (nonce ++ (length user_agent ∷ (user_agent ++ le_bytes 4 height)))))))

-- `node` of a connection, without the agent, which is never set.
pub record Node : Type 0 where
  pub version : ℕ
  pub services : ℕ
  pub timestamp : ℕ
  pub height : ℕ

-- The fields that `VerMsg` reads, and `MyExternalAddr`; `none` inside is the error.
unfoldable pub read_version :
    ℕ → Option NetAddr → Node → Bytes → Option (Option (Node × Option NetAddr))
unfolding le_value load_var_len new_net_addr
read_version default_port my_addr node pl =
    let my_addr' : Option NetAddr = elim my_addr [
      | some a ↦ some a
      | none ↦ elim (new_net_addr (take 26 (drop 20 pl))) [
        | none ↦ none
        | some a ↦ some (record a { port = default_port })
      ]
    ] in
    let node' : Node = record node {
      version = le_value (take 4 pl);
      services = le_value (take 8 (drop 4 pl));
      timestamp = le_value (take 8 (drop 12 pl));
    } in
    if ltb (length pl) 46
    then some none
    else if ltb (length pl) 86
    then some (some (node', my_addr'))
    else do
      (le, size) ← load_var_len (drop 80 pl)
      (if leb (size + le + 4) (length pl)
          then some
              (some (record node' { height = le_value (take 4 (drop (size + le) pl)) }, my_addr'))
          else some (some (node', my_addr')))

module _ (c : Crypto) (magic : Bytes) where
  unfoldable pub send_version : ℕ → Bytes × ℕ → Bytes × ℕ → Bytes → ℕ → Connection → Connection
  unfolding send_raw_msg version_payload
  send_version now remote local nonce height k =
      send_raw_msg c magic k cmd_version (version_payload now remote local nonce height)

  -- What `VerMsg` sends once the message is read; `reply` is the payload of `SendVersion`.
  unfoldable pub answer_version : Bool → Bytes → Connection → Connection
  unfolding send_raw_msg
  answer_version incoming reply k =
      let k' = send_raw_msg c magic k cmd_verack [] in
      if incoming then send_raw_msg c magic k' cmd_version reply else k'

  unfoldable pub announce_own_addr : ℕ → Option NetAddr → Connection → Connection
  unfolding send_raw_msg le_bytes to_bytes
  announce_own_addr now none k = k
  announce_own_addr now (some a) k =
      send_raw_msg c magic k cmd_addr (1 ∷ (le_bytes 4 (now % 2 ^ 32) ++ to_bytes a))

unfoldable pub get_blocks_payload : Bytes → Bytes
unfolding le_bytes copy_into
get_blocks_payload lastbl = le_bytes 4 version ++ (1 ∷ (copy_into 32 lastbl ++ replicate 32 0))

module _ (c : Crypto) (magic : Bytes) where
  unfoldable pub get_blocks : Bytes → Connection → Connection
  unfolding send_raw_msg get_blocks_payload
  get_blocks lastbl k = send_raw_msg c magic k cmd_getblocks (get_blocks_payload lastbl)

length-copy_into : (n : ℕ) (b : Bytes) → length (copy_into n b) ≡ n
unfolding copy_into
length-copy_into zero b = refl
length-copy_into (suc n) [] = ap suc (length-copy_into n [])
length-copy_into (suc n) (x ∷ b) = ap suc (length-copy_into n b)

-- A request for blocks that `GetBlocks` makes is read as a locator of one hash, and no hash to stop at.
pub parse_get_blocks-payload :
    (lastbl : Bytes)
    → parse_get_blocks (get_blocks_payload lastbl) ≡ some (copy_into 32 lastbl ∷ [], replicate 32 0)
unfolding parse_get_blocks get_blocks_payload read_hashes locator_and_stop after_count read_var_len
    le_bytes from? prefix?
parse_get_blocks-payload lastbl =
    let size = length-copy_into 32 lastbl in
    rw
      (
        prefix?-append 32 (copy_into 32 lastbl) (replicate 32 0) size,
        from?-append 32 (copy_into 32 lastbl) (replicate 32 0) size,
      )
      refl

-- `VerMsg` on the message that `SendVersion` makes: eight bytes are read for the four of the services,
-- so that the low half of the time is taken for their high half, and the height is read at the place
-- that the agent's length gives from the start of the message, where the time and the next address
-- meet.
pub read_version-version_payload :
    (default_port now height p q a1 a2 a3 a4 b1 b2 b3 b4 n1 n2 n3 n4 n5 n6 n7 n8 : ℕ)
    (my : Option NetAddr) (node : Node)
    → (node' : Node) × (my' : Option NetAddr) × (read_version default_port my node (
          version_payload now
            (a1 ∷ a2 ∷ a3 ∷ a4 ∷ [], p)
            (b1 ∷ b2 ∷ b3 ∷ b4 ∷ [], q)
            (n1 ∷ n2 ∷ n3 ∷ n4 ∷ n5 ∷ n6 ∷ n7 ∷ n8 ∷ [])
            height)
        ≡ some (some (node', my')))
      × (node'.version ≡ version)
      × (node'.services ≡ 1 + 2 ^ 32 * (now % 2 ^ 32))
      × (node'.height ≡ node.height)
unfolding read_version version_payload put_addr le_bytes le_value load_var_len new_net_addr
read_version-version_payload default_port now height p q a1 a2 a3 a4 b1 b2 b3 b4 n1 n2 n3 n4 n5 n6
      n7 n8 my node =
    (_, _, refl, refl, omega arith, refl)
