-- ===== src/BlockDb.antt =====
-- core/blockdb.go: the file of the blocks, its index file, and the map in memory.
-- A file is its bytes, and the index file also its position; the data file's position is not kept,
-- since every use of it seeks first. No call to the operating system fails, and `none` is a panic.
-- The pointer that the map holds to an entry is held by nothing else.
pub mod Stored
pub mod Operations
pub mod Reload
mod Examples
use Prim.Native.Nat.{bit_or}
use yoin.Base.{
  ℕ, zero, suc, ◌+◌, ◌-◌, ◌/◌, ◌%◌, ◌^◌, Bool, true, false, ◌&&◌, List, [], ◌∷◌, ◌++◌, Option, none,
  some, ◌>>=◌, ltb, ◌==◌, if◌then◌else◌, length, take, drop, replicate, map,
}
use yoin.Bytes.{Bytes, le_bytes, le_value, bytes_equal}
use yoin.Chain.Block.{Block}

abbrev pub block_trusted : ℕ
block_trusted = 0x01

abbrev block_invalid : ℕ
block_invalid = 0x02

abbrev idx_data_size : ℕ
idx_data_size = 92

-- `oneBlockIdx`
pub record OneBlockIdx : Type 0 where
  pub f_pos : ℕ
  pub b_len : ℕ
  pub i_pos : ℕ
  pub trusted : Bool

-- `map[[Uint256IdxLen]byte] *oneBlockIdx`, with each key at most once.
abbrev pub IdxMap : Type 0
IdxMap = List (Bytes × OneBlockIdx)

unfoldable pub find_idx : Bytes → IdxMap → Option OneBlockIdx
find_idx k [] = none
find_idx k ((j, x) ∷ m) = if bytes_equal k j then some x else find_idx k m

unfoldable pub delete_idx : Bytes → IdxMap → IdxMap
delete_idx k [] = []
delete_idx k ((j, x) ∷ m) = let r = delete_idx k m in if bytes_equal k j then r else (j, x) ∷ r

abbrev pub put_idx : Bytes → OneBlockIdx → IdxMap → IdxMap
put_idx k x m = (k, x) ∷ delete_idx k m

pub record BlockDb : Type 0 where
  pub block_idx_map : IdxMap
  pub data_file : Bytes
  pub idx_file : Bytes
  pub idx_pos : ℕ

-- `hash2idx`
abbrev pub hash2idx : Bytes → Bytes
hash2idx h = take 6 h

-- `Write` and `WriteAt`: a gap behind the end is filled with zeros.
unfoldable pub write_at : Bytes → ℕ → Bytes → Bytes
write_at file p b =
    take p file ++ (replicate (p - length file) 0 ++ (b ++ drop (p + length b) file))

-- `Read` and `ReadAt` into a buffer; what is missing at the end of the file stays as it was.
unfoldable pub read_into : Bytes → Bytes → Bytes
read_into buf file = let got = take (length buf) file in got ++ drop (length got) buf

unfoldable pub idx_flag : Bool → ℕ
idx_flag true = bit_or 0 block_invalid
idx_flag false = 0

-- The record that `AddBlock` writes to the index file.
unfoldable pub index_record : ℕ → ℕ → Block → Bytes
unfolding idx_flag
index_record height pos b =
    (idx_flag b.trusted ∷ 0 ∷ 0 ∷ 0 ∷ [])
    ++ (take 32 b.hash
        ++ (take 32 (drop 4 b.raw)
            ++ (le_bytes 4 height
                ++ (le_bytes 4 b.create_time
                    ++ (le_bytes 4 b.difficulty_target
                        ++ (le_bytes 8 pos ++ le_bytes 4 (length b.raw)))))))

unfoldable pub added_block : BlockDb → ℕ → Block → BlockDb
unfolding index_record write_at delete_idx
added_block db height b =
    let pos = length db.data_file in
    let r = index_record height pos b in
    record {
      block_idx_map =
          put_idx (hash2idx b.hash)
            (record {
              f_pos = pos;
              b_len = length b.raw % 2 ^ 32;
              i_pos = db.idx_pos;
              trusted = b.trusted;
            })
            db.block_idx_map;
      data_file = db.data_file ++ b.raw;
      idx_file = write_at db.idx_file db.idx_pos r;
      idx_pos = db.idx_pos + length r;
    }

-- `b.Raw[4:36]` is out of range for fewer than 36 bytes.
unfoldable pub add_block : BlockDb → ℕ → Block → Option BlockDb
unfolding added_block
add_block db height b = if ltb (length b.raw) 36 then none else some (added_block db height b)

-- What `setBlockFlag` does to the index file; the position is set back.
unfoldable set_flag : Bytes → ℕ → ℕ → Bytes
unfolding read_into write_at
set_flag file p v = write_at file p (map (bit_or v) (read_into (0 ∷ []) (drop p file)))

-- `setBlockFlag` for the entry under a key, in the map and in the file.
unfoldable pub set_block_flag : BlockDb → Bytes → OneBlockIdx → ℕ → BlockDb
unfolding set_flag delete_idx
set_block_flag db k cur v = record db {
  block_idx_map = put_idx k (record cur { trusted = true }) db.block_idx_map;
  idx_file = set_flag db.idx_file cur.i_pos v;
}

unfoldable pub invalid_block : BlockDb → Bytes → Option BlockDb
unfolding find_idx delete_idx set_block_flag
invalid_block db hash = elim (find_idx (hash2idx hash) db.block_idx_map) [
  | none ↦ some db
  | some cur ↦
      if cur.trusted
      then none
      else (let db' = set_block_flag db (hash2idx hash) cur block_invalid in
          some (record db' { block_idx_map = delete_idx (hash2idx hash) db'.block_idx_map }))
]

unfoldable pub trust_block : BlockDb → Bytes → BlockDb
unfolding find_idx set_block_flag
trust_block db hash = elim (find_idx (hash2idx hash) db.block_idx_map) [
  | none ↦ db
  | some cur ↦ if cur.trusted then db else set_block_flag db (hash2idx hash) cur block_trusted
]

unfoldable pub read_block : Bytes → OneBlockIdx → Bytes × Bool
unfolding read_into
read_block file x = (read_into (replicate x.b_len 0) (drop x.f_pos file), x.trusted)

-- `none` is the error for a block that is not in the index.
unfoldable pub get_block : BlockDb → Bytes → Option (Bytes × Bool)
unfolding find_idx read_block
get_block db hash = elim (find_idx (hash2idx hash) db.block_idx_map) [
  | none ↦ none
  | some x ↦ some (read_block db.data_file x)
]

-- What `walk` is called with.
pub record Walked : Type 0 where
  pub hash : Bytes
  pub prv : Bytes
  pub h : ℕ
  pub target : ℕ
  pub tim : ℕ

-- The variables of the loop of `InitBlockIdxMap` and the calls of `walk` so far.
pub record Loading : Type 0 where
  pub buf : Bytes
  pub t_pos : ℕ
  pub idx_map : IdxMap
  pub walks : List Walked

abbrev pub field : Bytes → ℕ → ℕ → ℕ
field b from to = le_value (take (to - from) (drop from b))

-- One round, once the buffer is read.
unfoldable pub load_record : Loading → Loading
unfolding le_value delete_idx
load_record s =
    let b = s.buf in
    let flags = field b 0 1 in
    let block_hash = take 32 (drop 4 b) in
    if flags / 2 % 2 == 1 then s else record s {
      t_pos = s.t_pos + 92;
      idx_map =
          put_idx (hash2idx block_hash)
            (record {
              f_pos = field b 80 88;
              b_len = field b 88 92;
              i_pos = s.t_pos;
              trusted = flags % 2 == 1;
            })
            s.idx_map;
      walks =
          s.walks
          ++ (record {
            hash = block_hash;
            prv = take 32 (drop 36 b);
            h = field b 68 72;
            target = field b 76 80;
            tim = field b 72 76;
          }
              ∷ []);
    }

-- The loop in front of the rest of the file. A round takes 92 bytes, or all that are left.
unfoldable pub load_loop : ℕ → Bytes → Loading → Loading
unfolding read_into load_record
load_loop zero rest s = s
load_loop (suc fuel) [] s = s
load_loop (suc fuel) (x ∷ rest) s =
    load_loop fuel (drop idx_data_size (x ∷ rest))
      (load_record (record s { buf = read_into s.buf (x ∷ rest) }))

-- The state afterwards, and the calls of `walk`.
unfoldable pub init_block_idx_map : BlockDb → BlockDb × List Walked
unfolding load_loop
init_block_idx_map db =
    let s = load_loop (length db.idx_file) db.idx_file (record {
      buf = replicate idx_data_size 0;
      t_pos = 0;
      idx_map = db.block_idx_map;
      walks = [];
    }) in
    (record db { block_idx_map = s.idx_map; idx_pos = s.t_pos }, s.walks)

-- `NewBlockDB` on the two files.
unfoldable pub new_block_db : Bytes → Bytes → BlockDb
new_block_db data_file idx_file = record {
  block_idx_map = [];
  data_file = data_file;
  idx_file = idx_file;
  idx_pos = 0;
}
