-- ===== src/BlockDb/Reload.antt =====
-- Reading the index file of the blocks that were added.
pub mod Records
pub mod RoundTrip
pub mod Untrusted
use yoin.Base.{
  ℕ, zero, suc, ◌+◌, ◌*◌, ◌-◌, ◌/◌, ◌%◌, ◌^◌, ◌≤◌, ◌<◌, ◌≡◌, refl, sym, ap, ◌∙◌, Bool, true, false,
  List, [], ◌∷◌, ◌++◌, Option, none, some, ◌>>=◌, ltb, ◌==◌, if◌then◌else◌, length, take, drop,
  replicate, map, inl, inr, Bool-cases, Option-cases, arith, length-append, append_assoc,
  append-nil, All,
}
use yoin.Bytes.{Bytes, le_bytes, le_value}
use yoin.Chain.Block.{Block}
use yoin.BlockDb.{
  OneBlockIdx, IdxMap, BlockDb, hash2idx, put_idx, index_record, add_block, Walked, Loading,
}

-- The blocks are added one by one, each with its height.
unfoldable pub add_blocks : BlockDb → List (ℕ × Block) → Option BlockDb
unfolding add_block
add_blocks db [] = some db
add_blocks db ((height, b) ∷ bs) = do db' ← add_block db height b; add_blocks db' bs

-- The fields have the sizes of their types, and the block stands at a 64-bit position of its file.
pub record BlockFits (height pos : ℕ) (b : Block) : Type 0 where
  pub hash_length : length b.hash ≡ 32
  pub header_present : 36 ≤ length b.raw
  pub length_fits : length b.raw < 2 ^ 32
  pub height_fits : height < 2 ^ 32
  pub time_fits : b.create_time < 2 ^ 32
  pub target_fits : b.difficulty_target < 2 ^ 32
  pub pos_fits : pos < 2 ^ 64

abbrev pub BlocksFit : ℕ → List (ℕ × Block) → Type 0
BlocksFit pos [] = Unit
BlocksFit pos ((height, b) ∷ bs) = BlockFits height pos b × BlocksFit (pos + length b.raw) bs

-- The index file that the blocks leave, from a position of the blocks' file on.
unfoldable pub records : ℕ → List (ℕ × Block) → Bytes
unfolding index_record
records pos [] = []
records pos ((height, b) ∷ bs) = index_record height pos b ++ records (pos + length b.raw) bs

abbrev pub walked : ℕ → Block → Walked
walked height b = record {
  hash = b.hash;
  prv = take 32 (drop 4 b.raw);
  h = height;
  target = b.difficulty_target;
  tim = b.create_time;
}

-- The calls of `walk` that are made: one for each block that was not trusted when it was added.
unfoldable pub walks_of : List (ℕ × Block) → List Walked
walks_of [] = []
walks_of ((height, b) ∷ bs) = if b.trusted then walks_of bs else walked height b ∷ walks_of bs
