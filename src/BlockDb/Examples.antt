-- ===== src/BlockDb/Examples.antt =====
-- Blocks in the files, for core/blockdb.go.
use yoin.Base.{ℕ, ◌^◌, ◌<◌, ◌≡◌, refl, Bool, true, false, [], ◌∷◌, some, replicate, arith}
use yoin.Chain.Block.{Block}
use yoin.BlockDb.{
  BlockDb, added_block, add_block, get_block, trust_block, init_block_idx_map, new_block_db,
}
use yoin.BlockDb.Operations.{Operation, adding, trusting, after, get_block-Operation}
use yoin.BlockDb.Reload.{BlockFits, add_blocks, walks_of}
use yoin.BlockDb.Reload.RoundTrip.{init_block_idx_map-add_blocks}
use yoin.BlockDb.Reload.Untrusted.{init_block_idx_map-untrusted}

abbrev block : ℕ → Bool → Block
block n trusted = record {
  version = 1;
  pre_block_hash = replicate 32 0;
  merkle_root = replicate 32 0;
  create_time = 1500000000;
  difficulty_target = 0x1d00ffff;
  nonce = 7;
  txs = [];
  raw = replicate 81 n;
  hash = replicate 32 n;
  trusted = trusted;
}

block-BlockFits : (n pos : ℕ) (t : Bool) → pos < 2 ^ 64 → BlockFits 5 pos (block n t)
block-BlockFits n pos t h = record {
  hash_length = refl;
  header_present = omega arith;
  length_fits = omega arith;
  height_fits = omega arith;
  time_fits = omega arith;
  target_fits = omega arith;
  pos_fits = h;
}

-- A database that holds one block.
abbrev holding : BlockDb
holding = record {
  block_idx_map =
      (replicate 6 1, record { f_pos = 0; b_len = 81; i_pos = 0; trusted = false }) ∷ [];
  data_file = replicate 81 1;
  idx_file = replicate 92 0;
  idx_pos = 92;
}

added_one : add_block holding 5 (block 2 true) ≡ some (added_block holding 5 (block 2 true))
unfolding add_block
added_one = refl

adding_one : Operation holding (added_block holding 5 (block 2 true))
adding_one = adding 5 (block 2 true) (omega arith) added_one

get_block-Operation_example :
    get_block (trust_block holding (replicate 32 1)) (replicate 32 1)
    ≡ after {db = holding}
        (trusting (replicate 32 1))
        (replicate 32 1)
        (get_block holding (replicate 32 1))
get_block-Operation_example =
    get_block-Operation holding (trust_block holding (replicate 32 1)) (trusting (replicate 32 1))
      (replicate 32 1) (omega arith, tt)

-- The second block was trusted, so it is not found again.
init_block_idx_map-add_blocks_example :
    (db : BlockDb) × (add_blocks (new_block_db [] []) ((5, block 1 false) ∷ (5, block 2 true) ∷ [])
      ≡ some db)
    × ((init_block_idx_map (new_block_db db.data_file db.idx_file)).1
        ≡ walks_of ((5, block 1 false) ∷ (5, block 2 true) ∷ []))
init_block_idx_map-add_blocks_example =
    init_block_idx_map-add_blocks ((5, block 1 false) ∷ (5, block 2 true) ∷ [])
      (block-BlockFits 1 0 false (omega arith), (block-BlockFits 2 81 true (omega arith), tt))

init_block_idx_map-untrusted_example :
    (db : BlockDb) × (add_blocks (new_block_db [] []) ((5, block 1 false) ∷ (5, block 2 false) ∷ [])
      ≡ some db)
    × ((init_block_idx_map (new_block_db db.data_file db.idx_file)).0 ≡ db)
init_block_idx_map-untrusted_example =
    init_block_idx_map-untrusted ((5, block 1 false) ∷ (5, block 2 false) ∷ [])
      (block-BlockFits 1 0 false (omega arith), (block-BlockFits 2 81 false (omega arith), tt))
      (refl, (refl, tt))
