-- ===== src/BlockDb/Reload/Untrusted.antt =====
-- Blocks that are not trusted when they are added, as those beside the longest chain.
use mathlib.Core.Path.{subst}
use yoin.Base.{
  ℕ, zero, suc, ◌+◌, ◌%◌, ◌^◌, ◌≤◌, ◌≡◌, refl, sym, ap, ◌∙◌, Bool, false, List, [], ◌∷◌, some,
  length, replicate, arith,
}
use yoin.Chain.Block.{Block}
use yoin.BlockDb.{
  OneBlockIdx, BlockDb, hash2idx, put_idx, index_record, added_block, Loading, load_loop,
  init_block_idx_map, new_block_db,
}
use yoin.BlockDb.Reload.{BlockFits, BlocksFit, add_blocks, records}
use yoin.BlockDb.Reload.Records.{length-index_record, loaded_block, load_record-untrusted}
use yoin.BlockDb.Reload.RoundTrip.{
  added_blocks, add_blocks-fit, added_block-pos, added_blocks-files, length-records,
  load_loop-record,
}

abbrev NoneTrusted : List (ℕ × Block) → Type 0
NoneTrusted [] = Unit
NoneTrusted ((height, b) ∷ bs) = (b.trusted ≡ false) × NoneTrusted bs

-- The loop is where `AddBlock` was.
record Agrees (s : Loading) (db : BlockDb) : Type 0 where
  same_pos : s.t_pos ≡ db.idx_pos
  same_map : s.idx_map ≡ db.block_idx_map

loaded_block-Agrees :
    (height pos : ℕ) (b : Block) (s : Loading) (db : BlockDb)
    → BlockFits height pos b
    → length db.data_file ≡ pos
    → db.idx_pos ≡ length db.idx_file
    → b.trusted ≡ false
    → Agrees s db
    → Agrees (loaded_block height pos b s) (added_block db height b)
unfolding added_block
loaded_block-Agrees height pos b s db fits here at_end plain agrees =
    let entry : ℕ → ℕ → ℕ → Bool → OneBlockIdx =
      λ p n i t. record { f_pos = p; b_len = n; i_pos = i; trusted = t } in
    let narrow : length b.raw % 2 ^ 32 ≡ length b.raw =
      let e = fits.length_fits in omega (arith, e) in
    record {
      same_pos =
          ap (λ n. n + 92) agrees.same_pos
          ∙ sym (added_block-pos db height pos b fits here at_end).2;
      same_map =
          ap (put_idx (hash2idx b.hash) (entry pos (length b.raw) s.t_pos false)) agrees.same_map
          ∙ ap (λ x. put_idx (hash2idx b.hash) x db.block_idx_map)
              (ap (λ i. entry pos (length b.raw) i false) agrees.same_pos
                ∙ (ap (λ p. entry p (length b.raw) db.idx_pos false) (sym here)
                    ∙ (ap (λ n. entry (length db.data_file) n db.idx_pos false) (sym narrow)
                        ∙ ap (entry (length db.data_file) (length b.raw % 2 ^ 32) db.idx_pos)
                            (sym plain))));
    }

load_loop-Agrees :
    (bs : List (ℕ × Block)) (fuel pos : ℕ) (s : Loading) (db : BlockDb)
    → BlocksFit pos bs
    → NoneTrusted bs
    → length s.buf ≡ 92
    → length bs ≤ fuel
    → length db.data_file ≡ pos
    → db.idx_pos ≡ length db.idx_file
    → Agrees s db
    → Agrees (load_loop fuel (records pos bs) s) (added_blocks db bs)
unfolding records load_loop added_blocks
load_loop-Agrees [] zero pos s db fits plain len enough here at_end agrees = agrees
load_loop-Agrees [] (suc fuel) pos s db fits plain len enough here at_end agrees = agrees
load_loop-Agrees ((height, b) ∷ bs) zero pos s db fits plain len enough here at_end agrees =
    absurd (omega (arith, enough))
load_loop-Agrees ((height, b) ∷ bs) (suc fuel) pos s db fits plain len enough here at_end agrees =
    let pos' = pos + length b.raw in
    let r = index_record height pos b in
    let s' = record s { buf = r } in
    let one = load_loop-record fuel height pos b fits.0 (records pos' bs) s len in
    let same = load_record-untrusted height pos b fits.0 s plain.0 in
    let (here', at_end', _) = added_block-pos db height pos b fits.0 here at_end in
    let kept : Agrees s' db = record { same_pos = agrees.same_pos; same_map = agrees.same_map } in
    let next = loaded_block-Agrees height pos b s' db fits.0 here at_end plain.0 kept in
    let rest =
      load_loop-Agrees bs fuel pos' (loaded_block height pos b s') (added_block db height b) fits.1
        plain.1 (length-index_record height pos b fits.0) (omega (arith, enough)) here' at_end'
        next in
    subst (λ t. Agrees t (added_blocks (added_block db height b) bs))
      (sym (one ∙ ap (load_loop fuel (records pos' bs)) same)) rest

-- Blocks of proper sizes, none of them trusted, can be added to a new database, and opening its files
-- again gives the state that was left: the map, and the place where the next record is written.
pub init_block_idx_map-untrusted :
    (bs : List (ℕ × Block))
    → BlocksFit 0 bs
    → NoneTrusted bs
    → (db : BlockDb) × (add_blocks (new_block_db [] []) bs ≡ some db)
      × ((init_block_idx_map (new_block_db db.data_file db.idx_file)).0 ≡ db)
unfolding init_block_idx_map new_block_db
init_block_idx_map-untrusted bs fits plain =
    let db = added_blocks (new_block_db [] []) bs in
    let files : db.idx_file ≡ records 0 bs =
      added_blocks-files bs (new_block_db [] []) 0 fits refl refl in
    let start : Loading = record { buf = replicate 92 0; t_pos = 0; idx_map = []; walks = [] } in
    let agrees =
      load_loop-Agrees bs (length (records 0 bs)) 0 start (new_block_db [] []) fits plain refl
        (length-records bs 0) refl refl (record { same_pos = refl; same_map = refl }) in
    let with_loop : Loading → BlockDb =
      λ s. record db { block_idx_map = s.idx_map; idx_pos = s.t_pos } in
    (
      db,
      add_blocks-fit bs (new_block_db [] []) 0 fits,
      ap (λ f. with_loop (load_loop (length f) f start)) files
          ∙ (ap
                (λ m. record db {
                  block_idx_map = m;
                  idx_pos = (load_loop (length (records 0 bs)) (records 0 bs) start).t_pos;
                })
                agrees.same_map
              ∙ ap (λ n. record db { idx_pos = n }) agrees.same_pos),
    )
