-- ===== src/BlockDb/Reload/RoundTrip.antt =====
-- What `InitBlockIdxMap` makes of the files that `AddBlock` left.
use yoin.Base.{
  ℕ, zero, suc, ◌+◌, ◌-◌, ◌≤◌, ◌<◌, ◌≡◌, refl, sym, ap, ◌∙◌, List, [], ◌∷◌, ◌++◌, some,
  le→ltb_false, length, drop, inl, inr, Bool-cases, arith, length-append, append_assoc, append-nil,
  take-append, drop-append, take_all, drop_all,
}
use yoin.Bytes.{Bytes}
use yoin.Chain.Block.{Block}
use yoin.BlockDb.{
  BlockDb, write_at, read_into, index_record, added_block, add_block, Loading, load_record,
  load_loop, init_block_idx_map, new_block_db,
}
use yoin.BlockDb.Reload.{BlockFits, BlocksFit, add_blocks, records, walked, walks_of}
use yoin.BlockDb.Reload.Records.{
  length-index_record, loaded_block, load_record-trusted, load_record-untrusted,
}

read_into-record : (buf r rest : Bytes) → length buf ≡ length r → read_into buf (r ++ rest) ≡ r
unfolding read_into
read_into-record buf r rest same =
    let e = take-append (length buf) r rest (sym same) in
    rw (e, drop_all (length r) buf (omega (arith, same))) (append-nil r)

write_at-end : (file r : Bytes) → write_at file (length file) r ≡ file ++ r
unfolding write_at
write_at-end file r =
    let none_missing : length file - length file ≡ 0 = omega arith in
    rw
      (
        take_all (length file) file (omega arith),
        none_missing,
        drop_all (length file + length r) file (omega arith),
      )
      (ap (λ t. file ++ t) (append-nil r))

-- One round of the loop, with a record in front.
pub load_loop-record :
    (fuel height pos : ℕ) (b : Block) (fits : BlockFits height pos b) (rest : Bytes) (s : Loading)
    → length s.buf ≡ 92
    → load_loop (suc fuel) (index_record height pos b ++ rest) s
      ≡ load_loop fuel rest (load_record (record s { buf = index_record height pos b }))
load_loop-record fuel height pos b fits rest s len =
    let r = index_record height pos b in
    let lr = length-index_record height pos b fits in
    go (r ++ rest) (omega (arith, length-append r rest, lr))
    ∙ (ap (λ t. load_loop fuel t (load_record (record s { buf = read_into s.buf (r ++ rest) })))
          (drop-append 92 r rest lr)
        ∙ ap (λ t. load_loop fuel rest (load_record (record s { buf = t })))
            (read_into-record s.buf r rest (len ∙ sym lr)))
  where
    go :
        (b : Bytes)
        → 0 < length b
        → load_loop (suc fuel) b s
          ≡ load_loop fuel (drop 92 b) (load_record (record s { buf = read_into s.buf b }))
    go [] h = absurd (omega (arith, h))
    go (x ∷ b) h = unfold load_loop in refl

load_loop-walks :
    (bs : List (ℕ × Block)) (fuel pos : ℕ) (s : Loading)
    → BlocksFit pos bs
    → length s.buf ≡ 92
    → length bs ≤ fuel
    → (load_loop fuel (records pos bs) s).walks ≡ s.walks ++ walks_of bs
unfolding records walks_of load_loop
load_loop-walks [] zero pos s fits len enough = sym (append-nil s.walks)
load_loop-walks [] (suc fuel) pos s fits len enough = sym (append-nil s.walks)
load_loop-walks ((height, b) ∷ bs) zero pos s fits len enough = absurd (omega (arith, enough))
load_loop-walks ((height, b) ∷ bs) (suc fuel) pos s fits len enough =
    let pos' = pos + length b.raw in
    let lr = length-index_record height pos b fits.0 in
    let one = load_loop-record fuel height pos b fits.0 (records pos' bs) s len in
    ap (λ t. t.walks) one ∙ elim (Bool-cases b.trusted) [
      | inl e ↦
          let same = load_record-trusted height pos b fits.0 s e in
          ap (λ t. (load_loop fuel (records pos' bs) t).walks) same
          ∙ (load_loop-walks bs fuel pos' (record s { buf = index_record height pos b }) fits.1 lr
                (omega (arith, enough))
              ∙ rw e refl)
      | inr e ↦
          let same = load_record-untrusted height pos b fits.0 s e in
          ap (λ t. (load_loop fuel (records pos' bs) t).walks) same
          ∙ (load_loop-walks bs fuel pos'
                (loaded_block height pos b (record s { buf = index_record height pos b })) fits.1 lr
                (omega (arith, enough))
              ∙ rw e (append_assoc s.walks (walked height b ∷ []) (walks_of bs)))
    ]

-- The index file that `AddBlock` leaves.
added_block-idx_file :
    (db : BlockDb) (height : ℕ) (b : Block)
    → db.idx_pos ≡ length db.idx_file
    → (added_block db height b).idx_file
      ≡ db.idx_file ++ index_record height (length db.data_file) b
unfolding added_block
added_block-idx_file db height b at_end =
    rw at_end (write_at-end db.idx_file (index_record height (length db.data_file) b))

unfoldable pub added_blocks : BlockDb → List (ℕ × Block) → BlockDb
unfolding added_block
added_blocks db [] = db
added_blocks db ((height, b) ∷ bs) = added_blocks (added_block db height b) bs

add_block-fits :
    (db : BlockDb) (height pos : ℕ) (b : Block)
    → BlockFits height pos b
    → add_block db height b ≡ some (added_block db height b)
unfolding add_block
add_block-fits db height pos b fits = rw (le→ltb_false (length b.raw) 36 fits.header_present) refl

pub add_blocks-fit :
    (bs : List (ℕ × Block)) (db : BlockDb) (pos : ℕ)
    → BlocksFit pos bs
    → add_blocks db bs ≡ some (added_blocks db bs)
unfolding add_blocks added_blocks
add_blocks-fit [] db pos fits = refl
add_blocks-fit ((height, b) ∷ bs) db pos fits =
    rw (add_block-fits db height pos b fits.0)
      (add_blocks-fit bs (added_block db height b) (pos + length b.raw) fits.1)

pub added_block-pos :
    (db : BlockDb) (height pos : ℕ) (b : Block)
    → BlockFits height pos b
    → length db.data_file ≡ pos
    → db.idx_pos ≡ length db.idx_file
    → (length (added_block db height b).data_file ≡ pos + length b.raw)
      × ((added_block db height b).idx_pos ≡ length (added_block db height b).idx_file)
      × ((added_block db height b).idx_pos ≡ db.idx_pos + 92)
unfolding added_block
added_block-pos db height pos b fits here at_end =
    let lr : length (index_record height (length db.data_file) b) ≡ 92 =
      rw here (length-index_record height pos b fits) in
    (
      omega (arith, here, length-append db.data_file b.raw),
      omega (arith, at_end, length-append db.idx_file (index_record height (length db.data_file) b))
          ∙ sym (ap length (added_block-idx_file db height b at_end)),
      omega (arith, lr),
    )

pub added_blocks-files :
    (bs : List (ℕ × Block)) (db : BlockDb) (pos : ℕ)
    → BlocksFit pos bs
    → length db.data_file ≡ pos
    → db.idx_pos ≡ length db.idx_file
    → (added_blocks db bs).idx_file ≡ db.idx_file ++ records pos bs
unfolding added_blocks records
added_blocks-files [] db pos fits here at_end = sym (append-nil db.idx_file)
added_blocks-files ((height, b) ∷ bs) db pos fits here at_end =
    let (here', at_end', _) = added_block-pos db height pos b fits.0 here at_end in
    added_blocks-files bs (added_block db height b) (pos + length b.raw) fits.1 here' at_end'
    ∙ (ap (λ t. t ++ records (pos + length b.raw) bs)
          (added_block-idx_file db height b at_end
            ∙ ap (λ n. db.idx_file ++ index_record height n b) here)
        ∙ append_assoc db.idx_file (index_record height pos b) (records (pos + length b.raw) bs))

pub length-records : (bs : List (ℕ × Block)) (pos : ℕ) → length bs ≤ length (records pos bs)
unfolding records index_record
length-records [] pos = omega arith
length-records ((height, b) ∷ bs) pos = omega (
  arith,
  length-records bs (pos + length b.raw),
  length-append (index_record height pos b) (records (pos + length b.raw) bs),
)

-- Blocks of proper sizes can be added to a new database; opening its files then calls `walk`, in their
-- order, for those of them that were not trusted, and for no other.
pub init_block_idx_map-add_blocks :
    (bs : List (ℕ × Block))
    → BlocksFit 0 bs
    → (db : BlockDb) × (add_blocks (new_block_db [] []) bs ≡ some db)
      × ((init_block_idx_map (new_block_db db.data_file db.idx_file)).1 ≡ walks_of bs)
unfolding init_block_idx_map new_block_db
init_block_idx_map-add_blocks bs fits =
    let db = added_blocks (new_block_db [] []) bs in
    let files : db.idx_file ≡ records 0 bs =
      added_blocks-files bs (new_block_db [] []) 0 fits refl refl in
    (
      db,
      add_blocks-fit bs (new_block_db [] []) 0 fits,
      rw files (load_loop-walks bs (length (records 0 bs)) 0 _ fits refl (length-records bs 0)),
    )
