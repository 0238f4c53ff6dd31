-- ===== src/BlockDb/Stored.antt =====
-- Reading back the blocks that were added.
use yoin.Base.{
  take_all, take-append-le, drop-append-le, length-drop, drop_all, drop-append, ℕ, ◌+◌, ◌%◌, ◌^◌,
  ◌≤◌, ◌<◌, ◌≡◌, refl, ap, ◌∙◌, Bool, true, false, [], ◌∷◌, ◌++◌, none, some, ltb, if◌then◌else◌,
  length, drop, replicate, inl, inr, Bool-cases, Option-cases, arith, append-nil, length-replicate,
}
use mathlib.Core.Path.{subst}
use mathlib.Core.Option.{some-injective}
use yoin.Bytes.{Bytes, bytes_equal}
use yoin.Bytes.Laws.{bytes_equal_iff}
use yoin.Chain.Block.{Block}
use yoin.BlockDb.{
  added_block, read_block, OneBlockIdx, IdxMap, find_idx, delete_idx, put_idx, BlockDb, hash2idx,
  read_into, add_block, get_block,
}

pub find_idx-delete_idx :
    (k j : Bytes) (m : IdxMap)
    → find_idx k (delete_idx j m) ≡ (if bytes_equal k j then none else find_idx k m)
unfolding find_idx delete_idx
find_idx-delete_idx k j [] = elim (Bool-cases (bytes_equal k j)) [
  | inl e ↦ rw e refl
  | inr e ↦ rw e refl
]
find_idx-delete_idx k j ((i, x) ∷ m) = elim (Bool-cases (bytes_equal j i)) [
  | inl e ↦
      let e' : j ≡ i = (bytes_equal_iff j i).0 e in
      rw (e, find_idx-delete_idx k j m, e') (by_test (bytes_equal k i))
  | inr e ↦ elim (Bool-cases (bytes_equal k j)) [
    | inl e' ↦
        let other : bytes_equal k i ≡ false =
          ap (λ t. bytes_equal t i) ((bytes_equal_iff k j).0 e') ∙ e in
        rw (e, find_idx, other, find_idx-delete_idx k j m, e') refl
    | inr e' ↦ rw (e, find_idx, find_idx-delete_idx k j m, e') refl
  ]
]
  where
    by_test :
        (b : Bool)
        → (if b then none else find_idx k m)
          ≡ (if b then none else if b then some x else find_idx k m)
    by_test true = refl
    by_test false = refl

pub find_idx-put_idx :
    (k j : Bytes) (x : OneBlockIdx) (m : IdxMap)
    → find_idx k (put_idx j x m) ≡ (if bytes_equal k j then some x else find_idx k m)
unfolding find_idx
find_idx-put_idx k j x m = elim (Bool-cases (bytes_equal k j)) [
  | inl e ↦ rw e refl
  | inr e ↦ rw (e, find_idx-delete_idx k j m, e) refl
]

-- Every entry of the map lies within a file of this length.
abbrev pub EntriesIn : ℕ → IdxMap → Type 0
EntriesIn n [] = Unit
EntriesIn n ((k, x) ∷ m) = (x.f_pos + x.b_len ≤ n) × EntriesIn n m

pub EntriesIn-le : (n n' : ℕ) (m : IdxMap) → n ≤ n' → EntriesIn n m → EntriesIn n' m
EntriesIn-le n n' [] le h = tt
EntriesIn-le n n' ((k, x) ∷ m) le h = (omega (arith, le, h.0), EntriesIn-le n n' m le h.1)

pub delete_idx-EntriesIn :
    (n : ℕ) (k : Bytes) (m : IdxMap) → EntriesIn n m → EntriesIn n (delete_idx k m)
unfolding delete_idx
delete_idx-EntriesIn n k [] h = tt
delete_idx-EntriesIn n k ((j, x) ∷ m) h =
    by_test (bytes_equal k j) (delete_idx k m) (delete_idx-EntriesIn n k m h.1)
  where
    by_test : (b : Bool) (r : IdxMap) → EntriesIn n r → EntriesIn n (if b then r else (j, x) ∷ r)
    by_test true r h' = h'
    by_test false r h' = (h.0, h')

pub find_idx-EntriesIn :
    (n : ℕ) (k : Bytes) (m : IdxMap) (x : OneBlockIdx)
    → EntriesIn n m
    → find_idx k m ≡ some x
    → x.f_pos + x.b_len ≤ n
unfolding find_idx
find_idx-EntriesIn n k [] x h e = absurd cc
find_idx-EntriesIn n k ((j, y) ∷ m) x h e = elim (Bool-cases (bytes_equal k j)) [
  | inl t ↦
      let e' : some y ≡ some x = rw t at e in
      subst (λ z. z.f_pos + z.b_len ≤ n) (some-injective _ _ e') h.0
  | inr t ↦ let e' : find_idx k m ≡ some x = rw t at e in find_idx-EntriesIn n k m x h.1 e'
]

-- What is read of a longer file, within the shorter one and behind it.
read_into-inside :
    (n p : ℕ) (d r : Bytes)
    → p + n ≤ length d
    → read_into (replicate n 0) (drop p (d ++ r)) ≡ read_into (replicate n 0) (drop p d)
unfolding read_into
read_into-inside n p d r h =
    let e = drop-append-le p d r (omega (arith, h)) in
    let e' =
      take-append-le (length {A = ℕ} (replicate n 0)) (drop p d) r
        (omega (arith, h, length-drop p d, length-replicate {A = ℕ} n 0)) in
    rw (e, e') refl

read_into-added : (d r : Bytes) → read_into (replicate (length r) 0) (drop (length d) (d ++ r)) ≡ r
unfolding read_into
read_into-added d r =
    rw
      (
        drop-append (length d) d r refl,
        length-replicate {A = ℕ} (length r) 0,
        take_all (length r) r (omega arith),
        drop_all {A = ℕ} (length r) (replicate (length r) 0)
            (omega (arith, length-replicate {A = ℕ} (length r) 0)),
      )
      (append-nil r)

pub add_block-some :
    (db db' : BlockDb) (height : ℕ) (b : Block)
    → add_block db height b ≡ some db'
    → (36 ≤ length b.raw) × (added_block db height b ≡ db')
unfolding add_block
add_block-some db db' height b h = elim (Bool-cases (ltb (length b.raw) 36)) [
  | inl e ↦ let h' : none ≡ some db' = rw e at h in absurd cc
  | inr e ↦
      let h' : some (added_block db height b) ≡ some db' = rw e at h in
      (ground (arith, e), some-injective _ _ h')
]

module _ (db : BlockDb) (height : ℕ) (b : Block) (hash : Bytes)
    (inside : EntriesIn (length db.data_file) db.block_idx_map)
    (short : length b.raw < 2 ^ 32) where
  pub get_block-added_block : get_block (added_block db height b) hash ≡ (
      if bytes_equal (hash2idx hash) (hash2idx b.hash)
      then some (b.raw, b.trusted)
      else get_block db hash)
  unfolding get_block added_block read_block
  get_block-added_block =
      let put =
        find_idx-put_idx (hash2idx hash) (hash2idx b.hash)
          (record {
            f_pos = length db.data_file;
            b_len = length b.raw % 2 ^ 32;
            i_pos = db.idx_pos;
            trusted = b.trusted;
          })
          db.block_idx_map in
      elim (Bool-cases (bytes_equal (hash2idx hash) (hash2idx b.hash))) [
        | inl e ↦
            let narrow : length b.raw % 2 ^ 32 ≡ length b.raw = omega (arith, short) in
            rw (get_block, put, e, narrow, read_into-added db.data_file b.raw) refl
        | inr e ↦ elim (Option-cases (find_idx (hash2idx hash) db.block_idx_map)) [
          | inl e' ↦ rw (get_block, put, e, e') refl
          | inr (x, e') ↦
              rw
                (
                  get_block,
                  put,
                  e,
                  e',
                  read_into-inside x.b_len x.f_pos db.data_file b.raw
                      (find_idx-EntriesIn _ _ _ x inside e'),
                )
                refl
        ]
      ]
