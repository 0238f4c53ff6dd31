-- ===== src/BlockDb/Operations.antt =====
-- The steps that a database takes once it is open, and what a reader sees of them.
use mathlib.Core.Path.{subst}
use mathlib.Core.Option.{some-injective}
use yoin.Base.{
  ℕ, ◌^◌, ◌<◌, ◌≡◌, ◌⊎◌, refl, sym, ap, ◌∙◌, Bool, true, false, Option, none, some, if◌then◌else◌,
  length, inl, inr, Bool-cases, Option-cases, arith, length-append,
}
use yoin.Bytes.{Bytes, bytes_equal}
use yoin.Bytes.Laws.{bytes_equal_iff}
use yoin.Chain.Block.{Block}
use yoin.BlockDb.{
  OneBlockIdx, IdxMap, find_idx, delete_idx, put_idx, BlockDb, hash2idx, added_block, add_block,
  set_block_flag, invalid_block, trust_block, read_block, get_block, block_trusted,
}
use yoin.BlockDb.Stored.{
  EntriesIn, EntriesIn-le, delete_idx-EntriesIn, find_idx-EntriesIn, find_idx-put_idx,
  find_idx-delete_idx, add_block-some, get_block-added_block,
}

pub data Operation : BlockDb → BlockDb → Type 0 where
  adding :
      {db db' : BlockDb} (height : ℕ) (b : Block)
      → length b.raw < 2 ^ 32
      → add_block db height b ≡ some db'
      → Operation db db'
  invalidating :
      {db db' : BlockDb} (hash : Bytes) → invalid_block db hash ≡ some db' → Operation db db'
  trusting : {db : BlockDb} (hash : Bytes) → Operation db (trust_block db hash)

abbrev mark_trusted : Option (Bytes × Bool) → Option (Bytes × Bool)
mark_trusted none = none
mark_trusted (some (raw, t)) = some (raw, true)

-- What is read under a hash after a step, from what was read before.
abbrev pub after :
    {db db' : BlockDb} → Operation db db' → Bytes → Option (Bytes × Bool) → Option (Bytes × Bool)
after (adding height b short e) hash o =
    if bytes_equal (hash2idx hash) (hash2idx b.hash) then some (b.raw, b.trusted) else o
after (invalidating h e) hash o = if bytes_equal (hash2idx hash) (hash2idx h) then none else o
after (trusting h) hash o = if bytes_equal (hash2idx hash) (hash2idx h) then mark_trusted o else o

-- A step that returns an untrusted entry's block as invalid, or finds none.
invalid_block-cases :
    (db db' : BlockDb) (hash : Bytes)
    → invalid_block db hash ≡ some db'
    → ((find_idx (hash2idx hash) db.block_idx_map ≡ none) × (db ≡ db'))
      ⊎ ((x : OneBlockIdx) × (find_idx (hash2idx hash) db.block_idx_map ≡ some x)
          × (db'.data_file ≡ db.data_file)
          × (db'.block_idx_map
              ≡ delete_idx
                  (hash2idx hash)
                  (put_idx (hash2idx hash) (record x { trusted = true }) db.block_idx_map)))
unfolding invalid_block set_block_flag
invalid_block-cases db db' hash h =
    elim (Option-cases (find_idx (hash2idx hash) db.block_idx_map)) [
      | inl e ↦ let h' = rw (invalid_block, e) at h in inl (e, some-injective _ _ h')
      | inr (x, e) ↦ elim (Bool-cases x.trusted) [
        | inl t ↦ let h' = rw (invalid_block, e, t) at h in absurd cc
        | inr t ↦
            let h' = rw (invalid_block, e, t) at h in
            inr (
              x,
              e,
              sym (ap (λ d. d.data_file) (some-injective _ _ h')),
              sym (ap (λ d. d.block_idx_map) (some-injective _ _ h')),
            )
      ]
    ]

marked-EntriesIn :
    (n : ℕ) (k : Bytes) (x : OneBlockIdx) (m : IdxMap)
    → EntriesIn n m
    → find_idx k m ≡ some x
    → EntriesIn n (put_idx k (record x { trusted = true }) m)
marked-EntriesIn n k x m inside e =
    (find_idx-EntriesIn n k m x inside e, delete_idx-EntriesIn n k m inside)

added_block-EntriesIn :
    (db : BlockDb) (height : ℕ) (b : Block)
    → EntriesIn (length db.data_file) db.block_idx_map
    → EntriesIn (length (added_block db height b).data_file) (added_block db height b).block_idx_map
unfolding added_block
added_block-EntriesIn db height b inside =
    let n = length-append db.data_file b.raw in
    (
      omega (arith, n),
      EntriesIn-le _ _ _ (omega (arith, n))
          (delete_idx-EntriesIn _ (hash2idx b.hash) db.block_idx_map inside),
    )

-- Every entry stays within the file of the blocks, whatever is added, invalidated or trusted.
pub Operation-EntriesIn :
    (db db' : BlockDb)
    → Operation db db'
    → EntriesIn (length db.data_file) db.block_idx_map
    → EntriesIn (length db'.data_file) db'.block_idx_map
unfolding trust_block set_block_flag
Operation-EntriesIn db db' (adding height b short e) inside =
    subst (λ d. EntriesIn (length d.data_file) d.block_idx_map) (add_block-some db db' height b e).1
      (added_block-EntriesIn db height b inside)
Operation-EntriesIn db db' (invalidating hash e) inside = elim (invalid_block-cases db db' hash e) [
  | inl (gone, same) ↦ subst (λ d. EntriesIn (length d.data_file) d.block_idx_map) same inside
  | inr (x, here, same_file, new_map) ↦
      rw (same_file, new_map)
        (delete_idx-EntriesIn (length db.data_file) (hash2idx hash)
          (put_idx (hash2idx hash) (record x { trusted = true }) db.block_idx_map)
          (marked-EntriesIn (length db.data_file) (hash2idx hash) x db.block_idx_map inside here))
]
Operation-EntriesIn db db' (trusting hash) inside =
    elim (Option-cases (find_idx (hash2idx hash) db.block_idx_map)) [
      | inl e ↦ rw (trust_block, e) inside
      | inr (x, e) ↦ elim (Bool-cases x.trusted) [
        | inl t ↦ rw (trust_block, e, t) inside
        | inr t ↦
            rw (trust_block, e, t) (marked-EntriesIn _ (hash2idx hash) x db.block_idx_map inside e)
      ]
    ]

-- The look-up behind `get_block`.
abbrev read_key : Bytes → IdxMap → Bytes → Option (Bytes × Bool)
read_key file m k = elim (find_idx k m) [ none ↦ none | some x ↦ some (read_block file x) ]

read_key-put_idx :
    (file : Bytes) (m : IdxMap) (k j : Bytes) (x : OneBlockIdx)
    → read_key file (put_idx j x m) k
      ≡ (if bytes_equal k j then some (read_block file x) else read_key file m k)
read_key-put_idx file m k j x = elim (Bool-cases (bytes_equal k j)) [
  | inl e ↦ rw (read_key, find_idx-put_idx k j x m, e) refl
  | inr e ↦ rw (read_key, find_idx-put_idx k j x m, e) refl
]

read_key-delete_idx :
    (file : Bytes) (m : IdxMap) (k j : Bytes)
    → read_key file (delete_idx j m) k ≡ (if bytes_equal k j then none else read_key file m k)
read_key-delete_idx file m k j = elim (Bool-cases (bytes_equal k j)) [
  | inl e ↦ rw (read_key, find_idx-delete_idx k j m, e) refl
  | inr e ↦ rw (read_key, find_idx-delete_idx k j m, e) refl
]

if-kept : (b : Bool) (o r : Option (Bytes × Bool)) → (b ≡ true → o ≡ r) → r ≡ (if b then o else r)
if-kept true o r h = sym (h refl)
if-kept false o r h = refl

if-then :
    (b : Bool) (o o' r : Option (Bytes × Bool))
    → (b ≡ true → o ≡ o')
    → (if b then o else r) ≡ (if b then o' else r)
if-then true o o' r h = h refl
if-then false o o' r h = refl

same_key :
    (file : Bytes) (m : IdxMap) (k j : Bytes)
    → bytes_equal k j ≡ true
    → read_key file m k ≡ read_key file m j
same_key file m k j e = ap (read_key file m) ((bytes_equal_iff k j).0 e)

marked_none : (o : Option (Bytes × Bool)) → o ≡ none → mark_trusted o ≡ o
marked_none none h = refl
marked_none (some p) h = absurd cc

marked_trusted :
    (o : Option (Bytes × Bool)) (raw : Bytes) → o ≡ some (raw, true) → mark_trusted o ≡ o
marked_trusted o raw h = rw h refl

-- What a reader sees of a step: an added block stands in its file, an invalidated one is gone, a trusted
-- one is marked, and every block under another key is as before.
pub get_block-Operation :
    (db db' : BlockDb) (op : Operation db db') (hash : Bytes)
    → EntriesIn (length db.data_file) db.block_idx_map
    → get_block db' hash ≡ after op hash (get_block db hash)
unfolding get_block trust_block set_block_flag read_block
get_block-Operation db db' (adding height b short e) hash inside =
    ap (λ d. get_block d hash) (sym (add_block-some db db' height b e).1)
    ∙ get_block-added_block db height b hash inside short
get_block-Operation db db' (invalidating h e) hash inside =
    let k = hash2idx hash in
    let j = hash2idx h in
    let file = db.data_file in
    let m = db.block_idx_map in
    elim (invalid_block-cases db db' h e) [
      | inl (gone, same) ↦
          ap (λ d. get_block d hash) (sym same)
          ∙ if-kept (bytes_equal k j) none (read_key file m k)
              (λ e. sym (same_key file m k j e ∙ rw (read_key, gone) refl))
      | inr (x, here, same_file, new_map) ↦
          let m' = put_idx j (record x { trusted = true }) m in
          ap (λ f. read_key f db'.block_idx_map k) same_file
          ∙ (ap (λ m. read_key file m k) new_map
              ∙ (read_key-delete_idx file m' k j ∙ elim (Bool-cases (bytes_equal k j)) [
                | inl e ↦ rw e refl
                | inr e ↦
                    rw e (read_key-put_idx file m k j (record x { trusted = true }) ∙ rw e refl)
              ]))
    ]
get_block-Operation db db' (trusting h) hash inside =
    let k = hash2idx hash in
    let j = hash2idx h in
    let file = db.data_file in
    let m = db.block_idx_map in
    elim (Option-cases (find_idx j m)) [
      | inl e ↦
          let same : trust_block db h ≡ db = rw (trust_block, e) refl in
          ap (λ d. get_block d hash) same
          ∙ if-kept (bytes_equal k j) _ (read_key file m k) (λ eq.
            marked_none (read_key file m k) (same_key file m k j eq ∙ rw (read_key, e) refl))
      | inr (x, e) ↦
          let there : read_key file m j ≡ some (read_block file x) = rw (read_key, e) refl in
          elim (Bool-cases x.trusted) [
            | inl t ↦
                let same : trust_block db h ≡ db = rw (trust_block, e, t) refl in
                ap (λ d. get_block d hash) same
                ∙ if-kept (bytes_equal k j) _ (read_key file m k) (λ eq.
                  marked_trusted (read_key file m k) (read_block file x).0
                    (same_key file m k j eq ∙ rw (read_key, e, t) refl))
            | inr t ↦
                let same : trust_block db h ≡ set_block_flag db j x block_trusted =
                  rw (trust_block, e, t) refl in
                ap (λ d. get_block d hash) same
                ∙ (read_key-put_idx file m k j (record x { trusted = true })
                    ∙ if-then (bytes_equal k j) _ _ _
                        (λ eq. sym (ap mark_trusted (same_key file m k j eq ∙ there))))
          ]
    ]
