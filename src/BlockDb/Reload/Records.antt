-- ===== src/BlockDb/Reload/Records.antt =====
-- One record of the index file, as the loop of `InitBlockIdxMap` reads it.
use yoin.Base.{
  ℕ, ◌+◌, ◌≡◌, refl, sym, ap, ◌∙◌, true, false, [], ◌∷◌, ◌++◌, length, take, drop, arith,
  length-append, append_assoc, append-nil, take-append, drop-append, take_all, length-drop,
  length-take,
}
use yoin.Bytes.{Bytes, le_bytes, le_value}
use yoin.Bytes.Laws.{length-le_bytes, le_value-le_bytes}
use yoin.Chain.Block.{Block}
use yoin.BlockDb.{hash2idx, put_idx, idx_flag, index_record, Loading, field, load_record}
use yoin.BlockDb.Reload.{BlockFits, walked}

-- A part of known place and length.
cut :
    (n k : ℕ) (b p x r : Bytes)
    → b ≡ p ++ (x ++ r)
    → length p ≡ n
    → length x ≡ k
    → take k (drop n b) ≡ x
cut n k b p x r e hp hx =
    ap (λ b. take k (drop n b)) e
    ∙ (ap (take k) (drop-append n p (x ++ r) hp) ∙ take-append k x r hx)

-- The parts of a record.
module _ (f h p a t d q l : Bytes) (lf : length f ≡ 4) (lh : length h ≡ 32) (lp : length p ≡ 32)
    (la : length a ≡ 4) (lt : length t ≡ 4) (ld : length d ≡ 4) (lq : length q ≡ 8)
    (ll : length l ≡ 4) where
  abbrev whole : Bytes
  whole = f ++ (h ++ (p ++ (a ++ (t ++ (d ++ (q ++ l))))))

  before4 : length (f ++ h) ≡ 36
  before4 = omega (arith, length-append f h, lf, lh)

  before_height : length (f ++ (h ++ p)) ≡ 68
  before_height = omega (arith, length-append f (h ++ p), length-append h p, lf, lh, lp)

  before_time : length (f ++ (h ++ (p ++ a))) ≡ 72
  before_time = omega (
    arith,
    length-append f (h ++ (p ++ a)),
    length-append h (p ++ a),
    length-append p a,
    lf,
    lh,
    lp,
    la,
  )

  before_target : length (f ++ (h ++ (p ++ (a ++ t)))) ≡ 76
  before_target = omega (
    arith,
    length-append f (h ++ (p ++ (a ++ t))),
    length-append h (p ++ (a ++ t)),
    length-append p (a ++ t),
    length-append a t,
    lf,
    lh,
    lp,
    la,
    lt,
  )

  before_pos : length (f ++ (h ++ (p ++ (a ++ (t ++ d))))) ≡ 80
  before_pos = omega (
    arith,
    length-append f (h ++ (p ++ (a ++ (t ++ d)))),
    length-append h (p ++ (a ++ (t ++ d))),
    length-append p (a ++ (t ++ d)),
    length-append a (t ++ d),
    length-append t d,
    lf,
    lh,
    lp,
    la,
    lt,
    ld,
  )

  before_len : length ((f ++ (h ++ (p ++ (a ++ (t ++ d))))) ++ q) ≡ 88
  before_len = omega (arith, length-append (f ++ (h ++ (p ++ (a ++ (t ++ d))))) q, before_pos, lq)

  length-whole : length whole ≡ 92
  length-whole =
      let e : whole ≡ ((f ++ (h ++ (p ++ (a ++ (t ++ d))))) ++ q) ++ l = simp append_assoc in
      ap length e
      ∙ omega (arith, length-append ((f ++ (h ++ (p ++ (a ++ (t ++ d))))) ++ q) l, before_len, ll)

  at_hash : take 32 (drop 4 whole) ≡ h
  at_hash = cut 4 32 whole f h (p ++ (a ++ (t ++ (d ++ (q ++ l))))) refl lf lh

  at_prev : take 32 (drop 36 whole) ≡ p
  at_prev = cut 36 32 whole (f ++ h) p (a ++ (t ++ (d ++ (q ++ l)))) (simp append_assoc) before4 lp

  at_height : take 4 (drop 68 whole) ≡ a
  at_height =
      cut 68 4 whole (f ++ (h ++ p)) a (t ++ (d ++ (q ++ l))) (simp append_assoc) before_height la

  at_time : take 4 (drop 72 whole) ≡ t
  at_time =
      cut 72 4 whole (f ++ (h ++ (p ++ a))) t (d ++ (q ++ l)) (simp append_assoc) before_time lt

  at_target : take 4 (drop 76 whole) ≡ d
  at_target =
      cut 76 4 whole (f ++ (h ++ (p ++ (a ++ t)))) d (q ++ l) (simp append_assoc) before_target ld

  at_pos : take 8 (drop 80 whole) ≡ q
  at_pos = cut 80 8 whole (f ++ (h ++ (p ++ (a ++ (t ++ d))))) q l (simp append_assoc) before_pos lq

  at_len : take 4 (drop 88 whole) ≡ l
  at_len =
      cut 88 4 whole ((f ++ (h ++ (p ++ (a ++ (t ++ d))))) ++ q) l []
        (ap (λ l. f ++ (h ++ (p ++ (a ++ (t ++ (d ++ (q ++ l))))))) (sym (append-nil l))
          ∙ simp append_assoc)
        before_len ll

one_byte : (x : ℕ) → le_value (x ∷ []) ≡ x
unfolding le_value
one_byte x = omega arith

-- What a record does to the loop's variables.
abbrev pub loaded_block : ℕ → ℕ → Block → Loading → Loading
loaded_block height pos b s = record s {
  t_pos = s.t_pos + 92;
  idx_map =
      put_idx (hash2idx b.hash)
        (record { f_pos = pos; b_len = length b.raw; i_pos = s.t_pos; trusted = false }) s.idx_map;
  walks = s.walks ++ (walked height b ∷ []);
}

module _ (height pos : ℕ) (b : Block) (fits : BlockFits height pos b) where
  abbrev f : Bytes
  f = idx_flag b.trusted ∷ 0 ∷ 0 ∷ 0 ∷ []

  abbrev prev : Bytes
  prev = take 32 (drop 4 b.raw)

  length-prev : length prev ≡ 32
  length-prev =
      let e = fits.header_present in
      length-take 32 (drop 4 b.raw) (omega (arith, length-drop 4 b.raw, e))

  length-hash : length (take 32 b.hash) ≡ 32
  length-hash = let h = fits.hash_length in length-take 32 b.hash (omega (arith, h))

  pub length-index_record : length (index_record height pos b) ≡ 92
  unfolding index_record
  length-index_record =
      length-whole f (take 32 b.hash) prev (le_bytes 4 height) (le_bytes 4 b.create_time)
        (le_bytes 4 b.difficulty_target) (le_bytes 8 pos) (le_bytes 4 (length b.raw)) refl
        length-hash length-prev (length-le_bytes 4 height) (length-le_bytes 4 b.create_time)
        (length-le_bytes 4 b.difficulty_target) (length-le_bytes 8 pos)
        (length-le_bytes 4 (length b.raw))

  -- The fields that are read back.
  module _ (s : Loading) where
    abbrev read_in : Loading
    read_in = record s { buf = index_record height pos b }

    read_fields :
        (take 32 (drop 4 read_in.buf) ≡ b.hash)
        × (take 32 (drop 36 read_in.buf) ≡ prev)
        × (field read_in.buf 68 72 ≡ height)
        × (field read_in.buf 72 76 ≡ b.create_time)
        × (field read_in.buf 76 80 ≡ b.difficulty_target)
        × (field read_in.buf 80 88 ≡ pos)
        × (field read_in.buf 88 92 ≡ length b.raw)
        × (field read_in.buf 0 1 ≡ idx_flag b.trusted)
    unfolding index_record
    read_fields =
        let h = take 32 b.hash in
        let a = le_bytes 4 height in
        let t = le_bytes 4 b.create_time in
        let d = le_bytes 4 b.difficulty_target in
        let q = le_bytes 8 pos in
        let l = le_bytes 4 (length b.raw) in
        let la = length-le_bytes 4 height in
        let lt = length-le_bytes 4 b.create_time in
        let ld = length-le_bytes 4 b.difficulty_target in
        let lq = length-le_bytes 8 pos in
        let ll = length-le_bytes 4 (length b.raw) in
        let whole_hash : h ≡ b.hash =
          let e = fits.hash_length in take_all 32 b.hash (omega (arith, e)) in
        (
          at_hash f h prev a t d q l refl length-hash length-prev la lt ld lq ll ∙ whole_hash,
          at_prev f h prev a t d q l refl length-hash length-prev la lt ld lq ll,
          ap le_value (at_height f h prev a t d q l refl length-hash length-prev la lt ld lq ll)
              ∙ le_value-le_bytes 4 height fits.height_fits,
          ap le_value (at_time f h prev a t d q l refl length-hash length-prev la lt ld lq ll)
              ∙ le_value-le_bytes 4 b.create_time fits.time_fits,
          ap le_value (at_target f h prev a t d q l refl length-hash length-prev la lt ld lq ll)
              ∙ le_value-le_bytes 4 b.difficulty_target fits.target_fits,
          ap le_value (at_pos f h prev a t d q l refl length-hash length-prev la lt ld lq ll)
              ∙ le_value-le_bytes 8 pos fits.pos_fits,
          ap le_value (at_len f h prev a t d q l refl length-hash length-prev la lt ld lq ll)
              ∙ le_value-le_bytes 4 (length b.raw) fits.length_fits,
          one_byte (idx_flag b.trusted),
        )

    pub load_record-trusted : b.trusted ≡ true → load_record read_in ≡ read_in
    unfolding load_record idx_flag
    load_record-trusted e =
        let (_, _, _, _, _, _, _, flag) = read_fields in rw (load_record, flag ∙ ap idx_flag e) refl

    pub load_record-untrusted :
        b.trusted ≡ false → load_record read_in ≡ loaded_block height pos b read_in
    unfolding load_record idx_flag
    load_record-untrusted e =
        let (h, p, a, t, d, q, l, flag) = read_fields in
        rw (load_record, flag ∙ ap idx_flag e, h, p, a, t, d, q, l) refl
