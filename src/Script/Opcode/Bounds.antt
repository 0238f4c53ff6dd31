-- ===== src/Script/Opcode/Bounds.antt =====
-- What `getOpcode` returns: its place in the script, and the pushes that it reads.
use yoin.Base.{
  ℕ, suc, ◌+◌, ◌≤◌, ◌≡◌, refl, ap, Bool, true, false, [], ◌∷◌, ◌++◌, Option, some, ltb, leb, ◌==◌,
  if◌then◌else◌, length, arith, Bool-cases, Option-cases, inl, inr, length-append, le→ltb_false,
}
use yoin.Bytes.{Bytes, le_bytes, le_value, slice?}
use yoin.Bytes.Laws.{slice?-bounds, slice?-field, from?-append, length-le_bytes, le_value-le_bytes}
use yoin.Script.Opcode.{
  OpcodeError, Fetched, fetched, bad_script, fetch_panic, get_opcode, fetch_push, fetch_push1,
  fetch_push2,
}

-- At least one byte and no more than there are is read.
pub data Fits (b : Bytes) : Fetched → Type 0 where
  in_script : {op : ℕ} {v : Option Bytes} {n : ℕ} → 1 ≤ n → n ≤ length b → Fits b (fetched op v n)
  no_instruction : {e : OpcodeError} → Fits b (bad_script e)
  no_slice : Fits b fetch_panic

fetch_push-Fits : (op : ℕ) (b : Bytes) (pc n : ℕ) → 1 ≤ pc → Fits b (fetch_push op b pc n)
fetch_push-Fits op b pc n h = elim (Option-cases (slice? b pc (pc + n))) [
  | inl e ↦ rw (e, fetch_push) no_slice
  | inr (v, e) ↦ rw (e, fetch_push) (in_script (omega arith) (slice?-bounds pc n b v e).1)
]

fetch_push1-Fits : (op : ℕ) (b : Bytes) → Fits b (fetch_push1 op b)
fetch_push1-Fits op b = elim (Option-cases (slice? b 1 2)) [
  | inl e ↦ rw (e, fetch_push1) no_slice
  | inr (d, e) ↦ rw (e, fetch_push1) (fetch_push-Fits op b 2 (le_value d) (omega arith))
]

fetch_push2-Fits : (op : ℕ) (b : Bytes) → Fits b (fetch_push2 op b)
fetch_push2-Fits op b = elim (Option-cases (slice? b 1 3)) [
  | inl e ↦ rw (e, fetch_push2) no_slice
  | inr (d, e) ↦ rw (e, fetch_push2) (fetch_push-Fits op b 3 (le_value d) (omega arith))
]

if_Fits : {b : Bytes} (t : Bool) {x y : Fetched} → Fits b x → Fits b y → Fits b (if t then x else y)
if_Fits true p q = p
if_Fits false p q = q

get_opcode-Fits : (b : Bytes) → Fits b (get_opcode b)
unfolding get_opcode
get_opcode-Fits [] = no_instruction
get_opcode-Fits (op ∷ r) =
    if_Fits (leb op 0x4e)
      (if_Fits (ltb op 0x4c) (fetch_push-Fits op (op ∷ r) 1 op (omega arith)) (
        if_Fits (op == 0x4c)
          (if_Fits (ltb (length (op ∷ r)) 2) no_instruction (fetch_push1-Fits op (op ∷ r)))
          (if_Fits (op == 0x4d)
            (if_Fits (ltb (length (op ∷ r)) 3) no_instruction (fetch_push2-Fits op (op ∷ r)))
            (fetch_push-Fits op (op ∷ r) 1 0 (omega arith)))))
      (in_script (omega arith) (omega arith))

Fits-bounds :
    {b : Bytes} {op : ℕ} {v : Option Bytes} {n : ℕ}
    → Fits b (fetched op v n)
    → (1 ≤ n) × (n ≤ length b)
Fits-bounds (in_script p q) = (p, q)

-- An instruction that `getOpcode` reads takes one byte or more, and none behind the script's end.
pub get_opcode_bounds :
    (b : Bytes) (op : ℕ) (v : Option Bytes) (n : ℕ)
    → get_opcode b ≡ fetched op v n
    → (1 ≤ n) × (n ≤ length b)
get_opcode_bounds b op v n h = Fits-bounds (rw h at (get_opcode-Fits b))

-- The canonical instruction that pushes `d`: a direct push below 0x4c, OP_PUSHDATA1 below 0x100,
-- else OP_PUSHDATA2.
abbrev pub push_header : ℕ → Bytes
push_header n =
    if ltb n 0x4c then n ∷ [] else if ltb n 0x100 then 0x4c ∷ n ∷ [] else 0x4d ∷ le_bytes 2 n

fetch_push-field :
    (op pc : ℕ) (head d rest : Bytes)
    → length head ≡ pc
    → fetch_push op (head ++ (d ++ rest)) pc (length d) ≡ fetched op (some d) (pc + length d)
fetch_push-field op pc head d rest h =
    let here = from?-append pc head (d ++ rest) h in
    rw (slice?-field pc (length d) (head ++ (d ++ rest)) d rest here refl, fetch_push)

le_value_one : (x : ℕ) → le_value (x ∷ []) ≡ x
unfolding le_value
le_value_one x = omega arith

-- The opcode byte of that instruction.
abbrev pub push_opcode : ℕ → ℕ
push_opcode n = if ltb n 0x4c then n else if ltb n 0x100 then 0x4c else 0x4d

-- A canonical push of up to 0xffff bytes is read as that push, whatever follows it.
pub get_opcode-push :
    (d rest : Bytes)
    → length d ≤ 0xffff
    → get_opcode (push_header (length d) ++ (d ++ rest))
      ≡ fetched (push_opcode (length d)) (some d) (length (push_header (length d)) + length d)
unfolding get_opcode
get_opcode-push d rest h = elim (Bool-cases (ltb (length d) 0x4c)) [
  | inl a ↦
      let b : leb (length d) 0x4e ≡ true = ground arith in
      rw (a, b, a) (fetch_push-field (length d) 1 (length d ∷ []) d rest refl)
  | inr a ↦ elim (Bool-cases (ltb (length d) 0x100)) [
    | inl b ↦
        let head : Bytes = 0x4c ∷ length d ∷ [] in
        let t : ltb (length (head ++ (d ++ rest))) 2 ≡ false = le→ltb_false _ _ (omega arith) in
        let size =
          slice?-field 1 1 (head ++ (d ++ rest)) (length d ∷ []) (d ++ rest)
            (from?-append 1 (0x4c ∷ []) (length d ∷ (d ++ rest)) refl) refl in
        rw (
          a,
          b,
          t,
          size,
          fetch_push1,
          le_value_one (length d),
          fetch_push-field 0x4c 2 head d rest refl,
        )
    | inr b ↦
        let n = le_bytes 2 (length d) in
        let ln = length-le_bytes 2 (length d) in
        let whole = 0x4d ∷ (n ++ (d ++ rest)) in
        let t : ltb (length whole) 3 ≡ false =
          le→ltb_false _ _ (omega (arith, length-append n (d ++ rest), ln)) in
        let size =
          slice?-field 1 2 whole n (d ++ rest) (from?-append 1 (0x4d ∷ []) (n ++ (d ++ rest)) refl)
            ln in
        let value = le_value-le_bytes 2 (length d) (omega arith) in
        let push = fetch_push-field 0x4d 3 (0x4d ∷ n) d rest (ap suc ln) in
        rw (a, b, t, size, fetch_push2, value, push, ln)
  ]
]
