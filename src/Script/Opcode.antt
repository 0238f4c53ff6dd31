-- ===== src/Script/Opcode.antt =====
-- core/script.go: `getOpcode`.
pub mod Bounds
use yoin.Base.{
  ℕ, ◌+◌, Bool, List, [], ◌∷◌, Option, none, some, ltb, leb, ◌==◌, if◌then◌else◌, length,
}
use yoin.Bytes.{Bytes, le_value, slice?}

pub data OpcodeError : Type 0 where
  error_1 error_2 error_3 : OpcodeError

-- An instruction: the opcode, the bytes that it pushes (nil for an opcode above 0x4e), and the
-- number of bytes read.
pub data Fetched : Type 0 where
  fetched : ℕ → Option Bytes → ℕ → Fetched
  bad_script : OpcodeError → Fetched
  fetch_panic : Fetched

-- `pvchRet = b[pc:pc+nSize]; pc += nSize`
abbrev pub fetch_push : ℕ → Bytes → ℕ → ℕ → Fetched
fetch_push opcode b pc n_size = elim (slice? b pc (pc + n_size)) [
  | none ↦ fetch_panic
  | some v ↦ fetched opcode (some v) (pc + n_size)
]

-- `int(binary.LittleEndian.Uint16(b[1:3]))`; the length has been tested.
abbrev pub fetch_push2 : ℕ → Bytes → Fetched
fetch_push2 opcode b = elim (slice? b 1 3) [
  | none ↦ fetch_panic
  | some d ↦ fetch_push opcode b 3 (le_value d)
]

abbrev pub fetch_push1 : ℕ → Bytes → Fetched
fetch_push1 opcode b = elim (slice? b 1 2) [
  | none ↦ fetch_panic
  | some d ↦ fetch_push opcode b 2 (le_value d)
]

-- The branch meant for OP_PUSHDATA4 tests for 0x4d again and is never taken: 0x4e has size 0.
unfoldable pub get_opcode : Bytes → Fetched
get_opcode [] = bad_script error_1
get_opcode (opcode ∷ r) =
    let b = opcode ∷ r in
    if leb opcode 0x4e
    then (if ltb opcode 0x4c
        then fetch_push opcode b 1 opcode
        else if opcode == 0x4c
        then (if ltb (length b) 2 then bad_script error_2 else fetch_push1 opcode b)
        else if opcode == 0x4d
        then (if ltb (length b) 3 then bad_script error_3 else fetch_push2 opcode b)
        else fetch_push opcode b 1 0)
    else fetched opcode none 1
