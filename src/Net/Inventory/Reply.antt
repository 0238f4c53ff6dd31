-- ===== src/Net/Inventory/Reply.antt =====
-- The reply to `getblocks` is what `ProcessInv` reads.
use yoin.Base.{
  ℕ, ◌+◌, ◌≤◌, ◌<◌, ◌≡◌, refl, sym, ap, ◌∙◌, List, [], ◌∷◌, ◌++◌, some, ltb, length, Bool-cases,
  inl, inr, arith, All, le→ltb_false, length-append,
}
use yoin.Bytes.{Bytes, le_bytes, le_value, from?, slice?}
use yoin.Bytes.Laws.{from?-field, slice?-field, from?-append}
use yoin.VarLen.{load_var_len, write_var_len}
use yoin.VarLen.RoundTrip.{load-write_var_len}
use yoin.Net.Inventory.{inv_entries, process_inv, inv_bodies, inv_payload}

abbrev pub IsHash : Bytes → Type 0
IsHash h = length h ≡ 32

inv_entries_lem :
    (invs : List Bytes) (pl : Bytes) (of : ℕ)
    → All IsHash invs
    → from? of pl ≡ some (inv_bodies invs)
    → inv_entries (length invs) pl of ≡ some (invs, 0)
unfolding inv_entries le_value le_bytes
inv_entries_lem [] pl of sizes here = refl
inv_entries_lem (k ∷ invs) pl of sizes here =
    let two : Bytes = le_bytes 4 2 in
    let typ = slice?-field of 4 pl two (k ++ inv_bodies invs) here refl in
    let next = from?-field of 4 pl two (k ++ inv_bodies invs) here refl in
    let past : of + 4 + 32 ≡ of + 36 = omega arith in
    let hash : slice? pl (of + 4) (of + 36) ≡ some k =
      ap (slice? pl (of + 4)) (sym past)
      ∙ slice?-field (of + 4) 32 pl k (inv_bodies invs) next sizes.0 in
    let rest : from? (of + 36) pl ≡ some (inv_bodies invs) =
      ap (λ n. from? n pl) (sym past)
      ∙ from?-field (of + 4) 32 pl k (inv_bodies invs) next sizes.0 in
    rw (typ, hash, inv_entries_lem invs pl (of + 36) sizes.1 rest) refl

length-write_var_len : (n : ℕ) → 1 ≤ length (write_var_len n)
unfolding write_var_len
length-write_var_len n = elim (Bool-cases (ltb n 0xfd)) [
  | inl a ↦ rw a (omega arith)
  | inr a ↦ elim (Bool-cases (ltb n 0x10000)) [
    | inl b ↦ rw (a, b) (omega arith)
    | inr b ↦ rw (a, b) (omega arith)
  ]
]

length-inv_payload :
    (h : Bytes) (invs : List Bytes) → IsHash h → 37 ≤ length (inv_payload (h ∷ invs))
unfolding inv_payload le_bytes
length-inv_payload h invs size = omega (
  arith,
  length-append (write_var_len (length (h ∷ invs))) (inv_bodies (h ∷ invs)),
  length-append h (inv_bodies invs),
  length-write_var_len (length (h ∷ invs)),
  size,
)

entries_there :
    (invs : List Bytes)
    → from? (length (write_var_len (length invs))) (inv_payload invs) ≡ some (inv_bodies invs)
unfolding inv_payload
entries_there invs =
    from?-append (length (write_var_len (length invs))) (write_var_len (length invs))
      (inv_bodies invs) refl

-- `ProcessInv` gets every hash out of an `inv` message that the node itself would send, in its order.
pub process_inv-inv_payload :
    (invs : List Bytes)
    → 0 < length invs
    → length invs ≤ 500
    → All IsHash invs
    → process_inv (inv_payload invs) ≡ some (invs, 0)
unfolding process_inv
process_inv-inv_payload [] more few sizes = absurd (omega (arith, more))
process_inv-inv_payload (h ∷ invs) more few sizes =
    let all = h ∷ invs in
    let n = length (write_var_len (length all)) in
    let long = le→ltb_false (length (inv_payload all)) 37 (length-inv_payload h invs sizes.0) in
    let loaded : load_var_len (inv_payload all) ≡ some (length all, n) =
      unfold inv_payload in load-write_var_len (length all) (inv_bodies all) (omega (arith, few)) in
    rw (long, loaded) (inv_entries_lem all (inv_payload all) n sizes (entries_there all))
