-- ===== src/Script/Shuffle.antt =====
-- core/script.go: the cases of `evalScript` that only move elements of the main stack, 0x6d to 0x82.
pub mod Roll
use yoin.Base.{
  ℕ, zero, suc, ◌+◌, ◌-◌, Bool, List, [], ◌∷◌, ltb, leb, ◌==◌, if◌then◌else◌, length, ◌||◌,
}
use yoin.Bytes.{Bytes}
use yoin.Script.Stack.{
  Stack, Flow, next, exited, failed, ◌>>=◌, ◌>>◌, need, push, pop, top, push_int, pop_int, top_int,
}

op_2drop : Stack → Flow Stack
op_2drop s = do need 2 s; (_, s₁) ← pop s; (_, s₂) ← pop s₁; next s₂

op_2dup : Stack → Flow Stack
op_2dup s = do need 2 s; x1 ← top 1 s; x2 ← top 2 s; next (push x1 (push x2 s))

op_3dup : Stack → Flow Stack
op_3dup s = do
  need 3 s
  x1 ← top 3 s
  x2 ← top 2 s
  x3 ← top 1 s
  next (push x3 (push x2 (push x1 s)))

op_2over : Stack → Flow Stack
op_2over s = do need 4 s; x1 ← top 4 s; x2 ← top 3 s; next (push x2 (push x1 s))

op_ifdup : Stack → Flow Stack
op_ifdup s = do need 1 s; ti ← top_int 1 s; next (if ti == 0 then s else push_int ti s)

op_drop : Stack → Flow Stack
op_drop s = do need 1 s; (_, s₁) ← pop s; next s₁

op_dup : Stack → Flow Stack
op_dup s = do need 1 s; (el, s₁) ← pop s; next (push el (push el s₁))

op_nip : Stack → Flow Stack
op_nip s = do need 2 s; (x, s₁) ← pop s; (_, s₂) ← pop s₁; next (push x s₂)

op_over : Stack → Flow Stack
op_over s = do need 2 s; x ← top 2 s; next (push x s)

-- `tmp[i] = stack.pop()` for n elements: those popped, the last popped first, and the stack left.
unfoldable pub pop_n : ℕ → Stack → Stack → Flow (Stack × Stack)
pop_n zero tmp s = next (tmp, s)
pop_n (suc n) tmp s = do (x, s₁) ← pop s; pop_n n (x ∷ tmp) s₁

-- `stack.push(tmp[i])` from the last popped to the first.
unfoldable pub push_back : Stack → Stack → Stack
push_back [] s = s
push_back (x ∷ tmp) s = push_back tmp (push x s)

unfoldable pub roll : ℕ → Stack → Flow Stack
unfolding pop_n push_back
roll n s = do (tmp, s₁) ← pop_n n [] s; (xn, s₂) ← pop s₁; next (push xn (push_back tmp s₂))

picked_or_rolled : ℕ → ℕ → Stack → Flow Stack
picked_or_rolled opcode n s =
    if leb (length s) n
    then failed
    else if opcode == 0x79
    then (do x ← top (suc n) s; next (push x s))
    else if ltb 0 n
    then roll n s
    else next s

unfoldable pub op_pick_or_roll : ℕ → Stack → Flow Stack
unfolding roll picked_or_rolled
op_pick_or_roll opcode s = do need 2 s; (n, s₁) ← pop_int s; picked_or_rolled opcode n s₁

op_rot : Stack → Flow Stack
op_rot s = do
  need 3 s
  (x1, s₁) ← pop s
  (x2, s₂) ← pop s₁
  (x3, s₃) ← pop s₂
  next (push x1 (push x3 (push x2 s₃)))

op_swap : Stack → Flow Stack
op_swap s = do need 2 s; (x1, s₁) ← pop s; (x2, s₂) ← pop s₁; next (push x2 (push x1 s₂))

op_tuck : Stack → Flow Stack
op_tuck s = do need 2 s; (x1, s₁) ← pop s; (x2, s₂) ← pop s₁; next (push x2 (push x1 (push x2 s₂)))

op_size : Stack → Flow Stack
op_size s = do need 1 s; x ← top 1 s; next (push_int (length x) s)

-- An opcode with no case ends the process.
unfoldable pub shuffle_op : ℕ → Stack → Flow Stack
unfolding op_2drop op_2dup op_3dup op_2over op_ifdup op_drop op_dup op_nip op_over op_pick_or_roll
    op_rot op_swap op_tuck op_size
shuffle_op op s =
    if op == 0x6d
    then op_2drop s
    else if op == 0x6e
    then op_2dup s
    else if op == 0x6f
    then op_3dup s
    else if op == 0x70
    then op_2over s
    else if op == 0x73
    then op_ifdup s
    else if op == 0x74
    then next (push_int (length s) s)
    else if op == 0x75
    then op_drop s
    else if op == 0x76
    then op_dup s
    else if op == 0x77
    then op_nip s
    else if op == 0x78
    then op_over s
    else if op == 0x79 || op == 0x7a
    then op_pick_or_roll op s
    else if op == 0x7b
    then op_rot s
    else if op == 0x7c
    then op_swap s
    else if op == 0x7d
    then op_tuck s
    else if op == 0x82
    then op_size s
    else exited
