-- ===== src/Script/Shuffle/Roll.antt =====
-- OP_PICK and OP_ROLL.
use yoin.Base.{
  ◌≡◌, refl, [], ◌∷◌, ◌++◌, length, length-append, arith, get_elem?, some, ltb, leb, true, false,
  le→ltb_false,
}
use yoin.Bytes.{Bytes}
use yoin.Script.Stack.{Stack, next, int_of, top}
use yoin.Script.Shuffle.{pop_n, push_back, roll, op_pick_or_roll, picked_or_rolled}

-- `pre`, popped one after another onto `tmp`.
stacked : Stack → Stack → Stack
stacked [] tmp = tmp
stacked (x ∷ pre) tmp = stacked pre (x ∷ tmp)

pop_n-append : (pre tmp r : Stack) → pop_n (length pre) tmp (pre ++ r) ≡ next (stacked pre tmp, r)
unfolding pop_n stacked
pop_n-append [] tmp r = refl
pop_n-append (x ∷ pre) tmp r = pop_n-append pre (x ∷ tmp) r

push_back-stacked : (pre tmp s : Stack) → push_back (stacked pre tmp) s ≡ push_back tmp (pre ++ s)
unfolding push_back stacked
push_back-stacked [] tmp s = refl
push_back-stacked (x ∷ pre) tmp s = push_back-stacked pre (x ∷ tmp) s

roll-append :
    (pre post : Stack) (x : Bytes) → roll (length pre) (pre ++ x ∷ post) ≡ next (x ∷ (pre ++ post))
unfolding roll
roll-append pre post x =
    rw (roll, pop_n-append pre [] (x ∷ post), push_back-stacked pre [] post)
      (unfold push_back in refl)

get_elem?-length :
    (pre post : Stack) (x : Bytes) → get_elem? (pre ++ x ∷ post) (length pre) ≡ some x
get_elem?-length [] post x = refl
get_elem?-length (y ∷ pre) post x = get_elem?-length pre post x

room : (pre post : Stack) (x : Bytes) → leb (length (pre ++ x ∷ post)) (length pre) ≡ false
room pre post x = let l = length-append pre (x ∷ post) in ground arith

picked :
    (pre post : Stack) (x : Bytes)
    → picked_or_rolled 0x79 (length pre) (pre ++ x ∷ post) ≡ next (x ∷ (pre ++ x ∷ post))
unfolding picked_or_rolled
picked pre post x = rw (room pre post x, top, get_elem?-length pre post x)

rolled :
    (pre post : Stack) (x : Bytes)
    → picked_or_rolled 0x7a (length pre) (pre ++ x ∷ post) ≡ next (x ∷ (pre ++ post))
unfolding picked_or_rolled
rolled [] post x = ground arith
rolled (y ∷ pre) post x =
    let t : ltb 0 (length (y ∷ pre)) ≡ true = ground arith in
    rw (room (y ∷ pre) post x, t) (roll-append (y ∷ pre) post x)

-- With the number n of elements above it on top of the stack, OP_PICK copies the element under
-- those n to the top and OP_ROLL moves it there; the others keep their order.
pub op_pick_or_roll_lem :
    (d x : Bytes) (pre post : Stack)
    → int_of d ≡ length pre
    → (op_pick_or_roll 0x79 (d ∷ (pre ++ x ∷ post)) ≡ next (x ∷ (pre ++ x ∷ post)))
      × (op_pick_or_roll 0x7a (d ∷ (pre ++ x ∷ post)) ≡ next (x ∷ (pre ++ post)))
unfolding op_pick_or_roll
op_pick_or_roll_lem d x pre post h =
    let l = length-append pre (x ∷ post) in
    let t : ltb (length (d ∷ (pre ++ x ∷ post))) 2 ≡ false = le→ltb_false _ _ (omega arith) in
    (rw (t, h) (picked pre post x), rw (t, h) (rolled pre post x))
