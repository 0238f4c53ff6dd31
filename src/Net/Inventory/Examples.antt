-- ===== src/Net/Inventory/Examples.antt =====
-- A tree of two blocks, for the inventories of client/net.go.
use mathlib.Core.Path.{subst, sym}
use mathlib.Core.Option.{some-injective}
use yoin.Base.{ℕ, zero, suc, ◌≡◌, ◌⊎◌, inl, inr, refl, List, [], ◌∷◌, Option, none, some, replicate}
use yoin.Bytes.{Bytes, from?, prefix?, slice?, le_value, bytes_equal}
use yoin.Chain.Tree.{Nodes}
use yoin.Chain.Tree.Farthest.{Within, Within-children}
use yoin.Net.Inventory.{inv_payload, too_many, parse_get_blocks, process_inv, process_get_blocks}
use yoin.Net.Inventory.Locate.{Listed, process_get_blocks-Listed}

abbrev two : Nodes
two zero = some (record {
  block_hash = replicate 32 0;
  height = 0;
  bits = 0;
  timestamp = 0;
  parent = none;
  children = 1 ∷ [];
})
two (suc zero) = some (record {
  block_hash = replicate 32 1;
  height = 1;
  bits = 0;
  timestamp = 0;
  parent = some 0;
  children = [];
})
two (suc (suc n)) = none

second-Within : Within two 1 1
second-Within = Within-children two 0 1 _ refl (λ c child. absurd child)

two-Within : Within two 2 0
two-Within = Within-children two 1 0 _ refl (λ c child. elim child [
  | inl e ↦ subst (Within two 1) (sym e) second-Within
  | inr h ↦ absurd h
])

-- Every hash is that of the first block.
abbrev index : Bytes → Option ℕ
index idx = some 0

indexed : (idx : Bytes) (bl : ℕ) → index idx ≡ some bl → Within two 2 bl
indexed idx bl e = subst (Within two 2) (some-injective _ _ e) two-Within

-- A version, one hash, and no hash to stop at.
abbrev request : Bytes
request = 89 ∷ 27 ∷ 0 ∷ 0 ∷ 1 ∷ replicate 64 9

process_get_blocks-Listed_example :
    (process_get_blocks 1000 two index 2 request ≡ some none)
    ⊎ ((hs : List Bytes) × (stop : Bytes) × (invs : List Bytes) × (parse_get_blocks request
          ≡ some (hs, stop))
        × (process_get_blocks 1000 two index 2 request ≡ some (some (inv_payload invs)))
        × Listed two index hs invs)
unfolding too_many from?
process_get_blocks-Listed_example = process_get_blocks-Listed 1000 two index 2 request indexed refl

both_blocks :
    process_get_blocks 1000 two index 2 request
    ≡ some (some (inv_payload (replicate 32 1 ∷ replicate 32 0 ∷ [])))
unfolding process_get_blocks from? prefix? bytes_equal
both_blocks = refl

-- A count of two before a single entry: the second is cut out of what is not there.
too_short : process_inv (2 ∷ 2 ∷ 0 ∷ 0 ∷ 0 ∷ replicate 32 1) ≡ none
unfolding process_inv slice? from? prefix? le_value
too_short = refl
