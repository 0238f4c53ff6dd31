-- ===== src/Qdb/Store.antt =====
-- The key-value store github.com/piotrnar/qdb, which is not in the repository: what core/qdb/ calls
-- of it, and the laws it is documented to have. Opening, syncing and defragmenting leave the contents
-- alone, so they have no operation here.
pub mod AssocList
use yoin.Base.{ℕ, ◌≡◌, List, [], ◌∷◌, ◌⊎◌, Option, none, some, ◌==◌, if◌then◌else◌}
use yoin.Bytes.{Bytes}

-- A nil value is `none`.
pub record Kv : Type 1 where
  pub Db : Type 0
  pub get : Db → ℕ → Option Bytes
  pub put : Db → ℕ → Bytes → Db
  pub del : Db → ℕ → Db
  -- The records in the order in which `Browse` visits them.
  pub browse : Db → List (ℕ × Bytes)

-- The record is among those visited.
abbrev pub Visits : ℕ → Bytes → List (ℕ × Bytes) → Type 0
Visits k v [] = ⊥
Visits k v ((j, w) ∷ r) = ((j ≡ k) × (w ≡ v)) ⊎ Visits k v r

-- Each of these records is stored.
abbrev pub AllStored : (kv : Kv) → kv.Db → List (ℕ × Bytes) → Type 0
AllStored kv d [] = Unit
AllStored kv d ((k, v) ∷ r) = (kv.get d k ≡ some v) × AllStored kv d r

pub record KvLaws (kv : Kv) : Type 0 where
  pub get_put :
      (d : kv.Db) (k : ℕ) (v : Bytes) (j : ℕ)
      → kv.get (kv.put d k v) j ≡ (if j == k then some v else kv.get d j)
  pub get_del :
      (d : kv.Db) (k j : ℕ) → kv.get (kv.del d k) j ≡ (if j == k then none else kv.get d j)
  pub browse_stored : (d : kv.Db) → AllStored kv d (kv.browse d)
  pub browse_complete :
      (d : kv.Db) (k : ℕ) (v : Bytes) → kv.get d k ≡ some v → Visits k v (kv.browse d)
