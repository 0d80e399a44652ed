-- ===== src/Leases.antt =====
-- What the two delivery queues of the memory store share: a table of records under their own ids,
-- a batch of candidates in a fixed order, and the loop that leases each of them.
pub mod Laws
use clixor_backend.Prelude.{ℕ, List, [], ◌∷◌, Bool, map, nat_eq, select, sort_by, take}
use clixor_backend.Map.{Map, put, values}

module _ {V : Type 0} (id : V → ℕ) (lease : V → V) where
  -- for _, d := range batch { d = lease(d); m[d.ID] = d }
  unfoldable pub lease_each : List V → Map ℕ V → Map ℕ V
  lease_each [] m = m
  lease_each (d ∷ ds) m = lease_each ds (put m (id d) (lease d))

-- The claimable values in the given order, at most `limit` of them.
unfoldable pub batch_of : {V : Type 0} → (V → V → Bool) → (V → Bool) → ℕ → Map ℕ V → List V
batch_of less claimable limit m = take limit (sort_by less (select claimable (values m)))
