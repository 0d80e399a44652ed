-- ===== src/Map.antt =====
-- Go's `map[K]V` as a list of entries with at most one entry for each key that was written
-- through `put`. The order of the entries stands for the order in which `range` visits them.
pub mod Laws
pub mod Unique
use clixor_backend.Prelude.{Bool, Option, none, some, List, [], ◌∷◌, Eq, ◌==◌, if◌then◌else◌}

pub record Map {ℓ κ} (K : Type ℓ) (V : Type κ) : Type (ℓ ⊔ κ) where
  pub entries : List (K × V)

abbrev pub empty {ℓ κ} : {K : Type ℓ} {V : Type κ} → Map K V
empty = record { entries = [] }

module _ {ℓ κ} {K : Type ℓ} {V : Type κ} ⦃e : Eq K⦄ where
  unfoldable pub find : K → List (K × V) → Option V
  find k [] = none
  find k ((j, v) ∷ m) = if j == k then some v else find k m

  unfoldable pub without : K → List (K × V) → List (K × V)
  without k [] = []
  without k ((j, v) ∷ m) = let rest = without k m in if j == k then rest else (j, v) ∷ rest

  -- v, ok := m[k]
  unfoldable pub get : Map K V → K → Option V
  unfolding find
  get m k = find k m.entries

  -- delete(m, k)
  unfoldable pub delete : Map K V → K → Map K V
  unfolding without
  delete m k = record { entries = without k m.entries }

  -- m[k] = v
  unfoldable pub put : Map K V → K → V → Map K V
  unfolding without
  put m k v = record { entries = (k, v) ∷ without k m.entries }

module _ {ℓ κ} {K : Type ℓ} {V : Type κ} where
  unfoldable pub map_entries : (K → V → V) → List (K × V) → List (K × V)
  map_entries f [] = []
  map_entries f ((k, v) ∷ m) = (k, f k v) ∷ map_entries f m

  -- for k, v := range m { m[k] = f(k, v) }
  unfoldable pub update_all : (K → V → V) → Map K V → Map K V
  unfolding map_entries
  update_all f m = record { entries = map_entries f m.entries }

  unfoldable pub select_entries : (K → V → Bool) → List (K × V) → List (K × V)
  select_entries p [] = []
  select_entries p ((k, v) ∷ m) =
      let rest = select_entries p m in if p k v then (k, v) ∷ rest else rest

  -- for k, v := range m { if !p(k, v) { delete(m, k) } }
  unfoldable pub retain : (K → V → Bool) → Map K V → Map K V
  unfolding select_entries
  retain p m = record { entries = select_entries p m.entries }

  unfoldable pub value_list : List (K × V) → List V
  value_list [] = []
  value_list ((k, v) ∷ m) = v ∷ value_list m

  -- The values in the order of `range`.
  unfoldable pub values : Map K V → List V
  unfolding value_list
  values m = value_list m.entries
