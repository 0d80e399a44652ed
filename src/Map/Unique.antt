-- ===== src/Map/Unique.antt =====
-- At most one entry for each key: put, delete and update_all keep it, and under it a lookup finds
-- each entry that `range` visits.
use clixor_backend.Prelude.{
  none, some, List, [], ◌∷◌, Eq, ◌==◌, ◌≡◌, refl, inl, inr, Bool-cases, arith, All, All-map,
}
use clixor_backend.Map.{Map, empty, get, put, delete, update_all, find, without, map_entries}
use clixor_backend.Map.Laws.{find-without, find-map_entries, beq_refl}

module _ {ℓ κ} {K : Type ℓ} {V : Type κ} ⦃e : Eq K⦄ where
  UniqueKeys : List (K × V) → Type κ
  UniqueKeys [] = Unit
  UniqueKeys ((k, v) ∷ m) = (find k m ≡ none) × UniqueKeys m

  pub Unique : Map K V → Type κ
  unfolding UniqueKeys
  Unique m = UniqueKeys m.entries

  without-UniqueKeys : (k : K) (m : List (K × V)) → UniqueKeys m → UniqueKeys (without k m)
  unfolding without UniqueKeys
  without-UniqueKeys k [] h = tt
  without-UniqueKeys k ((j, v) ∷ m) h = elim (Bool-cases (j == k)) [
    | inl hit ↦ rw hit (without-UniqueKeys k m h.1)
    | inr miss ↦ rw miss (ground (arith, find-without k j m, h.0), without-UniqueKeys k m h.1)
  ]

  find_in_tail :
      (k : K) (v : V) (m : List (K × V))
      → find k m ≡ none
      → (p : K × V) → find p.0 m ≡ some p.1
      → find p.0 ((k, v) ∷ m) ≡ some p.1
  unfolding find
  find_in_tail k v m h p q = ground (arith, e.beq_iff k p.0)

  entries_found : (m : List (K × V)) → UniqueKeys m → All (λ p. find p.0 m ≡ some p.1) m
  unfolding find UniqueKeys
  entries_found [] h = tt
  entries_found ((k, v) ∷ m) h = (
    rw (beq_refl k) refl,
    All-map (λ p. find p.0 m ≡ some p.1) (λ p. find p.0 ((k, v) ∷ m) ≡ some p.1) m
        (find_in_tail k v m h.0) (entries_found m h.1),
  )

  -- What `range` visits is what the lookups find.
  pub range_found : (m : Map K V) → Unique m → All (λ p. get m p.0 ≡ some p.1) m.entries
  unfolding get Unique
  range_found m h = entries_found m.entries h

  map_entries-UniqueKeys :
      (f : K → V → V) (m : List (K × V)) → UniqueKeys m → UniqueKeys (map_entries f m)
  unfolding map_entries UniqueKeys
  map_entries-UniqueKeys f [] h = tt
  map_entries-UniqueKeys f ((k, v) ∷ m) h =
      (rw (find-map_entries f k m, h.0), map_entries-UniqueKeys f m h.1)

  pub put-Unique : (m : Map K V) (k : K) (v : V) → Unique m → Unique (put m k v)
  unfolding Unique put UniqueKeys
  put-Unique m k v h =
      (rw (find-without k k m.entries, beq_refl k), without-UniqueKeys k m.entries h)

  pub delete-Unique : (m : Map K V) (k : K) → Unique m → Unique (delete m k)
  unfolding Unique delete
  delete-Unique m k h = without-UniqueKeys k m.entries h

  pub update_all-Unique : (f : K → V → V) (m : Map K V) → Unique m → Unique (update_all f m)
  unfolding Unique update_all
  update_all-Unique f m h = map_entries-UniqueKeys f m.entries h

pub empty-Unique {ℓ κ} : (K : Type ℓ) (V : Type κ) ⦃e : Eq K⦄ → Unique (empty {K = K} {V = V})
unfolding Unique UniqueKeys
empty-Unique K V = tt
