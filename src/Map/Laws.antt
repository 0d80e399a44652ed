-- ===== src/Map/Laws.antt =====
-- The laws of maps: what a lookup finds after each write.
use clixor_backend.Prelude.{
  true, none, some, List, [], ◌∷◌, Eq, ◌==◌, if◌then◌else◌, ◌≡◌, refl, inl, inr, Bool-cases, arith,
  Option, subst,
}
use clixor_backend.Map.{Map, empty, get, put, delete, update_all, find, without, map_entries}
use mathlib.Core.Option

pub beq_refl {ℓ} : {K : Type ℓ} ⦃e : Eq K⦄ (k : K) → (k == k) ≡ true
beq_refl ⦃e⦄ k = (e.beq_iff k k).1 refl

module _ {ℓ κ} {K : Type ℓ} {V : Type κ} ⦃e : Eq K⦄ where
  pub get-empty : (k : K) → get (empty {V = V}) k ≡ none
  unfolding get
  get-empty k = refl

  pub find-without :
      (k j : K) (m : List (K × V)) → find j (without k m) ≡ (if k == j then none else find j m)
  unfolding find without
  find-without k j [] = ground arith
  find-without k j ((i, v) ∷ m) =
      ground (arith, find-without k j m, e.beq_iff i k, e.beq_iff i j, e.beq_iff k j)

  pub get-delete : (m : Map K V) (k j : K) → get (delete m k) j ≡ (if k == j then none else get m j)
  unfolding get delete
  get-delete m k j = find-without k j m.entries

  pub get-put :
      (m : Map K V) (k j : K) (v : V) → get (put m k v) j ≡ (if k == j then some v else get m j)
  unfolding get put
  get-put m k j v = ground (arith, find-without k j m.entries)

  pub find-map_entries :
      (f : K → V → V) (j : K) (m : List (K × V))
      → find j (map_entries f m) ≡ Option.map (f j) (find j m)
  unfolding find map_entries
  find-map_entries f j [] = refl
  find-map_entries f j ((i, v) ∷ m) = elim (Bool-cases (i == j)) [
    | inl h ↦ rw (h, (e.beq_iff i j).0 h)
    | inr h ↦ rw h (find-map_entries f j m)
  ]

  pub get-update_all :
      (f : K → V → V) (m : Map K V) (j : K) → get (update_all f m) j ≡ Option.map (f j) (get m j)
  unfolding get update_all
  get-update_all f m j = find-map_entries f j m.entries

-- What holds of the image of every value holds of every value of the updated map.
module _ {ℓ κ μ} {K : Type ℓ} {V : Type κ} ⦃e : Eq K⦄ (P : V → Type μ) (f : K → V → V) where
  every_image :
      ((k : K) (v : V) → P (f k v))
      → (k : K) (v : V) (o : Option V) → Option.map (f k) o ≡ some v
      → P v
  every_image h k v none p = cc
  every_image h k v (some w) p = subst P (cc) (h k w)

  pub update_all_every :
      (m : Map K V)
      → ((k : K) (v : V) → P (f k v))
      → (k : K) (v : V) → get (update_all f m) k ≡ some v
      → P v
  update_all_every m h k v p = every_image h k v (get m k) (rw get-update_all at p)

-- The three writes and the empty map, for `simp`.
pub ruleset map_laws = (get-empty, get-delete, get-put, get-update_all)
