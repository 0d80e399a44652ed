-- ===== src/Leases/Laws.antt =====
-- Leased records are not candidates again, for any test that fails on what the lease wrote.
use clixor_backend.Prelude.{
  ℕ, ◌≡◌, ◌≢◌, refl, ◌∙◌, subst, Option, none, some, List, [], ◌∷◌, Bool, true, false, arith, All,
  All-map, All-take, All-sort_by, nat_eq, select, Bool-cases, inl, inr, if_cases, if_both, ◌==◌,
}
use mathlib.Core.Option
use clixor_backend.Map.{Map, get, put, update_all, values, value_list}
use clixor_backend.Map.Laws.{get-put, get-update_all, beq_refl}
use clixor_backend.Map.Unique.{Unique, put-Unique, update_all-Unique, range_found}
use clixor_backend.Leases.{lease_each, batch_of}

-- Each record is stored under its own id, once.
pub record IsTable {V : Type 0} (id : V → ℕ) (m : Map ℕ V) : Type 0 where
  pub unique : Unique m
  pub keyed : (k : ℕ) (v : V) → get m k ≡ some v → id v ≡ k

module _ {V : Type 0} (P : V → Type 0) where
  values-All : (es : List (ℕ × V)) → All (λ p. P p.1) es → All P (value_list es)
  unfolding value_list
  values-All [] h = tt
  values-All ((k, v) ∷ es) h = (h.0, values-All es h.1)

  -- The select keeps what it tested.
  tested : (p : V → Bool) (vs : List V) → All P vs → All (λ v. P v × (p v ≡ true)) (select p vs)
  tested p [] h = tt
  tested p (v ∷ vs) h = elim (Bool-cases (p v)) [
    | inl e ↦ rw e ((h.0, e), tested p vs h.1)
    | inr e ↦ rw e (tested p vs h.1)
  ]

module _ {V : Type 0} (id : V → ℕ) where
  -- The record under a key.
  abbrev pub Stored : Map ℕ V → V → Type 0
  Stored m v = get m (id v) ≡ some v

  Stored-values : (m : Map ℕ V) → IsTable id m → All (Stored m) (values m)
  unfolding values
  Stored-values m t = values-All (Stored m) m.entries (
      All-map (λ p. get m p.0 ≡ some p.1) (λ p. Stored m p.1) m.entries
        (λ p e. rw (t.keyed p.0 p.1 e) e) (range_found m t.unique))

  -- Every candidate is stored under its id and passes the test.
  pub batch_of_sound :
      (less : V → V → Bool) (claimable : V → Bool) (limit : ℕ) (m : Map ℕ V)
      → IsTable id m
      → All (λ v. Stored m v × (claimable v ≡ true)) (batch_of less claimable limit m)
  unfolding batch_of
  batch_of_sound less claimable limit m t =
      All-take _ limit _
        (All-sort_by _ less _ (tested (Stored m) claimable (values m) (Stored-values m t)))

module _ {V : Type 0} (id : V → ℕ) (lease : V → V) (same_id : (v : V) → id (lease v) ≡ id v) where
  pub put-IsTable : (m : Map ℕ V) (v : V) → IsTable id m → IsTable id (put m (id v) (lease v))
  put-IsTable m v t = record {
    unique = put-Unique m (id v) (lease v) t.unique;
    keyed = λ k w h.
        if_cases (λ o. o ≡ some w → id w ≡ k) (id v == k) (some (lease v)) (get m k)
          (λ e q. ground (arith, same_id v)) (λ e q. t.keyed k w q) (rw get-put at h);
  }

  pub lease_each-IsTable :
      (ds : List V) (m : Map ℕ V) → IsTable id m → IsTable id (lease_each id lease ds m)
  unfolding lease_each
  lease_each-IsTable [] m t = t
  lease_each-IsTable (d ∷ ds) m t =
      lease_each-IsTable ds (put m (id d) (lease d)) (put-IsTable m d t)

-- A sweep that keeps the ids keeps the table.
pub update_all-IsTable :
    {V : Type 0} (id : V → ℕ) (f : ℕ → V → V) (m : Map ℕ V)
    → ((k : ℕ) (v : V) → id (f k v) ≡ id v)
    → IsTable id m
    → IsTable id (update_all f m)
update_all-IsTable {V} id f m same t = record {
  unique = update_all-Unique f m t.unique;
  keyed = λ k v h. swept k v (get m k) refl (rw get-update_all at h);
}
  where
    swept : (k : ℕ) (v : V) (o : Option V) → get m k ≡ o → Option.map (f k) o ≡ some v → id v ≡ k
    swept k v none e p = cc
    swept k v (some w) e p = subst (λ x. id x ≡ k) (cc) (same k w ∙ t.keyed k w e)

module _ {V : Type 0} (blocked : V → Bool) where
  -- The record under a key is blocked.
  abbrev pub Held : Map ℕ V → ℕ → Type 0
  Held m k = (v : V) × (get m k ≡ some v) × (blocked v ≡ true)

  pub update_all-Held :
      (f : ℕ → V → V) (m : Map ℕ V) (k : ℕ)
      → ((j : ℕ) (v : V) → blocked v ≡ true → blocked (f j v) ≡ true)
      → Held m k
      → Held (update_all f m) k
  update_all-Held f m k keeps (v, e, b) = (f k v, rw (get-update_all, e) refl, keeps k v b)

  put-Held : (m : Map ℕ V) (j k : ℕ) (w : V) → blocked w ≡ true → Held m k → Held (put m j w) k
  put-Held m j k w b (v, e, h) = rw get-put (
      if_both (λ o. (u : V) × (o ≡ some u) × (blocked u ≡ true)) (j == k) (some w) (get m k)
        (w, refl, b) (v, e, h))

  module _ (id : V → ℕ) (lease : V → V) (leased : (v : V) → blocked (lease v) ≡ true) where
    lease_each-Held :
        (ds : List V) (m : Map ℕ V) (k : ℕ) → Held m k → Held (lease_each id lease ds m) k
    unfolding lease_each
    lease_each-Held [] m k h = h
    lease_each-Held (d ∷ ds) m k h =
        lease_each-Held ds (put m (id d) (lease d)) k (put-Held m (id d) k (lease d) (leased d) h)

    -- After the loop every record of the batch is blocked.
    pub leased-Held :
        (ds : List V) (m : Map ℕ V) → All (λ d. Held (lease_each id lease ds m) (id d)) ds
    unfolding lease_each
    leased-Held [] m = tt
    leased-Held (d ∷ ds) m = (
      lease_each-Held ds (put m (id d) (lease d)) (id d)
          (lease d, rw (get-put, beq_refl (id d)) refl, leased d),
      leased-Held ds (put m (id d) (lease d)),
    )

  module _ (id : V → ℕ) (claimable : V → Bool) where
    blocked_ne :
        (m : Map ℕ V) (k : ℕ) (d : V)
        → ((v : V) → blocked v ≡ true → claimable v ≡ false)
        → Held m k
        → get m (id d) ≡ some d
        → claimable d ≡ true
        → k ≢ id d
    blocked_ne m k d fresh (v, e, b) f c = λ p. cc (fresh v b)

    -- No batch of claimable records has the id of a blocked one.
    pub Held-not_in :
        (m : Map ℕ V) (k : ℕ) (ds : List V)
        → ((v : V) → blocked v ≡ true → claimable v ≡ false)
        → Held m k
        → All (λ d. Stored id m d × (claimable d ≡ true)) ds
        → All (λ d. k ≢ id d) ds
    Held-not_in m k ds fresh h =
        All-map (λ d. Stored id m d × (claimable d ≡ true)) (λ d. k ≢ id d) ds
          (λ d p. blocked_ne m k d fresh h p.0 p.1)
