-- ===== src/Memory/PreKeys/Spent.antt =====
-- A one-time pre-key is stored once and handed out once.
use clixor_backend.Prelude.{
  ℕ, Option, some, List, [], ◌∷◌, ◌++◌, true, false, not, ◌≡◌, ◌≢◌, arith, ◌==◌, nat_eq, All,
  All-append, if_cases, if_both, exists, refl, Bool, ◌&&◌, subst, ap,
}
use clixor_backend.Domain.{Uuid, Time, OneTimePreKey}
use clixor_backend.Memory.Outbox.{is_set}
use clixor_backend.Memory.PreKeys.{has_key, add_keys, claim_key}

-- No two keys of a device have one id.
abbrev pub DistinctKeys : List OneTimePreKey → Type 0
DistinctKeys [] = Unit {0}
DistinctKeys (k ∷ ks) = All (λ x. x.key_id ≢ k.key_id) ks × DistinctKeys ks

lacks :
    (key_id : ℕ) (ks : List OneTimePreKey)
    → has_key key_id ks ≡ false
    → All (λ x. x.key_id ≢ key_id) ks
unfolding has_key
lacks key_id [] h = tt
lacks key_id (k ∷ ks) h = (ground arith, lacks key_id ks (ground arith))

append_distinct :
    (ks : List OneTimePreKey) (k : OneTimePreKey)
    → DistinctKeys ks
    → All (λ x. x.key_id ≢ k.key_id) ks
    → DistinctKeys (ks ++ k ∷ [])
append_distinct [] k d h = (tt, tt)
append_distinct (x ∷ ks) k d h = (
  All-append (λ y. y.key_id ≢ x.key_id) ks (k ∷ []) d.0 (λ p. h.0 (omega arith), tt),
  append_distinct ks k d.1 h.1,
)

-- Storing a batch of keys keeps the key ids of a device distinct, whatever repetitions the batch
-- has in itself or with the stored keys.
pub add_keys-DistinctKeys :
    (device_id : Uuid) (ks stored : List OneTimePreKey)
    → DistinctKeys stored
    → DistinctKeys (add_keys device_id ks stored)
unfolding add_keys
add_keys-DistinctKeys device_id [] stored d = d
add_keys-DistinctKeys device_id (k ∷ ks) stored d =
    if_cases (λ r. DistinctKeys (add_keys device_id ks r)) (has_key k.key_id stored) _ _
      (λ _. add_keys-DistinctKeys device_id ks stored d)
      (λ e.
        add_keys-DistinctKeys device_id ks _ (append_distinct stored _ d (lacks k.key_id stored e)))

module _ (now : Time) where
  -- A claim changes no key id.
  claim-ids :
      (key_id : ℕ) (ks : List OneTimePreKey)
      → All (λ x. x.key_id ≢ key_id) ks
      → All (λ x. x.key_id ≢ key_id) (claim_key now ks).1
  unfolding claim_key
  claim-ids key_id [] h = tt
  claim-ids key_id (k ∷ ks) h =
      if_both {A = Option OneTimePreKey × List OneTimePreKey}
        (λ r. All (λ x. x.key_id ≢ key_id) r.1) (not (is_set k.claimed_at)) _ _ h
        (h.0, claim-ids key_id ks h.1)

  pub claim-DistinctKeys :
      (ks : List OneTimePreKey) → DistinctKeys ks → DistinctKeys (claim_key now ks).1
  unfolding claim_key
  claim-DistinctKeys [] d = tt
  claim-DistinctKeys (k ∷ ks) d =
      if_both {A = Option OneTimePreKey × List OneTimePreKey} (λ r. DistinctKeys r.1)
        (not (is_set k.claimed_at)) _ _ d (claim-ids k.key_id ks d.0, claim-DistinctKeys ks d.1)

-- An unclaimed key has this id.
abbrev pub unclaimed : ℕ → List OneTimePreKey → Bool
unclaimed key_id ks = exists (λ x. x.key_id == key_id && not (is_set x.claimed_at)) ks

absent :
    (key_id : ℕ) (ks : List OneTimePreKey)
    → All (λ x. x.key_id ≢ key_id) ks
    → unclaimed key_id ks ≡ false
absent key_id [] h = refl
absent key_id (k ∷ ks) h = ground (arith, absent key_id ks h.1, h.0)

abbrev SpentBy : Option OneTimePreKey × List OneTimePreKey → Type 0
SpentBy r = (k : OneTimePreKey) → r.0 ≡ some k → unclaimed k.key_id r.1 ≡ false

spent_cons :
    (j : OneTimePreKey) (r : Option OneTimePreKey × List OneTimePreKey)
    → not (is_set j.claimed_at) ≡ false
    → SpentBy r
    → SpentBy (r.0, j ∷ r.1)
spent_cons j r h p = λ k q. ground (arith, p k q)

spent_head :
    (claimed k : OneTimePreKey) (ks : List OneTimePreKey)
    → claimed ≡ k
    → unclaimed claimed.key_id ks ≡ false
    → is_set claimed.claimed_at ≡ true
    → unclaimed k.key_id (claimed ∷ ks) ≡ false
spent_head claimed k ks p a c =
    subst (λ (x : OneTimePreKey). unclaimed x.key_id (claimed ∷ ks) ≡ false) p
      (ground (arith, a, c))

claim_key-SpentBy :
    (now : Time) (ks : List OneTimePreKey) → DistinctKeys ks → SpentBy (claim_key now ks)
unfolding claim_key
claim_key-SpentBy now [] d = λ k q. cc
claim_key-SpentBy now (j ∷ ks) d =
    if_cases {A = Option OneTimePreKey × List OneTimePreKey} SpentBy (not (is_set j.claimed_at)) _ _
      (λ e k q.
        spent_head (record j { claimed_at = some now }) k ks (cc q) (absent j.key_id ks d.0) refl)
      (λ e. spent_cons j (claim_key now ks) e (claim_key-SpentBy now ks d.1))

-- A one-time key is handed out once: after a claim returned a key, no unclaimed key with its id is
-- left, and the key ids are still distinct, provided they were.
pub claim_key_once :
    (now : Time) (ks ks' : List OneTimePreKey) (k : OneTimePreKey)
    → DistinctKeys ks
    → claim_key now ks ≡ (some k, ks')
    → (unclaimed k.key_id ks' ≡ false) × DistinctKeys ks'
claim_key_once now ks ks' k d h = (
  subst (λ (r : Option OneTimePreKey × List OneTimePreKey). unclaimed k.key_id r.1 ≡ false) h
      (claim_key-SpentBy now ks d k
        (ap (λ (r : Option OneTimePreKey × List OneTimePreKey). r.0) h)),
  subst (λ (r : Option OneTimePreKey × List OneTimePreKey). DistinctKeys r.1) h
      (claim-DistinctKeys now ks d),
)
