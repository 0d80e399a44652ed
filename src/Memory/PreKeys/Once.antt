-- ===== src/Memory/PreKeys/Once.antt =====
-- ClaimPreKeys hands a key out once.
use clixor_backend.Prelude.{
  ℕ, Option, none, some, List, [], ◌∷◌, true, false, not, ◌≡◌, arith, ◌==◌, nat_eq, All, if_both,
  Option-cases, refl, sym, Bool, ◌&&◌, subst, ap, if◌then◌else◌, Bool-cases, inl, inr, nat_beq_iff,
  ◌∙◌, All-map,
}
use clixor_backend.Map.{Map, get, put, values}
use clixor_backend.Map.Laws.{get-put, beq_refl}
use clixor_backend.Domain.{Uuid, Time, Device, OneTimePreKey, PreKeyBundle, ok, live}
use clixor_backend.Memory.{Store}
use clixor_backend.Memory.Outbox.{is_set}
use clixor_backend.Memory.PreKeys.{
  keys_of, claim_key, claim_bundles, bundled, reply_bundles, claim_pre_keys,
}
use clixor_backend.Memory.PreKeys.Spent.{
  DistinctKeys, unclaimed, claim_key_once, claim-DistinctKeys,
}

-- The key ids of every device are distinct.
abbrev pub AllDistinct : Map Uuid (List OneTimePreKey) → Type 0
AllDistinct keys = (id : Uuid) → DistinctKeys (keys_of (get keys id))

-- Two bundles of one device with the same one-time key.
abbrev same_id : Option OneTimePreKey → Option OneTimePreKey → Bool
same_id (some k) (some j) = k.key_id == j.key_id
same_id _ _ = false

abbrev pub same_key : PreKeyBundle → PreKeyBundle → Bool
same_key b c = b.device_id == c.device_id && same_id b.one_time_pre_key c.one_time_pre_key

-- What a claim returned was unclaimed before it.
claim_key-unclaimed :
    (now : Time) (ks : List OneTimePreKey) (k : OneTimePreKey)
    → (claim_key now ks).0 ≡ some k
    → unclaimed k.key_id ks ≡ true
unfolding claim_key
claim_key-unclaimed now [] k h = cc
claim_key-unclaimed now (j ∷ ks) k h = elim (Bool-cases (not (is_set j.claimed_at))) [
  | inl e ↦
      let first : some (record j { claimed_at = some now }) ≡ some k = rw e at h in
      let same : record j { claimed_at = some now } ≡ k = cc in
      let id : j.key_id ≡ k.key_id = ap (λ (x : OneTimePreKey). x.key_id) same in
      ground (arith, e, id)
  | inr e ↦ ground (arith, claim_key-unclaimed now ks k (rw e at h))
]

-- A claim makes no key unclaimed.
claim_key-spent :
    (now : Time) (key_id : ℕ) (ks : List OneTimePreKey)
    → unclaimed key_id ks ≡ false
    → unclaimed key_id (claim_key now ks).1 ≡ false
unfolding claim_key
claim_key-spent now key_id [] h = refl
claim_key-spent now key_id (j ∷ ks) h =
    if_both {A = Option OneTimePreKey × List OneTimePreKey} (λ r. unclaimed key_id r.1 ≡ false)
      (not (is_set j.claimed_at)) _ _ (ground (arith, h))
      (ground (arith, h, claim_key-spent now key_id ks))

-- What a returned key leaves, and what it was, in a device's keys.
abbrev SpentIn : Option OneTimePreKey → List OneTimePreKey → Type 0
SpentIn none ks = Unit {0}
SpentIn (some k) ks = unclaimed k.key_id ks ≡ false

abbrev FreshIn : Option OneTimePreKey → List OneTimePreKey → Type 0
FreshIn none ks = Unit {0}
FreshIn (some k) ks = unclaimed k.key_id ks ≡ true

apart_ids :
    (o p : Option OneTimePreKey) (ks : List OneTimePreKey)
    → SpentIn o ks
    → FreshIn p ks
    → same_id o p ≡ false
apart_ids none none ks spent fresh = refl
apart_ids none (some j) ks spent fresh = refl
apart_ids (some k) none ks spent fresh = refl
apart_ids (some k) (some j) ks spent fresh = elim (Bool-cases (k.key_id == j.key_id)) [
  | inr e ↦ e
  | inl e ↦
      let same : unclaimed k.key_id ks ≡ true = rw ((nat_beq_iff k.key_id j.key_id).0 e) fresh in
      let clash : true ≡ false = sym same ∙ spent in cc
]

module _ (now : Time) where
  -- The map after one device's claim.
  after_claim : Device → Map Uuid (List OneTimePreKey) → Map Uuid (List OneTimePreKey)
  after_claim d keys =
      let claim = claim_key now (keys_of (get keys d.id)) in
      if is_set claim.0 then put keys d.id claim.1 else keys

  spent_on :
      (o : Option OneTimePreKey) (ks : List OneTimePreKey)
      → SpentIn o ks
      → SpentIn o (claim_key now ks).1
  spent_on none ks h = tt
  spent_on (some k) ks h = claim_key-spent now k.key_id ks h

  module _ (Q : List OneTimePreKey → Type 0)
      (kept : (ks : List OneTimePreKey) → Q ks → Q (claim_key now ks).1) (id : Uuid) where
    after_claim_keeps :
        (d : Device) (keys : Map Uuid (List OneTimePreKey))
        → Q (keys_of (get keys id))
        → Q (keys_of (get (after_claim d keys) id))
    unfolding after_claim
    after_claim_keeps d keys h =
        let claim = claim_key now (keys_of (get keys d.id)) in
        if_both (λ m. Q (keys_of (get m id))) (is_set claim.0) (put keys d.id claim.1) keys
          (elim (Bool-cases (d.id == id)) [
            | inl e ↦
                rw (get-put keys d.id id claim.1, e)
                  (subst (λ k. Q (claim_key now (keys_of (get keys k))).1)
                    (sym ((nat_beq_iff d.id id).0 e)) (kept (keys_of (get keys id)) h))
            | inr e ↦ rw (get-put keys d.id id claim.1, e) h
          ])
          h

    bundles_keep :
        (user_id : Uuid) (ds : List Device) (keys : Map Uuid (List OneTimePreKey))
        → Q (keys_of (get keys id))
        → Q (keys_of (get (claim_bundles user_id now ds keys).1 id))
    unfolding claim_bundles after_claim
    bundles_keep user_id [] keys h = h
    bundles_keep user_id (d ∷ ds) keys h =
        if_both {A = List PreKeyBundle × Map Uuid (List OneTimePreKey)}
          (λ r. Q (keys_of (get r.1 id))) (bundled user_id d) _ _
          (bundles_keep user_id ds (after_claim d keys) (after_claim_keeps d keys h))
          (bundles_keep user_id ds keys h)

  claimed_spent :
      (d : Device) (keys : Map Uuid (List OneTimePreKey)) (o : Option OneTimePreKey)
      (ks : List OneTimePreKey)
      → claim_key now (keys_of (get keys d.id)) ≡ (o, ks)
      → AllDistinct keys
      → SpentIn o (keys_of (get (after_claim d keys) d.id))
  unfolding after_claim
  claimed_spent d keys none ks h distinct = tt
  claimed_spent d keys (some k) ks h distinct =
      rw (h, get-put keys d.id d.id ks, beq_refl d.id)
        (claim_key_once now (keys_of (get keys d.id)) ks k (distinct d.id) h).0

  fresh_before :
      (o : Option OneTimePreKey) (id : Uuid) (d : Device) (keys : Map Uuid (List OneTimePreKey))
      → FreshIn o (keys_of (get (after_claim d keys) id))
      → FreshIn o (keys_of (get keys id))
  fresh_before none id d keys h = tt
  fresh_before (some k) id d keys h =
      elim (Bool-cases (unclaimed k.key_id (keys_of (get keys id)))) [
        | inl e ↦ e
        | inr e ↦
            let spent =
              after_claim_keeps (λ ks. unclaimed k.key_id ks ≡ false) (claim_key-spent now k.key_id)
                id d keys e in
            let clash : true ≡ false = sym h ∙ spent in cc
      ]

  claimed_fresh :
      (ks : List OneTimePreKey) (o : Option OneTimePreKey) → (claim_key now ks).0 ≡ o → FreshIn o ks
  claimed_fresh ks none h = tt
  claimed_fresh ks (some k) h = claim_key-unclaimed now ks k h

  module _ (user_id : Uuid) where
    bundles_spent :
        (ds : List Device) (keys : Map Uuid (List OneTimePreKey))
        → AllDistinct keys
        → All
            (λ b.
              SpentIn b.one_time_pre_key
                (keys_of (get (claim_bundles user_id now ds keys).1 b.device_id)))
            (claim_bundles user_id now ds keys).0
    unfolding claim_bundles after_claim
    bundles_spent [] keys distinct = tt
    bundles_spent (d ∷ ds) keys distinct =
        let claim = claim_key now (keys_of (get keys d.id)) in
        if_both {A = List PreKeyBundle × Map Uuid (List OneTimePreKey)}
          (λ r. All (λ b. SpentIn b.one_time_pre_key (keys_of (get r.1 b.device_id))) r.0)
          (bundled user_id d) _ _
          (
            bundles_keep (SpentIn claim.0) (spent_on claim.0) d.id user_id ds (after_claim d keys)
                (claimed_spent d keys claim.0 claim.1 refl distinct),
            bundles_spent ds (after_claim d keys) (λ id.
                after_claim_keeps DistinctKeys (claim-DistinctKeys now) id d keys (distinct id)),
          )
          (bundles_spent ds keys distinct)

    bundles_fresh :
        (ds : List Device) (keys : Map Uuid (List OneTimePreKey))
        → All
            (λ b. FreshIn b.one_time_pre_key (keys_of (get keys b.device_id)))
            (claim_bundles user_id now ds keys).0
    unfolding claim_bundles after_claim
    bundles_fresh [] keys = tt
    bundles_fresh (d ∷ ds) keys =
        if_both {A = List PreKeyBundle × Map Uuid (List OneTimePreKey)}
          (λ r. All (λ b. FreshIn b.one_time_pre_key (keys_of (get keys b.device_id))) r.0)
          (bundled user_id d) _ _
          (
            claimed_fresh (keys_of (get keys d.id)) _ refl,
            All-map _ _ _ (λ b. fresh_before b.one_time_pre_key b.device_id d keys)
                (bundles_fresh ds (after_claim d keys)),
          )
          (bundles_fresh ds keys)

replied :
    (r : List PreKeyBundle × Map Uuid (List OneTimePreKey)) (s t : Store) (bs : List PreKeyBundle)
    → reply_bundles r s ≡ (ok bs, t)
    → (r.0 ≡ bs) × (r.1 ≡ t.pre_keys)
replied ([], keys) s t bs h = cc
replied (b ∷ rest, keys) s t bs h = (cc, cc)

claimed_bundles :
    (user_id : Uuid) (now : Time) (s t : Store) (bs : List PreKeyBundle)
    → claim_pre_keys user_id now s ≡ (ok bs, t)
    → ((claim_bundles user_id now (values s.devices) s.pre_keys).0 ≡ bs)
      × ((claim_bundles user_id now (values s.devices) s.pre_keys).1 ≡ t.pre_keys)
unfolding claim_pre_keys
claimed_bundles user_id now s t bs h = elim (Option-cases (live (get s.users user_id))) [
  | inl e ↦ cc (rw (claim_pre_keys, e) at h)
  | inr (user, e) ↦
      replied (claim_bundles user_id now (values s.devices) s.pre_keys) s t bs
        (rw (claim_pre_keys, e) at h)
]

apart_bundles :
    (m : Map Uuid (List OneTimePreKey)) (b c : PreKeyBundle)
    → SpentIn b.one_time_pre_key (keys_of (get m b.device_id))
    → FreshIn c.one_time_pre_key (keys_of (get m c.device_id))
    → same_key b c ≡ false
apart_bundles m b c spent fresh = elim (Bool-cases (b.device_id == c.device_id)) [
  | inr e ↦ rw e refl
  | inl e ↦ rw e (
      apart_ids b.one_time_pre_key c.one_time_pre_key (keys_of (get m b.device_id)) spent (
        subst (λ k. FreshIn c.one_time_pre_key (keys_of (get m k)))
          (sym ((nat_beq_iff b.device_id c.device_id).0 e)) fresh))
]

-- A one-time pre-key is handed out once: two successful ClaimPreKeys calls, for any users and at
-- any times, the second on the pre-keys that the first left, never return the same key of one
-- device, provided the key ids of each device are distinct.
pub claim_pre_keys_once :
    (user_id user_id' : Uuid) (now later : Time) (s t u v : Store) (bs cs : List PreKeyBundle)
    → AllDistinct s.pre_keys
    → claim_pre_keys user_id now s ≡ (ok bs, t)
    → u.pre_keys ≡ t.pre_keys
    → claim_pre_keys user_id' later u ≡ (ok cs, v)
    → All (λ b. All (λ c. same_key b c ≡ false) cs) bs
claim_pre_keys_once user_id user_id' now later s t u v bs cs distinct first same second =
    let f = claimed_bundles user_id now s t bs first in
    let g = claimed_bundles user_id' later u v cs second in
    let fresh =
      subst (λ m. All (λ c. FreshIn c.one_time_pre_key (keys_of (get m c.device_id))) cs) same
        (subst (All (λ c. FreshIn c.one_time_pre_key (keys_of (get u.pre_keys c.device_id)))) g.0
          (bundles_fresh later user_id' (values u.devices) u.pre_keys)) in
    let spent =
      subst (λ m. All (λ b. SpentIn b.one_time_pre_key (keys_of (get m b.device_id))) bs) f.1
        (subst
          (All (λ b. SpentIn b.one_time_pre_key (
            keys_of (get (claim_bundles user_id now (values s.devices) s.pre_keys).1 b.device_id))))
          f.0 (bundles_spent now user_id (values s.devices) s.pre_keys distinct)) in
    All-map _ _ bs
      (λ b gone. All-map _ _ cs (λ c there. apart_bundles t.pre_keys b c gone there) fresh) spent
