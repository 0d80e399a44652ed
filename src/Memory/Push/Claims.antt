-- ===== src/Memory/Push/Claims.antt =====
-- LockPushDeliveryBatch: a push delivery is leased to one worker at a time.
use clixor_backend.Prelude.{
  ℕ, ◌+◌, ◌<◌, ◌≡◌, ◌≢◌, refl, String, Option, none, some, List, [], Bool, true, false, not, ◌&&◌,
  arith, All, All-map, All-mapped, nat_eq, ◌==◌, if_both, subst, sym, ◌∙◌,
}
use clixor_backend.Map.{Map, get}
use clixor_backend.Leases.{lease_each, batch_of}
use clixor_backend.Leases.Laws.{
  IsTable, batch_of_sound, lease_each-IsTable, Held, leased-Held, Held-not_in,
}
use clixor_backend.Domain.{Uuid, Time, Device, Result, ok, err, after}
use clixor_backend.Domain.Delivery.{PushDelivery}
use clixor_backend.Memory.{Store}
use clixor_backend.Memory.Push.{
  push_claimable, push_order, lease_push, push_batch, resolve_target, lock_push_delivery_batch,
}

abbrev push_id : PushDelivery → ℕ
push_id d = d.id

-- Each push delivery is stored under its own id, once.
abbrev pub PushTable : Map ℕ PushDelivery → Type 0
PushTable = IsTable push_id

blocked : Time → PushDelivery → Bool
blocked now d = not (d.locked_until == 0) && after d.locked_until now

blocked-claimable :
    (platforms : List String) (now : Time) (s : Store) (d : PushDelivery)
    → blocked now d ≡ true
    → push_claimable platforms now s d ≡ false
unfolding blocked push_claimable
blocked-claimable platforms now s d h = ground arith

module _ (fresh : ℕ → Uuid) (now : Time) (s : Store) where
  resolve_kept :
      (o : Option Device) (d : PushDelivery)
      → ((resolve_target o d).id ≡ d.id) × ((resolve_target o d).locked_until ≡ d.locked_until)
  unfolding resolve_target
  resolve_kept none d = (refl, refl)
  resolve_kept (some device) d = (refl, refl)

  lease_push_id : (d : PushDelivery) → (lease_push fresh now s d).id ≡ d.id
  unfolding lease_push
  lease_push_id d = (resolve_kept (get s.devices d.device_id) _).0

  lease_push_locked :
      (d : PushDelivery) → (lease_push fresh now s d).locked_until ≡ now + 120_000_000_000
  unfolding lease_push
  lease_push_locked d = (resolve_kept (get s.devices d.device_id) _).1

  lease-blocked :
      (later : Time) (d : PushDelivery)
      → later < now + 120_000_000_000
      → blocked later (lease_push fresh now s d) ≡ true
  unfolding blocked
  lease-blocked later d h = ground (arith, lease_push_locked d)

  -- The claim keeps the table.
  pub lock_push-PushTable :
      (limit : ℕ) (platforms : List String)
      → PushTable s.push_deliveries
      → PushTable (lock_push_delivery_batch limit platforms fresh now s).1.push_deliveries
  unfolding lock_push_delivery_batch
  lock_push-PushTable limit platforms t =
      if_both {A = Result (List PushDelivery) × Store} (λ q. PushTable q.1.push_deliveries)
        (limit == 0) _ _ t
        (lease_each-IsTable push_id (lease_push fresh now s) lease_push_id
          (push_batch limit platforms now s) s.push_deliveries t)

-- The deliveries of a reply, none on an error.
abbrev pub pushes : Result (List PushDelivery) × Store → List PushDelivery
pushes (ok ds, s) = ds
pushes (err e, s) = []

claimed-Held :
    (limit : ℕ) (platforms : List String) (fresh : ℕ → Uuid) (now later : Time) (s : Store)
    → later < now + 120_000_000_000
    → All
        (λ c.
          Held
            (blocked later)
            (lock_push_delivery_batch limit platforms fresh now s).1.push_deliveries
            c.id)
        (pushes (lock_push_delivery_batch limit platforms fresh now s))
unfolding lock_push_delivery_batch
claimed-Held limit platforms fresh now later s h =
    if_both {A = Result (List PushDelivery) × Store}
      (λ q. All (λ c. Held (blocked later) q.1.push_deliveries c.id) (pushes q)) (limit == 0) _ _ tt
      (All-mapped _ (lease_push fresh now s) (push_batch limit platforms now s) (
        All-map (λ d. Held (blocked later) leased d.id) _ (push_batch limit platforms now s)
          (λ d k. subst (Held (blocked later) leased) (sym (lease_push_id fresh now s d)) k)
          (leased-Held (blocked later) push_id (lease_push fresh now s)
            (λ d. lease-blocked fresh now s later d h) (push_batch limit platforms now s)
            s.push_deliveries)))
  where
    leased : Map ℕ PushDelivery
    leased =
        lease_each push_id (lease_push fresh now s) (push_batch limit platforms now s)
          s.push_deliveries

Held-not_claimed :
    (limit : ℕ) (platforms : List String) (fresh : ℕ → Uuid) (now : Time) (u : Store) (k : ℕ)
    → PushTable u.push_deliveries
    → Held (blocked now) u.push_deliveries k
    → All (λ d. k ≢ d.id) (pushes (lock_push_delivery_batch limit platforms fresh now u))
unfolding lock_push_delivery_batch push_batch
Held-not_claimed limit platforms fresh now u k t h =
    if_both {A = Result (List PushDelivery) × Store} (λ q. All (λ d. k ≢ d.id) (pushes q))
      (limit == 0) _ _ tt
      (All-mapped _ (lease_push fresh now u) batch (
        All-map (λ d. k ≢ d.id) _ batch (λ d n p. n (p ∙ lease_push_id fresh now u d))
          (Held-not_in (blocked now) push_id (push_claimable platforms now u) u.push_deliveries k
            batch (blocked-claimable platforms now u) h
            (batch_of_sound push_id push_order (push_claimable platforms now u) limit
              u.push_deliveries t))))
  where
    batch : List PushDelivery
    batch = batch_of push_order (push_claimable platforms now u) limit u.push_deliveries

-- A push delivery is leased to one worker at a time: a batch claimed within two minutes of an
-- earlier one shares no delivery with it, whatever became of devices, outbox and active
-- deliveries in between and for any platforms, provided the queue is a table of deliveries under
-- their own ids and is as the first claim left it.
pub lock_push_exclusive :
    (limit limit' : ℕ) (platforms platforms' : List String) (fresh fresh' : ℕ → Uuid)
    (now now' : Time) (s u : Store)
    → PushTable s.push_deliveries
    → u.push_deliveries ≡ (lock_push_delivery_batch limit platforms fresh now s).1.push_deliveries
    → now' < now + 120_000_000_000
    → All
        (λ c.
          All
            (λ d. c.id ≢ d.id)
            (pushes (lock_push_delivery_batch limit' platforms' fresh' now' u)))
        (pushes (lock_push_delivery_batch limit platforms fresh now s))
lock_push_exclusive limit limit' platforms platforms' fresh fresh' now now' s u t p h =
    All-map _ _ (pushes (lock_push_delivery_batch limit platforms fresh now s))
      (λ c q.
        Held-not_claimed limit' platforms' fresh' now' u c.id
          (subst PushTable (sym p) (lock_push-PushTable fresh now s limit platforms t))
          (subst (λ m. Held (blocked now') m c.id) (sym p) q))
      (claimed-Held limit platforms fresh now now' s h)
