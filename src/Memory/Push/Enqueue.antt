-- ===== src/Memory/Push/Enqueue.antt =====
-- EnqueuePushDeliveries: one row for each event and device, however often it is called.
use clixor_backend.Prelude.{
  ℕ, ◌+◌, ◌≡◌, refl, Option, some, List, [], ◌∷◌, Bool, true, false, arith, All, nat_eq, pair_eq,
  if_both, if_cases, if◌then◌else◌, ap, subst, sym,
}
use clixor_backend.Map.Laws.{get-put, beq_refl}
use clixor_backend.Domain.{Uuid, Time, Device, Result, ok}
use clixor_backend.Domain.Delivery.{PushDelivery}
use clixor_backend.Memory.{Store}
use clixor_backend.Memory.Outbox.{is_set}
use clixor_backend.Memory.Push.{
  enqueue_invalid, eligible, enqueue_one, enqueue_each, enqueue_push_deliveries,
}

module _ (d : PushDelivery) (recipients : List Uuid) where
  -- The loop has nothing to do for this device.
  abbrev Covered : Store → Uuid × Device → Type 0
  Covered s p = eligible d recipients s p.0 p.1 ≡ false

  set_put :
      (o : Bool) (a b : ℕ) (old : Option ℕ)
      → is_set old ≡ true
      → is_set (if o then some a else old) ≡ true
  set_put true a b old h = refl
  set_put false a b old h = h

  -- A row for another device leaves a covered device covered.
  enqueue_one-Covered :
      (device_id : Uuid) (now : Time) (s : Store) (p : Uuid × Device)
      → Covered s p
      → Covered (enqueue_one d device_id now s) p
  unfolding eligible enqueue_one
  enqueue_one-Covered device_id now s p h =
      rw
        (get-put s.push_delivery_by_event_device (d.outbox_event_id, device_id)
          (d.outbox_event_id, p.0) s.next_push_delivery_id)
        (ground arith)

  -- A row for the device itself covers it.
  enqueue_one_covers :
      (device_id : Uuid) (device : Device) (now : Time) (s : Store)
      → Covered (enqueue_one d device_id now s) (device_id, device)
  unfolding eligible enqueue_one
  enqueue_one_covers device_id device now s =
      rw
        (
          get-put s.push_delivery_by_event_device (d.outbox_event_id, device_id)
              (d.outbox_event_id, device_id) s.next_push_delivery_id,
          beq_refl {K = ℕ × ℕ} (d.outbox_event_id, device_id),
        )
        (ground arith)

  -- The loop keeps what is covered.
  each-Covered :
      (now : Time) (es : List (Uuid × Device)) (n : ℕ) (s : Store) (p : Uuid × Device)
      → Covered s p
      → Covered (enqueue_each d recipients now es (n, s)).1 p
  unfolding enqueue_each
  each-Covered now [] n s p h = h
  each-Covered now ((i, device) ∷ es) n s p h =
      if_both {A = ℕ × Store} (λ q. Covered (enqueue_each d recipients now es q).1 p)
        (eligible d recipients s i device) (n + 1, enqueue_one d i now s) (n, s)
        (each-Covered now es (n + 1) (enqueue_one d i now s) p (enqueue_one-Covered i now s p h))
        (each-Covered now es n s p h)

  -- After the loop every device is covered.
  each_covers :
      (now : Time) (es : List (Uuid × Device)) (n : ℕ) (s : Store)
      → All (Covered (enqueue_each d recipients now es (n, s)).1) es
  unfolding enqueue_each
  each_covers now [] n s = tt
  each_covers now ((i, device) ∷ es) n s =
      if_cases {A = ℕ × Store}
        (λ q. All (Covered (enqueue_each d recipients now es q).1) ((i, device) ∷ es))
        (eligible d recipients s i device) (n + 1, enqueue_one d i now s) (n, s)
        (λ _. (
          each-Covered now es (n + 1) (enqueue_one d i now s) (i, device)
              (enqueue_one_covers i device now s),
          each_covers now es (n + 1) (enqueue_one d i now s),
        ))
        (λ e. (each-Covered now es n s (i, device) e, each_covers now es n s))

  -- Where every device is covered the loop does nothing.
  each_idle :
      (now : Time) (es : List (Uuid × Device)) (n : ℕ) (s : Store)
      → All (Covered s) es
      → enqueue_each d recipients now es (n, s) ≡ (n, s)
  unfolding enqueue_each
  each_idle now [] n s h = refl
  each_idle now ((i, device) ∷ es) n s h = rw h.0 (each_idle now es n s h.1)

  -- The loop writes no device.
  each-devices :
      (now : Time) (es : List (Uuid × Device)) (n : ℕ) (s : Store)
      → (enqueue_each d recipients now es (n, s)).1.devices ≡ s.devices
  unfolding enqueue_each enqueue_one
  each-devices now [] n s = refl
  each-devices now ((i, device) ∷ es) n s =
      if_both {A = ℕ × Store} (λ q. (enqueue_each d recipients now es q).1.devices ≡ s.devices)
        (eligible d recipients s i device) (n + 1, enqueue_one d i now s) (n, s)
        (each-devices now es (n + 1) (enqueue_one d i now s)) (each-devices now es n s)

  -- What an accepted call is.
  accepted :
      (now : Time) (s t : Store) (n : ℕ)
      → enqueue_push_deliveries d recipients now s ≡ (ok n, t)
      → (enqueue_invalid d ≡ false)
        × (t ≡ (enqueue_each d recipients now s.devices.entries (0, s)).1)
  unfolding enqueue_push_deliveries
  accepted now s t n =
      if_cases {A = Result ℕ × Store}
        (λ q.
          q ≡ (ok n, t)
          → (enqueue_invalid d ≡ false)
            × (t ≡ (enqueue_each d recipients now s.devices.entries (0, s)).1))
        (enqueue_invalid d) _ _ (λ _ h. cc) (λ e h. (e, sym (ap (λ (q : Result ℕ × Store). q.1) h)))

  -- Enqueueing is idempotent: repeating an accepted call for one event and the same recipients,
  -- at any time, inserts nothing and changes nothing, so a relay that retries an event cannot
  -- queue a second notification for a device.
  pub enqueue_idempotent :
      (now later : Time) (s t : Store) (n : ℕ)
      → enqueue_push_deliveries d recipients now s ≡ (ok n, t)
      → enqueue_push_deliveries d recipients later t ≡ (ok 0, t)
  unfolding enqueue_push_deliveries
  enqueue_idempotent now later s t n h =
      rw (p.0, each_idle later t.devices.entries 0 t covered) refl
    where
      p :
          (enqueue_invalid d ≡ false)
          × (t ≡ (enqueue_each d recipients now s.devices.entries (0, s)).1)
      p = accepted now s t n h

      covered : All (Covered t) t.devices.entries
      covered =
          subst (λ (u : Store). All (Covered u) u.devices.entries) (sym p.1)
            (rw (each-devices now s.devices.entries 0 s) (each_covers now s.devices.entries 0 s))
