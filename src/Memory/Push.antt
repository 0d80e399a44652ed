-- ===== src/Memory/Push.antt =====
-- internal/store/memory/memory.go: the queue of push deliveries. `limit` and `id` are the source's
-- int and int64 arguments, a value below 1 being 0.
pub mod Settle
pub mod Enqueue
pub mod Claims
pub mod Deliver
pub mod Blocked
use clixor_backend.Prelude.{
  ℕ, ◌+◌, String, Option, none, some, List, [], ◌∷◌, Bool, true, false, not, ◌&&◌, ◌||◌,
  if◌then◌else◌, ◌==◌, nat_eq, string_eq, bytes_eq, pair_eq, ltb, length, inc64, map, exists,
}
use clixor_backend.Text.{trim_space}
use clixor_backend.Leases.{lease_each, batch_of}
use clixor_backend.Map.{Map, get, put, delete}
use clixor_backend.Domain.{
  Uuid, Time, Bytes, Device, Error, Result, ok, err, invalid, not_found, conflict, after, before,
  mobile_platform,
}
use clixor_backend.Domain.Delivery.{
  PushDelivery, PushStatus, pending, delivered, invalid_token, dead_letter, canceled, unknown,
  is_pending, OutboxEvent,
}
use clixor_backend.Memory.{Store}
use clixor_backend.Memory.Outbox.{is_set, get_or_zero}
use clixor_backend.Memory.Devices.{clear_token}

-- The checks of EnqueuePushDeliveries.
unfoldable pub enqueue_invalid : PushDelivery → Bool
enqueue_invalid d =
    d.outbox_event_id == 0
    || d.conversation_id == 0
    || d.entity_id == 0
    || trim_space d.notification_id == []

-- The negated `continue` guards of its loop over the devices.
unfoldable pub eligible : PushDelivery → List Uuid → Store → Uuid → Device → Bool
eligible d recipients s device_id device =
    exists (λ r. not (r == 0) && r == device.user_id) recipients
    && mobile_platform device.platform
    && not (device.push_token == [])
    && not (is_set (get s.push_delivery_by_event_device (d.outbox_event_id, device_id)))

unfoldable pub queued : PushDelivery → Uuid → ℕ → Time → PushDelivery
queued d device_id id now = record d {
  device_id = device_id;
  id = id;
  status = PushStatus.pending;
  attempts = 0;
  next_attempt_at = now;
  created_at = now;
  lease_token = 0;
  locked_until = 0;
}

unfoldable pub enqueue_one : PushDelivery → Uuid → Time → Store → Store
enqueue_one d device_id now s = record s {
  push_deliveries =
      put s.push_deliveries s.next_push_delivery_id
        (queued d device_id s.next_push_delivery_id now);
  push_delivery_by_event_device =
      put s.push_delivery_by_event_device (d.outbox_event_id, device_id) s.next_push_delivery_id;
  next_push_delivery_id = inc64 s.next_push_delivery_id;
}

-- The loop: the number of rows inserted, and the store.
unfoldable pub enqueue_each :
    PushDelivery → List Uuid → Time → List (Uuid × Device) → ℕ × Store → ℕ × Store
enqueue_each d recipients now [] (n, s) = (n, s)
enqueue_each d recipients now ((device_id, device) ∷ rest) (n, s) =
    enqueue_each d recipients now rest (
      if eligible d recipients s device_id device
      then (n + 1, enqueue_one d device_id now s)
      else (n, s))

unfoldable pub enqueue_push_deliveries : PushDelivery → List Uuid → Time → Store → Result ℕ × Store
enqueue_push_deliveries d recipients now s =
    let r = enqueue_each d recipients now s.devices.entries (0, s) in
    if enqueue_invalid d then (err invalid, s) else (ok r.0, r.1)

-- s.devices[id].Platform == platform; the platform of a missing device is "".
unfoldable pub on_platform : Option Device → String → Bool
on_platform none platform = "" == platform
on_platform (some device) platform = device.platform == platform

abbrev pub is_empty : List String → Bool
is_empty [] = true
is_empty _ = false

-- The negated `continue` guards of LockPushDeliveryBatch.
unfoldable pub push_claimable : List String → Time → Store → PushDelivery → Bool
push_claimable platforms now s d =
    (is_empty platforms || exists (on_platform (get s.devices d.device_id)) platforms)
    && is_pending d.status
    && not (after d.next_attempt_at now)
    && (d.locked_until == 0 || not (after d.locked_until now))
    && not (is_set (get s.active_push_deliveries d.id))

abbrev pub push_order : PushDelivery → PushDelivery → Bool
push_order a b =
    if a.next_attempt_at == b.next_attempt_at
    then ltb a.id b.id
    else before a.next_attempt_at b.next_attempt_at

-- The device's owner, token and platform, resolved when the row is claimed.
unfoldable pub resolve_target : Option Device → PushDelivery → PushDelivery
resolve_target none d = d
resolve_target (some device) d = record d {
  user_id = device.user_id;
  push_token = device.push_token;
  platform = device.platform;
}

-- `fresh` gives the value of uuid.New() that the row with the given id draws.
unfoldable pub lease_push : (ℕ → Uuid) → Time → Store → PushDelivery → PushDelivery
lease_push fresh now s d = resolve_target (get s.devices d.device_id) (record d {
  attempts = inc64 d.attempts;
  lease_token = fresh d.id;
  locked_until = now + 120_000_000_000;
})

unfoldable pub push_batch : ℕ → List String → Time → Store → List PushDelivery
push_batch limit platforms now s =
    batch_of push_order (push_claimable platforms now s) limit s.push_deliveries

unfoldable pub lock_push_delivery_batch :
    ℕ → List String → (ℕ → Uuid) → Time → Store → Result (List PushDelivery) × Store
lock_push_delivery_batch limit platforms fresh now s =
    let batch = push_batch limit platforms now s in
    if limit == 0 then (err invalid, s) else (
      ok (map (lease_push fresh now s) batch),
      record s {
        push_deliveries = lease_each (λ d. d.id) (lease_push fresh now s) batch s.push_deliveries;
      },
    )

abbrev pub holds_lease : Uuid → PushDelivery → Bool
holds_lease token d = is_pending d.status && d.lease_token == token

-- FinishPushDelivery's switch; `none` is its default case.
unfoldable pub push_outcome : PushStatus → Time → Time → PushDelivery → Option PushDelivery
push_outcome pending next now d =
    some (record d { next_attempt_at = if next == 0 then now else next })
push_outcome dead_letter next now d =
    some (record d { status = PushStatus.dead_letter; dead_lettered_at = some now })
push_outcome unknown next now d = none
push_outcome result next now d = some (record d { status = result; delivered_at = some now })

unfoldable pub drop_lease : List ℕ → PushDelivery → PushDelivery
drop_lease class d = record d { last_error_class = class; lease_token = 0; locked_until = 0 }

unfoldable pub store_outcome : ℕ → List ℕ → Option PushDelivery → Store → Result (Unit {0}) × Store
store_outcome id class none s = (err invalid, s)
store_outcome id class (some d) s =
    (ok tt, record s { push_deliveries = put s.push_deliveries id (drop_lease class d) })

unfoldable pub finish_push :
    ℕ
    → Uuid
    → PushStatus
    → Time
    → List ℕ
    → Time
    → Option PushDelivery
    → Store
    → Result (Unit {0}) × Store
finish_push id token result next class now none s = (err not_found, s)
finish_push id token result next class now (some d) s =
    if not (holds_lease token d)
    then (err conflict, s)
    else store_outcome id class (push_outcome result next now d) s

unfoldable pub finish_push_delivery :
    ℕ → Uuid → PushStatus → Time → List ℕ → Time → Store → Result (Unit {0}) × Store
unfolding finish_push store_outcome
finish_push_delivery id token result next class now s =
    finish_push id token result next class now (get s.push_deliveries id) s
