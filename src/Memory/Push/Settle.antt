-- ===== src/Memory/Push/Settle.antt =====
-- internal/store/memory/memory.go: InvalidatePushDelivery and PrunePushDeliveries.
use clixor_backend.Prelude.{
  ℕ, Option, none, some, List, [], ◌∷◌, Bool, false, not, ◌&&◌, ◌||◌, if◌then◌else◌, ◌==◌, nat_eq,
  bytes_eq, pair_eq, string_eq, ltb, length, exists, select, sort_by, take,
}
use clixor_backend.Map.{Map, get, put, delete, values}
use clixor_backend.Domain.{
  Uuid, Time, Bytes, Device, Result, ok, err, invalid, not_found, conflict, before,
}
use clixor_backend.Domain.Delivery.{
  PushDelivery, PushStatus, pending, dead_letter, unknown, OutboxEvent,
}
use clixor_backend.Memory.{Store}
use clixor_backend.Memory.Outbox.{is_set}
use clixor_backend.Memory.Outbox.Prune.{max_retention_prune_batch_size}
use clixor_backend.Memory.Devices.{clear_token}
use clixor_backend.Memory.Push.{holds_lease, drop_lease}

-- "invalid_token", as bytes.
abbrev pub invalid_token_class : List ℕ
invalid_token_class =
    b'i' ∷ b'n' ∷ b'v' ∷ b'a' ∷ b'l' ∷ b'i' ∷ b'd' ∷ b'_' ∷ b't' ∷ b'o' ∷ b'k' ∷ b'e' ∷ b'n' ∷ []

-- The provider rejected `push_token`: it is cleared only where the device still has it.
unfoldable pub clear_rejected : Uuid → Bytes → Device → Map Uuid Device → Map Uuid Device
clear_rejected device_id push_token device devices =
    if device.push_token == push_token then put devices device_id (clear_token device) else devices

unfoldable pub invalidate_on :
    ℕ
    → Uuid
    → Uuid
    → Bytes
    → Time
    → PushDelivery
    → Option Device
    → Store
    → Result (Unit {0}) × Store
invalidate_on id user_id device_id push_token now d none s = (err not_found, s)
invalidate_on id user_id device_id push_token now d (some device) s =
    if not (device.user_id == user_id) then (err not_found, s) else (
      ok tt,
      record s {
        devices = clear_rejected device_id push_token device s.devices;
        push_deliveries = put s.push_deliveries id (
            drop_lease invalid_token_class
              (record d { status = PushStatus.invalid_token; delivered_at = some now }));
      },
    )

unfoldable pub invalidate_row :
    ℕ → Uuid → Uuid → Uuid → Bytes → Time → Option PushDelivery → Store → Result (Unit {0}) × Store
unfolding invalidate_on
invalidate_row id token user_id device_id push_token now none s = (err not_found, s)
invalidate_row id token user_id device_id push_token now (some d) s =
    if not (holds_lease token d) || not (d.device_id == device_id)
    then (err conflict, s)
    else invalidate_on id user_id device_id push_token now d (get s.devices device_id) s

unfoldable pub invalidate_push_delivery :
    ℕ → Uuid → Uuid → Uuid → Bytes → Time → Store → Result (Unit {0}) × Store
unfolding invalidate_row
invalidate_push_delivery id token user_id device_id push_token now s =
    invalidate_row id token user_id device_id push_token now (get s.push_deliveries id) s

-- t != nil && t.Before(cutoff)
abbrev pub set_before : Option Time → Time → Bool
set_before none cutoff = false
set_before (some t) cutoff = before t cutoff

unfoldable pub expired_row : Time → Time → PushStatus → PushDelivery → Bool
expired_row delivered_before dead_letter_before dead_letter d =
    set_before d.dead_lettered_at dead_letter_before
expired_row delivered_before dead_letter_before pending d = false
expired_row delivered_before dead_letter_before unknown d = false
expired_row delivered_before dead_letter_before _ d = set_before d.delivered_at delivered_before

-- An unpublished outbox event is the row's source.
unfoldable pub source_pending : List OutboxEvent → PushDelivery → Bool
source_pending outbox d =
    exists (λ e. not (is_set e.published_at) && e.id == d.outbox_event_id) outbox

unfoldable pub row_prunable : Time → Time → Store → PushDelivery → Bool
row_prunable delivered_before dead_letter_before s d =
    not (source_pending s.outbox d) && expired_row delivered_before dead_letter_before d.status d

abbrev pub or_time : Option Time → Time → Time
or_time none t = t
or_time (some u) t = u

-- terminalPushTime
unfoldable pub terminal_push_time : PushDelivery → Time
terminal_push_time d = or_time d.dead_lettered_at (or_time d.delivered_at 0)

abbrev pub terminal_order : PushDelivery → PushDelivery → Bool
terminal_order a b =
    if terminal_push_time a == terminal_push_time b
    then ltb a.id b.id
    else before (terminal_push_time a) (terminal_push_time b)

unfoldable pub drop_row : PushDelivery → Store → Store
drop_row d s = record s {
  push_deliveries = delete s.push_deliveries d.id;
  push_delivery_by_event_device =
      delete s.push_delivery_by_event_device (d.outbox_event_id, d.device_id);
}

unfoldable pub drop_rows : List PushDelivery → Store → Store
unfolding drop_row
drop_rows [] s = s
drop_rows (d ∷ ds) s = drop_rows ds (drop_row d s)

unfoldable pub rows_to_prune : Time → Time → ℕ → Store → List PushDelivery
rows_to_prune delivered_before dead_letter_before limit s = take limit (
    sort_by terminal_order
      (select (row_prunable delivered_before dead_letter_before s) (values s.push_deliveries)))

unfoldable pub prune_push_deliveries : Time → Time → ℕ → Store → Result ℕ × Store
unfolding drop_rows
prune_push_deliveries delivered_before dead_letter_before limit s =
    let candidates = rows_to_prune delivered_before dead_letter_before limit s in
    if limit == 0 || ltb max_retention_prune_batch_size limit
    then (err invalid, s)
    else (ok (length candidates), drop_rows candidates s)
