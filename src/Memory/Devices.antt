-- ===== src/Memory/Devices.antt =====
-- internal/store/memory/memory.go: the devices and their push tokens (UpsertDevice, Device,
-- ListDevices, ClearDevicePushToken). `fresh` is the value of uuid.New().
pub mod Tokens
use clixor_backend.Prelude.{
  ℕ, String, Option, none, some, List, [], Bool, true, false, not, ◌&&◌, ◌||◌, if◌then◌else◌, ◌==◌,
  nat_eq, string_eq, bytes_eq, select, sort_by, ltb,
}
use clixor_backend.Map.{Map, get, put, values, update_all}
use clixor_backend.Domain.{
  Uuid, Time, Bytes, User, Device, Error, Result, ok, err, not_found, conflict, forbidden, live,
  normalize_push_token,
}
use clixor_backend.Memory.{Store}

-- existing.UserID != device.UserID || existing.Platform != device.Platform
unfoldable pub other_installation : Device → Device → Bool
other_installation existing device =
    not (existing.user_id == device.user_id) || not (existing.platform == device.platform)

-- What a registration keeps of the row that it replaces; `absent_pre_key` is the caller's test
-- for a pre-key that the request leaves out.
unfoldable pub merge_device : (String → Bool) → Device → Device → Device
merge_device absent_pre_key existing device = record device {
  push_token = if device.push_token == [] then existing.push_token else device.push_token;
  identity_key = if device.identity_key == "" then existing.identity_key else device.identity_key;
  signed_pre_key =
      if absent_pre_key device.signed_pre_key
      then existing.signed_pre_key
      else device.signed_pre_key;
  created_at = existing.created_at;
}

-- if device.CreatedAt.IsZero() { device.CreatedAt = now }; device.LastSeenAt = now
unfoldable pub stamp_device : Time → Device → Device
stamp_device now device = record device {
  created_at = if device.created_at == 0 then now else device.created_at;
  last_seen_at = now;
}

-- The body of the loop that takes a token from its previous rows.
unfoldable pub yield_token : Device → Uuid → Device → Device
yield_token device id existing =
    if not (id == device.id)
      && existing.platform == device.platform
      && existing.push_token == device.push_token
    then record existing { push_token = [] }
    else existing

unfoldable pub claim_token : Device → Map Uuid Device → Map Uuid Device
claim_token device devices =
    if device.push_token == [] then devices else update_all (yield_token device) devices

-- The write that ends UpsertDevice and IssueSession.
unfoldable pub register_device : Device → Map Uuid Device → Map Uuid Device
register_device device devices = put (claim_token device devices) device.id device

-- The row to write, or the conflict with the row that has the id.
unfoldable pub resolve_device : (String → Bool) → Time → Device → Option Device → Result Device
resolve_device absent_pre_key now device none = ok (stamp_device now device)
resolve_device absent_pre_key now device (some existing) =
    if other_installation existing device
    then err conflict
    else ok (stamp_device now (merge_device absent_pre_key existing device))

unfoldable pub store_device : Result Device → Store → Result Device × Store
store_device (err e) s = (err e, s)
store_device (ok device) s = (ok device, record s { devices = register_device device s.devices })

-- len(device.SignedPreKey) == 0 || string(device.SignedPreKey) == "null"
unfoldable pub no_pre_key : String → Bool
no_pre_key key = key == "" || key == "null"

unfoldable pub prepare_device : Uuid → Device → Device
prepare_device fresh device = record device {
  push_token = normalize_push_token device.platform device.push_token;
  id = if device.id == 0 then fresh else device.id;
}

-- UpsertDevice from its lookup of the user on.
unfoldable pub upsert_for : Time → Device → Option User → Store → Result Device × Store
upsert_for now prepared none s = (err not_found, s)
upsert_for now prepared (some user) s =
    store_device (resolve_device no_pre_key now prepared (get s.devices prepared.id)) s

unfoldable pub upsert_device : Time → Uuid → Device → Store → Result Device × Store
unfolding upsert_for
upsert_device now fresh device s =
    upsert_for now (prepare_device fresh device) (live (get s.users device.user_id)) s

-- Device
pub device_of : Uuid → Uuid → Store → Result Device
device_of user_id device_id s = elim (get s.devices device_id) [
  | none ↦ err not_found
  | some device ↦ if not (device.user_id == user_id) then err forbidden else ok device
]

-- ListDevices
pub list_devices : Uuid → Store → List Device
list_devices user_id s =
    sort_by (λ a b. ltb a.created_at b.created_at)
      (select (λ d. d.user_id == user_id) (values s.devices))

unfoldable pub clear_token : Device → Device
clear_token device = record device { push_token = [] }

unfoldable pub clear_checked : Uuid → Uuid → Option Device → Store → Result (Unit {0}) × Store
unfolding clear_token
clear_checked user_id device_id none s = (err not_found, s)
clear_checked user_id device_id (some device) s =
    if not (device.user_id == user_id)
    then (err forbidden, s)
    else (ok tt, record s { devices = put s.devices device_id (clear_token device) })

unfoldable pub clear_device_push_token : Uuid → Uuid → Store → Result (Unit {0}) × Store
unfolding clear_checked
clear_device_push_token user_id device_id s =
    clear_checked user_id device_id (get s.devices device_id) s
