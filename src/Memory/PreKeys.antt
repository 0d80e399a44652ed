-- ===== src/Memory/PreKeys.antt =====
-- internal/store/memory/memory.go: one-time pre-keys (PutOneTimePreKeys, ClaimPreKeys). The write
-- of the device id into the caller's own slice is not modelled.
pub mod Spent
pub mod Once
use clixor_backend.Prelude.{
  ℕ, String, Option, none, some, List, [], ◌∷◌, ◌++◌, Bool, true, not, ◌&&◌, ◌||◌, if◌then◌else◌,
  ◌==◌, nat_eq, string_eq, exists,
}
use clixor_backend.Map.{Map, get, put, values}
use clixor_backend.Domain.{
  Uuid, Time, Device, User, OneTimePreKey, PreKeyBundle, Result, ok, err, not_found, live,
}
use clixor_backend.Memory.{Store}
use clixor_backend.Memory.Outbox.{is_set}
use clixor_backend.Memory.Devices.{no_pre_key}

-- s.preKeys[id]
abbrev pub keys_of : Option (List OneTimePreKey) → List OneTimePreKey
keys_of none = []
keys_of (some ks) = ks

-- _, duplicate := existing[key.KeyID]
unfoldable pub has_key : ℕ → List OneTimePreKey → Bool
has_key key_id ks = exists (λ k. k.key_id == key_id) ks

-- The second loop of PutOneTimePreKeys. `stored` is the slice of the device, whose key ids are
-- the source's set `existing`.
unfoldable pub add_keys : Uuid → List OneTimePreKey → List OneTimePreKey → List OneTimePreKey
unfolding has_key
add_keys device_id [] stored = stored
add_keys device_id (k ∷ ks) stored =
    add_keys device_id ks (
      if has_key k.key_id stored then stored else stored ++ record k { device_id = device_id } ∷ [])

-- The owner of a device, unless it is missing or erased.
unfoldable pub live_owner : Option Device → Store → Option User
live_owner none s = none
live_owner (some device) s = live (get s.users device.user_id)

unfoldable pub put_one_time_pre_keys : Uuid → List OneTimePreKey → Store → Result (Unit {0}) × Store
put_one_time_pre_keys device_id keys s = elim (live_owner (get s.devices device_id) s) [
  | none ↦ (err not_found, s)
  | some user ↦ (
    ok tt,
    record s {
      pre_keys =
          put s.pre_keys device_id (add_keys device_id keys (keys_of (get s.pre_keys device_id)));
    },
  )
]

-- The inner loop of ClaimPreKeys: the first unclaimed key, claimed, and the new slice.
unfoldable pub claim_key : Time → List OneTimePreKey → Option OneTimePreKey × List OneTimePreKey
claim_key now [] = (none, [])
claim_key now (k ∷ ks) =
    let rest = claim_key now ks in
    let claimed = record k { claimed_at = some now } in
    if not (is_set k.claimed_at) then (some claimed, claimed ∷ ks) else (rest.0, k ∷ rest.1)

-- The negated `continue` guard.
unfoldable pub bundled : Uuid → Device → Bool
bundled user_id device =
    device.user_id == user_id
    && not (device.identity_key == "")
    && not (no_pre_key device.signed_pre_key)

abbrev pub bundle_of : Device → Option OneTimePreKey → PreKeyBundle
bundle_of device key = record {
  device_id = device.id;
  identity_key = device.identity_key;
  signed_pre_key = device.signed_pre_key;
  one_time_pre_key = key;
}

-- The loop over the devices: the bundles and the new pre-keys.
unfoldable pub claim_bundles :
    Uuid
    → Time
    → List Device
    → Map Uuid (List OneTimePreKey)
    → List PreKeyBundle × Map Uuid (List OneTimePreKey)
unfolding claim_key bundled
claim_bundles user_id now [] keys = ([], keys)
claim_bundles user_id now (d ∷ ds) keys =
    let claim = claim_key now (keys_of (get keys d.id)) in
    let kept = if is_set claim.0 then put keys d.id claim.1 else keys in
    let taken = claim_bundles user_id now ds kept in
    let skipped = claim_bundles user_id now ds keys in
    if bundled user_id d then (bundle_of d claim.0 ∷ taken.0, taken.1) else skipped

-- len(result) == 0
abbrev pub reply_bundles :
    List PreKeyBundle × Map Uuid (List OneTimePreKey) → Store → Result (List PreKeyBundle) × Store
reply_bundles ([], keys) s = (err not_found, record s { pre_keys = keys })
reply_bundles (b ∷ bs, keys) s = (ok (b ∷ bs), record s { pre_keys = keys })

unfoldable pub claim_pre_keys : Uuid → Time → Store → Result (List PreKeyBundle) × Store
unfolding claim_bundles
claim_pre_keys user_id now s = elim (live (get s.users user_id)) [
  | none ↦ (err not_found, s)
  | some user ↦ reply_bundles (claim_bundles user_id now (values s.devices) s.pre_keys) s
]
