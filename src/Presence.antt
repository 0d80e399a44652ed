-- ===== src/Presence.antt =====
-- internal/presence/presence.go: which devices of a user are online, in memory. Its mutex makes
-- each method one step; `now` is the reading of time.Now().
pub mod Expiry
pub mod History
pub mod Refines
pub mod Scan
pub mod Answers
mod Examples
use clixor_backend.Prelude.{
  ℕ, ◌+◌, Option, none, some, List, [], ◌∷◌, Bool, true, false, if◌then◌else◌, ◌==◌, nat_eq,
}
use clixor_backend.Map.{Map, empty, get, put, delete}
use clixor_backend.Domain.{Uuid, Time, after}

abbrev pub Presences : Type 0
Presences = Map Uuid (Map Uuid Time)

abbrev pub devices_or_empty : Option (Map Uuid Time) → Map Uuid Time
devices_or_empty none = empty
devices_or_empty (some m) = m

-- 70 * time.Second
abbrev pub online_for : Time
online_for = 70_000_000_000

-- Memory.set, the body of Online and Heartbeat.
unfoldable pub set_online : Uuid → Uuid → Time → Presences → Presences
set_online user_id device_id now p =
    put p user_id (put (devices_or_empty (get p user_id)) device_id (now + online_for))

-- Offline; deleting from a missing inner map does nothing.
unfoldable pub offline_in : Uuid → Uuid → Option (Map Uuid Time) → Presences → Presences
offline_in user_id device_id none p = p
offline_in user_id device_id (some m) p = put p user_id (delete m device_id)

unfoldable pub offline : Uuid → Uuid → Presences → Presences
unfolding offline_in
offline user_id device_id p = offline_in user_id device_id (get p user_id) p

-- The loop of IsOnline over the entries in the order of `range`: it stops at the first device that
-- has not expired and deletes those before it.
unfoldable pub scan_devices : Time → List (Uuid × Time) → Map Uuid Time → Bool × Map Uuid Time
scan_devices now [] m = (false, m)
scan_devices now ((device_id, expires) ∷ es) m =
    let rest = scan_devices now es (delete m device_id) in
    if after expires now then (true, m) else rest

unfoldable pub is_online_in : Uuid → Time → Option (Map Uuid Time) → Presences → Bool × Presences
unfolding scan_devices
is_online_in user_id now none p = (false, p)
is_online_in user_id now (some m) p =
    let r = scan_devices now m.entries m in (r.0, put p user_id r.1)

-- IsOnline
unfoldable pub is_online : Uuid → Time → Presences → Bool × Presences
unfolding is_online_in
is_online user_id now p = is_online_in user_id now (get p user_id) p
