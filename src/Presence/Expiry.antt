-- ===== src/Presence/Expiry.antt =====
-- Presence lasts 70 seconds from the last call.
use clixor_backend.Prelude.{
  ◌+◌, ◌<◌, ◌≡◌, refl, ap, ◌∙◌, Option, none, some, List, [], ◌∷◌, Bool, true, arith, exists,
  nat_eq, if_cases,
}
use clixor_backend.Map.{Map, get, put, find}
use clixor_backend.Map.Laws.{get-put, beq_refl}
use clixor_backend.Domain.{Uuid, Time, after}
use clixor_backend.Presence.{
  Presences, devices_or_empty, online_for, set_online, scan_devices, is_online_in, is_online,
}

-- Some device's expiry lies in the future.
abbrev pub some_unexpired : Time → List (Uuid × Time) → Bool
some_unexpired now es = exists (λ e. after e.1 now) es

scan_devices_lem :
    (now : Time) (es : List (Uuid × Time)) (m : Map Uuid Time)
    → (scan_devices now es m).0 ≡ some_unexpired now es
unfolding scan_devices
scan_devices_lem now [] m = refl
scan_devices_lem now ((d, x) ∷ es) m =
    if_cases {A = Bool × Map Uuid Time} (λ r. r.0 ≡ some_unexpired now ((d, x) ∷ es)) (after x now)
      _ _ (λ e. rw e refl) (λ e. rw (e, scan_devices_lem now es) refl)

is_online_in_lem :
    (user_id : Uuid) (now : Time) (o : Option (Map Uuid Time)) (p : Presences)
    → (is_online_in user_id now o p).0 ≡ some_unexpired now (devices_or_empty o).entries
unfolding is_online_in
is_online_in_lem user_id now none p = refl
is_online_in_lem user_id now (some m) p = scan_devices_lem now m.entries m

-- A user is reported online exactly when some device of theirs has not expired, although the scan
-- stops early and deletes expired devices on its way.
pub is_online_lem :
    (user_id : Uuid) (now : Time) (p : Presences)
    → (is_online user_id now p).0 ≡ some_unexpired now (devices_or_empty (get p user_id)).entries
unfolding is_online
is_online_lem user_id now p = is_online_in_lem user_id now (get p user_id) p

pub unexpired_found :
    (d : Uuid) (x now : Time) (es : List (Uuid × Time))
    → find d es ≡ some x
    → now < x
    → some_unexpired now es ≡ true
unfolding find
unexpired_found d x now [] h l = cc
unexpired_found d x now ((j, y) ∷ es) h l = ground (arith, unexpired_found d x now es)

-- A device keeps its user online for 70 seconds from its last Online or Heartbeat.
pub online_seen :
    (user_id device_id : Uuid) (now later : Time) (p : Presences)
    → later < now + online_for
    → (is_online user_id later (set_online user_id device_id now p)).0 ≡ true
unfolding set_online
online_seen user_id device_id now later p h =
    is_online_lem user_id later (set_online user_id device_id now p)
    ∙ ap (λ o. some_unexpired later (devices_or_empty o).entries) stored
    ∙ unexpired_found device_id (now + online_for) later
        (put (devices_or_empty (get p user_id)) device_id (now + online_for)).entries
        (found (devices_or_empty (get p user_id))) h
  where
    stored :
        get (set_online user_id device_id now p) user_id
        ≡ some (put (devices_or_empty (get p user_id)) device_id (now + online_for))
    stored = rw (get-put, beq_refl user_id) refl

    found :
        (m : Map Uuid Time)
        → find device_id (put m device_id (now + online_for)).entries ≡ some (now + online_for)
    found m =
        unfold get in rw (get-put m device_id device_id (now + online_for), beq_refl device_id) refl
