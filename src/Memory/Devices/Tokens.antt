-- ===== src/Memory/Devices/Tokens.antt =====
-- A push token belongs to one installation: every write of a device keeps it so.
use clixor_backend.Prelude.{
  Option, none, some, [], not, ◌≡◌, ◌≢◌, refl, arith, inl, inr, if◌then◌else◌, ◌==◌, nat_eq,
  string_eq, bytes_eq, nat_beq_iff, list_beq_iff, if_both, if_cases, ap, ◌∙◌, ◌⊎◌,
}
use clixor_backend.Map.{Map, get, put, update_all}
use clixor_backend.Map.Laws.{get-put, get-update_all}
use clixor_backend.Domain.{Uuid, Time, User, Device, live, Result, ok, err}
use clixor_backend.Memory.{Store}
use clixor_backend.Memory.Devices.{
  yield_token, claim_token, register_device, store_device, clear_token, clear_checked,
  upsert_device, clear_device_push_token, upsert_for, prepare_device,
}
use mathlib.Core.Option

-- Two rows of one platform with the same nonempty token are one row.
pub record TokensUnique (devices : Map Uuid Device) : Type 0 where
  pub one_row :
      (i j : Uuid) (d e : Device)
      → get devices i ≡ some d
      → get devices j ≡ some e
      → d.push_token ≢ []
      → d.platform ≡ e.platform
      → d.push_token ≡ e.push_token
      → i ≡ j

get-register :
    (device : Device) (devices : Map Uuid Device) (i : Uuid)
    → get (register_device device devices) i
      ≡ (if device.id == i then some device else get (claim_token device devices) i)
unfolding register_device
get-register device devices i = rw get-put refl

-- A row that still has a token after a claim was not touched, and does not have the claimed one.
record Untouched (device : Device) (devices : Map Uuid Device) (i : Uuid) (d : Device)
    : Type 0 where
  same : get devices i ≡ some d
  other :
      i ≢ device.id
      → device.push_token ≢ []
      → d.platform ≡ device.platform
      → d.push_token ≢ device.push_token

yield_kept :
    (device : Device) (i : Uuid) (d e : Device)
    → yield_token device i d ≡ e
    → e.push_token ≢ []
    → (d ≡ e) × (i ≢ device.id → e.platform ≡ device.platform → e.push_token ≢ device.push_token)
unfolding yield_token
yield_kept device i d e p n = (
  ground (arith),
  λ q r t. ground (
    arith,
    nat_beq_iff i device.id,
    string_eq.beq_iff d.platform device.platform,
    list_beq_iff d.push_token device.push_token,
  ),
)

claimed_some :
    (device : Device) (devices : Map Uuid Device) (i : Uuid) (d : Device) (o : Option Device)
    → get devices i ≡ o
    → Option.map (yield_token device i) o ≡ some d
    → d.push_token ≢ []
    → Untouched device devices i d
claimed_some device devices i d none e p n = cc
claimed_some device devices i d (some d') e p n =
    let kept = yield_kept device i d' d (cc) n in
    record { same = cc kept.0; other = λ q _. kept.1 q }

claimed_row :
    (device : Device) (devices : Map Uuid Device) (i : Uuid) (d : Device)
    → get (claim_token device devices) i ≡ some d
    → d.push_token ≢ []
    → Untouched device devices i d
unfolding claim_token
claimed_row device devices i d =
    if_cases (λ m. get m i ≡ some d → d.push_token ≢ [] → Untouched device devices i d)
      (device.push_token == []) devices (update_all (yield_token device) devices)
      (λ e p n. record {
        same = p;
        other = λ _ t. absurd (t ((list_beq_iff device.push_token []).0 e));
      })
      (λ e p n.
        claimed_some device devices i d (get devices i) refl
          (rw (get-update_all (yield_token device) devices i) at p) n)

-- The row under an id after a registration: the new row there, an untouched one elsewhere.
abbrev Registered : Device → Map Uuid Device → Uuid → Device → Type 0
Registered device devices i d =
    ((i ≡ device.id) × (d ≡ device)) ⊎ ((i ≢ device.id) × Untouched device devices i d)

Registered-row :
    (device : Device) (devices : Map Uuid Device) (i : Uuid) (d : Device)
    → get (register_device device devices) i ≡ some d
    → d.push_token ≢ []
    → Registered device devices i d
Registered-row device devices i d p =
    if_cases (λ o. o ≡ some d → d.push_token ≢ [] → Registered device devices i d) (device.id == i)
      (some device) (get (claim_token device devices) i) (λ e q n. inl (ground arith, cc))
      (λ e q n. inr (ground arith, claimed_row device devices i d q n))
      (rw (get-register device devices i) at p)

one_of_each :
    (device : Device) (devices : Map Uuid Device) (i j : Uuid) (d e : Device)
    → TokensUnique devices
    → Registered device devices i d
    → Registered device devices j e
    → d.push_token ≢ []
    → d.platform ≡ e.platform
    → d.push_token ≡ e.push_token
    → i ≡ j
one_of_each device devices i j d e v (inl p) (inl q) n r t = cc (p.0, q.0)
one_of_each device devices i j d e v (inl p) (inr q) n r t =
    absurd (
      q.1.other q.0 (λ z. n (ap (λ (x : Device). x.push_token) p.1 ∙ z)) (cc (p.1, r))
        (cc (p.1, t)))
one_of_each device devices i j d e v (inr p) (inl q) n r t = absurd (
    p.1.other p.0 (λ z. n (t ∙ ap (λ (x : Device). x.push_token) q.1 ∙ z)) (cc (q.1, r))
      (cc (q.1, t)))
one_of_each device devices i j d e v (inr p) (inr q) n r t =
    v.one_row i j d e p.1.same q.1.same n r t

pub register-TokensUnique :
    (device : Device) (devices : Map Uuid Device)
    → TokensUnique devices
    → TokensUnique (register_device device devices)
register-TokensUnique device devices v = record {
  one_row = λ i j d e p q n r t.
      one_of_each device devices i j d e v (Registered-row device devices i d p n)
        (Registered-row device devices j e q (λ z. n (t ∙ z))) n r t;
}

-- The row under an id after one row was cleared, if it still has a token.
cleared_row :
    (devices : Map Uuid Device) (k i : Uuid) (device d : Device)
    → get (put devices k (clear_token device)) i ≡ some d
    → d.push_token ≢ []
    → get devices i ≡ some d
unfolding clear_token
cleared_row devices k i device d p =
    if_cases (λ o. o ≡ some d → d.push_token ≢ [] → get devices i ≡ some d) (k == i)
      (some (clear_token device)) (get devices i) (λ e q n. absurd (n (cc q))) (λ e q n. q)
      (rw get-put at p)

pub clear-TokensUnique :
    (devices : Map Uuid Device) (k : Uuid) (device : Device)
    → TokensUnique devices
    → TokensUnique (put devices k (clear_token device))
clear-TokensUnique devices k device v = record {
  one_row = λ i j d e p q n r t.
      v.one_row i j d e (cleared_row devices k i device d p n)
        (cleared_row devices k j device e q (λ z. n (t ∙ z))) n r t;
}

store_device-TokensUnique :
    (r : Result Device) (s : Store)
    → TokensUnique s.devices
    → TokensUnique (store_device r s).1.devices
unfolding store_device
store_device-TokensUnique (err e) s v = v
store_device-TokensUnique (ok device) s v = register-TokensUnique device s.devices v

found_device-TokensUnique :
    (user_id device_id : Uuid) (o : Option Device) (s : Store)
    → TokensUnique s.devices
    → TokensUnique (clear_checked user_id device_id o s).1.devices
unfolding clear_checked
found_device-TokensUnique user_id device_id none s v = v
found_device-TokensUnique user_id device_id (some device) s v =
    if_both {A = Result (Unit {0}) × Store} (λ q. TokensUnique q.1.devices)
      (not (device.user_id == user_id)) _ _ v (clear-TokensUnique s.devices device_id device v)

upserted-TokensUnique :
    (now : Time) (prepared : Device) (o : Option User) (s : Store)
    → TokensUnique s.devices
    → TokensUnique (upsert_for now prepared o s).1.devices
unfolding upsert_for
upserted-TokensUnique now prepared none s v = v
upserted-TokensUnique now prepared (some user) s v = store_device-TokensUnique _ s v

-- A push token has one owner: on every branch UpsertDevice and ClearDevicePushToken keep that no
-- two devices of one platform have the same nonempty push token.
pub devices-TokensUnique :
    (now : Time) (fresh : Uuid) (device : Device) (user_id device_id : Uuid) (s : Store)
    → TokensUnique s.devices
    → TokensUnique (upsert_device now fresh device s).1.devices
      × TokensUnique (clear_device_push_token user_id device_id s).1.devices
unfolding upsert_device clear_device_push_token
devices-TokensUnique now fresh device user_id device_id s v = (
  upserted-TokensUnique now (prepare_device fresh device) (live (get s.users device.user_id)) s v,
  found_device-TokensUnique user_id device_id (get s.devices device_id) s v,
)
