-- ===== src/Memory/Sessions/Issue.antt =====
-- Login: what an issued session leaves, and what a revoked one never is again.
use clixor_backend.Prelude.{
  Option, none, some, true, false, not, ◌≡◌, refl, ap, subst, arith, ◌==◌, nat_eq, string_eq,
  bytes_eq, if_cases, ◌⊎◌, inl, inr, ◌∙◌, Bool, ◌&&◌, ltb, String, Bool-cases,
}
use clixor_backend.Map.{get, put}
use clixor_backend.Map.Laws.{get-put, beq_refl}
use clixor_backend.Domain.{
  Uuid, Time, Bytes, User, Device, Session, Result, ok, err, unauthenticated, conflict, live,
}
use clixor_backend.Memory.{Store}
use clixor_backend.Memory.Outbox.{is_set}
use clixor_backend.Memory.Devices.{
  register_device, resolve_device, stamp_device, merge_device, other_installation,
}
use clixor_backend.Memory.Devices.Tokens.{TokensUnique, register-TokensUnique}
use clixor_backend.Memory.Sessions.{
  SessionIssueParams, issue_params_invalid, password_mismatch, store_session, issue_for,
  issue_session, revoked, put_session, revoke_checked, revoke_session, active_for, session_active,
  session_dead, rotate_checked, rotate_session, normalized_device, empty_pre_key,
}

-- A login that succeeded: the user was live, with the expected password hash where the call
-- requires one; the store holds the session, which is active for the user and the device until it
-- expires unless it was given as revoked, and the device, which is the user's; and no push token is
-- taken twice.
pub record Issued (p : SessionIssueParams) (s t : Store) (user : User) (d : Device) : Type 0 where
  pub user_live : live (get s.users p.user_id) ≡ some user
  pub password :
      (p.require_password_hash_match ≡ false) ⊎ (user.password_hash ≡ p.expected_password_hash)
  pub stored : get t.sessions p.session.id ≡ some p.session
  pub active :
      (later : Time)
      → session_active p.session.id p.user_id p.device.id later t
        ≡ (not (is_set p.session.revoked_at) && ltb later p.session.expires_at)
  pub device : get t.devices p.device.id ≡ some d
  pub owned : d.user_id ≡ p.user_id
  pub tokens : TokensUnique t.devices

-- What the checks of the parameters leave.
record Matching (p : SessionIssueParams) : Type 0 where
  session_user : (p.session.user_id == p.user_id) ≡ true
  session_device : (p.session.device_id == p.device.id) ≡ true
  device_user : p.device.user_id ≡ p.user_id

valid-Matching : (p : SessionIssueParams) → issue_params_invalid p ≡ false → Matching p
unfolding issue_params_invalid
valid-Matching p h = record {
  session_user = ground arith;
  session_device = ground arith;
  device_user = ground arith;
}

password_matches :
    (p : SessionIssueParams) (user : User)
    → password_mismatch p user ≡ false
    → (p.require_password_hash_match ≡ false) ⊎ (user.password_hash ≡ p.expected_password_hash)
unfolding password_mismatch
password_matches p user h = elim (Bool-cases p.require_password_hash_match) [
  | inr off ↦ inl off
  | inl on ↦ elim (Bool-cases (user.password_hash == p.expected_password_hash)) [
    | inl same ↦ inr ((string_eq.beq_iff user.password_hash p.expected_password_hash).0 same)
    | inr other ↦ let clash : true ≡ false = rw (on, other) at h in cc
  ]
]

-- The row that is written has the id and the user of the request.
resolved_row :
    (absent : String → Bool) (now : Time) (device row : Device) (o : Option Device)
    → resolve_device absent now device o ≡ ok row
    → (row.id ≡ device.id) × (row.user_id ≡ device.user_id)
unfolding resolve_device stamp_device merge_device
resolved_row absent now device row none h = (cc, cc)
resolved_row absent now device row (some existing) h =
    elim (Bool-cases (other_installation existing device)) [
      | inl e ↦ let clash : err conflict ≡ ok row = rw e at h in cc
      | inr e ↦ let same = rw e at h in (cc, cc)
    ]

normalized_row :
    (now : Time) (device row : Device) (o : Option Device)
    → resolve_device empty_pre_key now (normalized_device device) o ≡ ok row
    → (row.id ≡ device.id) × (row.user_id ≡ device.user_id)
unfolding normalized_device
normalized_row now device row o h =
    resolved_row empty_pre_key now (normalized_device device) row o h

stored-Issued :
    (p : SessionIssueParams) (s t : Store) (user u : User) (d : Device) (r : Result Device)
    → Matching p
    → ((row : Device) → r ≡ ok row → (row.id ≡ p.device.id) × (row.user_id ≡ p.device.user_id))
    → TokensUnique s.devices
    → live (get s.users p.user_id) ≡ some user
    → password_mismatch p user ≡ false
    → store_session p user r s ≡ (ok (u, d), t)
    → Issued p s t u d
unfolding store_session
stored-Issued p s t user u d (err e) valid row v l m h = cc
stored-Issued p s t user u d (ok device) valid row v l m h =
    subst (λ (q : User × (Device × Store)). Issued p s q.1.1 q.0 q.1.0) same
      (record {
        user_live = l;
        password = password_matches p user m;
        stored = stored;
        active = λ later.
            unfold session_active active_for in
            rw (l, stored, valid.session_user, valid.session_device) refl;
        device =
            subst (λ k. get (register_device device s.devices) k ≡ some device) (row device refl).0
              (unfold register_device in rw (get-put, beq_refl device.id) refl);
        owned = (row device refl).1 ∙ valid.device_user;
        tokens = register-TokensUnique device s.devices v;
      })
  where
    after_login : Store
    after_login = record s {
      devices = register_device device s.devices;
      sessions = put s.sessions p.session.id p.session;
    }

    stored : get (put s.sessions p.session.id p.session) p.session.id ≡ some p.session
    stored = rw (get-put, beq_refl p.session.id) refl

    same : Path (User × (Device × Store)) (user, (device, after_login)) (u, (d, t))
    same = cc

issue_for-Issued :
    (now : Time) (p : SessionIssueParams) (s t : Store) (u : User) (d : Device) (o : Option User)
    → Matching p
    → TokensUnique s.devices
    → live (get s.users p.user_id) ≡ o
    → issue_for now p o s ≡ (ok (u, d), t)
    → Issued p s t u d
unfolding issue_for
issue_for-Issued now p s t u d none valid v l = λ h. cc
issue_for-Issued now p s t u d (some user) valid v l =
    if_cases {A = Result (User × Device) × Store} (λ q. q ≡ (ok (u, d), t) → Issued p s t u d)
      (password_mismatch p user) _ _ (λ _ q. cc)
      (λ m q.
        stored-Issued p s t user u d _ valid
          (λ row. normalized_row now p.device row (get s.devices p.device.id)) v l m q)

-- An issued session is backed by its login: the user of a successful IssueSession was live in the
-- store that was read, with the expected password hash if the call requires one; the session is
-- stored as given and SessionActive holds of it, for that user and device, exactly until it
-- expires, unless it was given as revoked; the returned device is stored and is the user's; and no
-- two devices share a push token of one platform, provided none did before.
pub issue_session-Issued :
    (now : Time) (p : SessionIssueParams) (s t : Store) (u : User) (d : Device)
    → TokensUnique s.devices
    → issue_session now p s ≡ (ok (u, d), t)
    → Issued p s t u d
unfolding issue_session
issue_session-Issued now p s t u d v =
    if_cases {A = Result (User × Device) × Store} (λ q. q ≡ (ok (u, d), t) → Issued p s t u d)
      (issue_params_invalid p) _ _ (λ _ q. cc)
      (λ e q.
        issue_for-Issued now p s t u d (live (get s.users p.user_id)) (valid-Matching p e) v refl q)

-- A stored session that is revoked.
record Ended (id : Uuid) (t : Store) : Type 0 where
  session : Session
  found : get t.sessions id ≡ some session
  ended : is_set session.revoked_at ≡ true

revoked-Ended :
    (id user_id : Uuid) (now : Time) (s t : Store) (o : Option Session)
    → revoke_checked id user_id now o s ≡ (ok tt, t)
    → Ended id t
unfolding revoke_checked put_session revoked
revoked-Ended id user_id now s t none = λ h. cc
revoked-Ended id user_id now s t (some session) =
    if_cases {A = Result (Unit {0}) × Store} (λ q. q ≡ (ok tt, t) → Ended id t)
      (not (session.user_id == user_id)) _ _ (λ _ q. cc)
      (λ _ q. subst (Ended id) (ap (λ (r : Result (Unit {0}) × Store). r.1) q) (record {
        session = record session { revoked_at = some now };
        found = rw (get-put, beq_refl id) refl;
        ended = refl;
      }))

ended_inactive :
    (user_id device_id : Uuid) (now : Time) (session : Session)
    → is_set session.revoked_at ≡ true
    → active_for user_id device_id now (some session) ≡ false
unfolding active_for
ended_inactive user_id device_id now session h = ground (arith, h)

ended_unrotated :
    (id : Uuid) (old new : Bytes) (expires now : Time) (session : Session) (t : Store)
    → is_set session.revoked_at ≡ true
    → rotate_checked id old new expires now (some session) t ≡ (err unauthenticated, t)
unfolding rotate_checked session_dead
ended_unrotated id old new expires now session t h = rw h (ground arith)

-- Logout is final: after a successful RevokeSession the session is not active for any user and
-- device at any time, and every rotation of it, with any secret and at any time, is refused and
-- changes nothing.
pub revoke_session_final :
    (id user_id user_id' device_id : Uuid) (old new : Bytes) (expires now later : Time)
    (s t : Store)
    → revoke_session id user_id now s ≡ (ok tt, t)
    → (session_active id user_id' device_id later t ≡ false)
      × (rotate_session id old new expires later t ≡ (err unauthenticated, t))
unfolding session_active rotate_session
revoke_session_final id user_id user_id' device_id old new expires now later s t h = rw v.found (
  rw (ended_inactive user_id' device_id later v.session v.ended) (ground arith),
  ended_unrotated id old new expires later v.session t v.ended,
)
  where
    v : Ended id t
    v = unfold revoke_session in revoked-Ended id user_id now s t (get s.sessions id) h
