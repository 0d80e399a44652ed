-- ===== src/Memory/Sessions.antt =====
-- internal/store/memory/memory.go: refresh sessions (CreateSession, IssueSession, RotateSession,
-- RevokeSession, SessionActive). `now` is the reading of time.Now() in the call.
pub mod Rotation
pub mod Issue
use clixor_backend.Prelude.{
  ℕ, String, Option, none, some, List, [], ◌∷◌, Bool, true, false, not, ◌&&◌, ◌||◌, if◌then◌else◌,
  ◌==◌, nat_eq, string_eq, bytes_eq, ltb,
}
use clixor_backend.Map.{Map, get, put}
use clixor_backend.Domain.{
  Uuid, Time, Bytes, User, Device, Session, Error, Result, ok, err, not_found, forbidden,
  unauthenticated, invalid, live, normalize_push_token, after, before,
}
use clixor_backend.Memory.{Store}
use clixor_backend.Memory.Outbox.{is_set}
use clixor_backend.Memory.Devices.{resolve_device, register_device}

-- !deviceExists || device.UserID != userID
unfoldable pub owns_device : Option Device → Uuid → Bool
owns_device none user_id = false
owns_device (some device) user_id = device.user_id == user_id

unfoldable pub create_session : Session → Store → Result (Unit {0}) × Store
create_session session s =
    if is_set (live (get s.users session.user_id))
      && owns_device (get s.devices session.device_id) session.user_id
    then (ok tt, record s { sessions = put s.sessions session.id session })
    else (err unauthenticated, s)

-- store.SessionIssueParams
pub record SessionIssueParams : Type 0 where
  pub user_id : Uuid
  pub expected_password_hash : String
  pub require_password_hash_match : Bool
  pub device : Device
  pub session : Session

-- The parameters that IssueSession refuses before it takes a lock.
unfoldable pub issue_params_invalid : SessionIssueParams → Bool
issue_params_invalid p =
    p.user_id == 0
    || p.device.id == 0
    || not (p.device.user_id == p.user_id)
    || p.session.id == 0
    || not (p.session.user_id == p.user_id)
    || not (p.session.device_id == p.device.id)
    || p.session.refresh_token_hash == []

-- len(device.SignedPreKey) == 0
unfoldable pub empty_pre_key : String → Bool
empty_pre_key key = key == ""

unfoldable pub password_mismatch : SessionIssueParams → User → Bool
password_mismatch p user =
    p.require_password_hash_match && not (user.password_hash == p.expected_password_hash)

unfoldable pub normalized_device : Device → Device
normalized_device device = record device {
  push_token = normalize_push_token device.platform device.push_token;
}

unfoldable pub store_session :
    SessionIssueParams → User → Result Device → Store → Result (User × Device) × Store
store_session p user (err e) s = (err e, s)
store_session p user (ok device) s = (
  ok (user, device),
  record s {
    devices = register_device device s.devices;
    sessions = put s.sessions p.session.id p.session;
  },
)

unfoldable pub issue_for :
    Time → SessionIssueParams → Option User → Store → Result (User × Device) × Store
issue_for now p none s = (err unauthenticated, s)
issue_for now p (some user) s =
    if password_mismatch p user
    then (err unauthenticated, s)
    else store_session p user
        (resolve_device empty_pre_key now (normalized_device p.device) (get s.devices p.device.id))
        s

unfoldable pub issue_session : Time → SessionIssueParams → Store → Result (User × Device) × Store
unfolding issue_for
issue_session now p s =
    if issue_params_invalid p
    then (err invalid, s)
    else issue_for now p (live (get s.users p.user_id)) s

-- equalTokenHash: the lengths agree and are positive, and the contents are equal.
unfoldable pub equal_token_hash : Bytes → Bytes → Bool
equal_token_hash first second = not (first == []) && first == second

-- session.RevokedAt != nil || session.ExpiresAt.Before(now)
unfoldable pub session_dead : Time → Session → Bool
session_dead now session = is_set session.revoked_at || before session.expires_at now

unfoldable pub rotated : Bytes → Time → Session → Session
rotated new_hash expires_at session = record session {
  previous_refresh_token_hash = session.refresh_token_hash;
  refresh_token_hash = new_hash;
  expires_at = expires_at;
}

unfoldable pub revoked : Time → Session → Session
revoked now session = record session { revoked_at = some now }

unfoldable pub put_session : Uuid → Session → Store → Store
put_session id session s = record s { sessions = put s.sessions id session }

-- The tests on the presented secret: the current one rotates, the previous one revokes.
unfoldable pub rotate_found :
    Uuid → Bytes → Bytes → Time → Time → Session → Store → Result Session × Store
rotate_found id old_hash new_hash expires_at now session s =
    if equal_token_hash session.refresh_token_hash old_hash
    then (
      ok (rotated new_hash expires_at session),
      put_session id (rotated new_hash expires_at session) s,
    )
    else if equal_token_hash session.previous_refresh_token_hash old_hash
    then (err unauthenticated, put_session id (revoked now session) s)
    else (err unauthenticated, s)

unfoldable pub rotate_checked :
    Uuid → Bytes → Bytes → Time → Time → Option Session → Store → Result Session × Store
rotate_checked id old_hash new_hash expires_at now none s = (err unauthenticated, s)
rotate_checked id old_hash new_hash expires_at now (some session) s =
    if not (is_set (live (get s.users session.user_id))) || session_dead now session
    then (err unauthenticated, s)
    else rotate_found id old_hash new_hash expires_at now session s

unfoldable pub rotate_session : Uuid → Bytes → Bytes → Time → Time → Store → Result Session × Store
rotate_session id old_hash new_hash expires_at now s =
    rotate_checked id old_hash new_hash expires_at now (get s.sessions id) s

unfoldable pub revoke_checked :
    Uuid → Uuid → Time → Option Session → Store → Result (Unit {0}) × Store
revoke_checked id user_id now none s = (err not_found, s)
revoke_checked id user_id now (some session) s =
    if not (session.user_id == user_id)
    then (err forbidden, s)
    else (ok tt, put_session id (revoked now session) s)

unfoldable pub revoke_session : Uuid → Uuid → Time → Store → Result (Unit {0}) × Store
revoke_session id user_id now s = revoke_checked id user_id now (get s.sessions id) s

unfoldable pub active_for : Uuid → Uuid → Time → Option Session → Bool
active_for user_id device_id now none = false
active_for user_id device_id now (some session) =
    session.user_id == user_id
    && session.device_id == device_id
    && not (is_set session.revoked_at)
    && after session.expires_at now

unfoldable pub session_active : Uuid → Uuid → Uuid → Time → Store → Bool
session_active id user_id device_id now s =
    is_set (live (get s.users user_id)) && active_for user_id device_id now (get s.sessions id)
