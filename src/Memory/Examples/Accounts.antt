-- ===== src/Memory/Examples/Accounts.antt =====
-- Sessions and devices of one user.
use clixor_backend.Prelude.{
  ◌≡◌, refl, none, some, [], ◌∷◌, true, false, arith, ◌==◌, nat_eq, string_eq, bytes_eq, if_cases,
}
use clixor_backend.Map.{get, put, find}
use clixor_backend.Domain.{
  Uuid, User, Device, Session, PasswordResetChallenge, err, unauthenticated, live, is_deleted,
  normalize_push_token,
}
use clixor_backend.Text.{trim_space, trim_left, to_lower}
use clixor_backend.Memory.{Store, new_store}
use clixor_backend.Memory.Devices.{
  upsert_device, clear_device_push_token, resolve_device, stamp_device, other_installation,
  merge_device,
}
use clixor_backend.Memory.Devices.Tokens.{TokensUnique, devices-TokensUnique}
use clixor_backend.Memory.Sessions.{
  SessionIssueParams, rotate_session, rotate_checked, rotate_found, session_dead, equal_token_hash,
  rotated, put_session, revoke_session, revoke_checked, session_active, issue_session, issue_for,
  issue_params_invalid, password_mismatch, store_session, normalized_device, empty_pre_key,
}
use clixor_backend.Memory.Sessions.Rotation.{rotate_reuse}
use clixor_backend.Memory.Sessions.Issue.{Issued, issue_session-Issued, revoke_session_final}

abbrev pub user : User
user = record {
  id = 1;
  email = b'a' ∷ [];
  phone = "";
  display_name = "";
  avatar_url = [];
  profile = "{}";
  password_hash = "old";
  created_at = 1;
  updated_at = 1;
}

abbrev session : Session
session = record {
  id = 5;
  user_id = 1;
  device_id = 3;
  refresh_token_hash = 11 ∷ [];
  previous_refresh_token_hash = [];
  expires_at = 100;
  revoked_at = none;
  created_at = 1;
}

abbrev pub device : Device
device = record {
  id = 3;
  user_id = 1;
  name = "";
  platform = "web";
  push_token = [];
  identity_key = "";
  signed_pre_key = "";
  last_seen_at = 1;
  created_at = 1;
}

abbrev pub challenge : PasswordResetChallenge
challenge = record {
  id = 7;
  user_id = 1;
  code_hash = 42 ∷ [];
  attempts = 0;
  expires_at = 100;
  consumed_at = none;
  created_at = 1;
}

abbrev pub one_account : Store
one_account = record new_store {
  users = record { entries = (1, user) ∷ [] };
  devices = record { entries = (3, device) ∷ [] };
  sessions = record { entries = (5, session) ∷ [] };
  password_resets = record { entries = (7, challenge) ∷ [] };
}

abbrev after_rotation : Store
after_rotation = record one_account {
  sessions = put one_account.sessions 5 (rotated (12 ∷ []) 200 session);
}

rotate_reuse_example :
    ((rotate_session 5 (11 ∷ []) (13 ∷ []) 300 20 after_rotation).0 ≡ err unauthenticated)
    × ((rotate_session 5
          (12 ∷ [])
          (14 ∷ [])
          300
          30
          (rotate_session 5 (11 ∷ []) (13 ∷ []) 300 20 after_rotation).1).0
        ≡ err unauthenticated)
rotate_reuse_example =
    rotate_reuse 5 (11 ∷ []) (12 ∷ []) (13 ∷ []) (14 ∷ []) 200 300 300 10 20 30 one_account
      after_rotation (rotated (12 ∷ []) 200 session)
      (unfold rotate_session rotate_checked rotate_found session_dead equal_token_hash put_session
          live is_deleted get find in
        refl)
      (λ p. cc) (omega arith)

abbrev after_revocation : Store
after_revocation = (revoke_session 5 1 10 one_account).1

revoke_session_final_example :
    (session_active 5 1 3 20 after_revocation ≡ false)
    × (rotate_session 5 (11 ∷ []) (12 ∷ []) 300 20 after_revocation
        ≡ (err unauthenticated, after_revocation))
revoke_session_final_example =
    revoke_session_final 5 1 1 3 (11 ∷ []) (12 ∷ []) 300 10 20 one_account after_revocation
      (unfold revoke_session revoke_checked get find in refl)

only_device :
    (i : Uuid) (d : Device) → get one_account.devices i ≡ some d → d.push_token ≡ device.push_token
unfolding get find
only_device i d =
    if_cases (λ o. o ≡ some d → d.push_token ≡ device.push_token) (3 == i) (some device) none
      (λ _ p. cc) (λ _ p. cc)

one_account-TokensUnique : TokensUnique one_account.devices
one_account-TokensUnique = record { one_row = λ i j d e p q n r t. absurd (n (only_device i d p)) }

devices-TokensUnique_example :
    TokensUnique (upsert_device 9 4 device one_account).1.devices
    × TokensUnique (clear_device_push_token 1 3 one_account).1.devices
devices-TokensUnique_example =
    devices-TokensUnique 9 4 device 1 3 one_account one_account-TokensUnique

abbrev login : SessionIssueParams
login = record {
  user_id = 1;
  expected_password_hash = "old";
  require_password_hash_match = true;
  device = device;
  session = session;
}

issue_session-Issued_example :
    Issued login one_account (issue_session 9 login one_account).1 user (stamp_device 9 device)
issue_session-Issued_example =
    issue_session-Issued 9 login one_account (issue_session 9 login one_account).1 user
      (stamp_device 9 device) one_account-TokensUnique
      (unfold issue_session issue_for issue_params_invalid password_mismatch store_session
          normalized_device normalize_push_token trim_space trim_left to_lower resolve_device
          other_installation merge_device empty_pre_key stamp_device live is_deleted get find in
        refl)
