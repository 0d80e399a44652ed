-- ===== src/Auth.antt =====
-- internal/auth/tokens.go: the token manager (IssueWithDevice, Refresh, pair, parseRefreshToken,
-- refreshHash). github.com/google/uuid, crypto/sha256 and the signing of github.com/golang-jwt/jwt
-- are the parameter `lib`. What randomToken returns is an argument, none when it fails; `now` is
-- the manager's clock and the store's.
pub mod Replay
mod Examples
use clixor_backend.Prelude.{
  ℕ, ◌+◌, ◌-◌, String, Option, none, some, List, [], ◌∷◌, ◌++◌, Bool, true, false, if◌then◌else◌,
  ◌==◌, nat_eq, ltb, length,
}
use clixor_backend.Domain.{
  Uuid, Time, Bytes, User, Device, Session, Result, ok, err, unauthenticated, other_error,
}
use clixor_backend.Memory.{Store}
use clixor_backend.Memory.Sessions.{SessionIssueParams, issue_session, rotate_session}

-- Claims and the registered claims that pair fills in.
pub record Claims : Type 0 where
  pub device_id : Bytes
  pub session_id : Bytes
  pub subject : Bytes
  pub issued_at : Time
  pub not_before : Time
  pub expires_at : Time
  pub id : Bytes

pub record TokenPair : Type 0 where
  pub access_token : Bytes
  pub refresh_token : Bytes
  pub expires_at : Time

-- `parse_uuid` is none where uuid.Parse returns an error, `sign` where SignedString does.
pub record TokenLibrary : Type 0 where
  pub uuid_text : Uuid → Bytes
  pub parse_uuid : Bytes → Option Uuid
  pub sha256 : Bytes → Bytes
  pub sign : Claims → Option Bytes

-- TokenManager, without the issuer and secret that `sign` knows.
pub record TokenManager : Type 0 where
  pub access_ttl : Time
  pub refresh_ttl : Time

-- The two parts of strings.SplitN(value, ".", 2), none without a dot.
unfoldable pub split_dot : Bytes → Option (Bytes × Bytes)
split_dot [] = none
split_dot (c ∷ cs) =
    let rest = split_dot cs in if c == b'.' then some ([], cs) else with_head c rest
  where
    with_head : ℕ → Option (Bytes × Bytes) → Option (Bytes × Bytes)
    with_head c none = none
    with_head c (some p) = some (c ∷ p.0, p.1)

abbrev pub with_secret : Bytes → Option Uuid → Option (Uuid × Bytes)
with_secret secret none = none
with_secret secret (some id) = some (id, secret)

module _ (lib : TokenLibrary) where
  unfoldable pub parsed_parts : Option (Bytes × Bytes) → Option (Uuid × Bytes)
  parsed_parts none = none
  parsed_parts (some p) = if ltb (length p.1) 40 then none else with_secret p.1 (lib.parse_uuid p.0)

  -- parseRefreshToken
  unfoldable pub parse_refresh_token : Bytes → Option (Uuid × Bytes)
  unfolding parsed_parts
  parse_refresh_token value = parsed_parts (split_dot value)

  -- sessionID.String() + "." + refreshSecret
  unfoldable pub refresh_token_of : Uuid → Bytes → Bytes
  refresh_token_of session_id secret = lib.uuid_text session_id ++ b'.' ∷ secret

  unfoldable pub signed_pair : Uuid → Bytes → Time → Option Bytes → Result TokenPair
  unfolding refresh_token_of
  signed_pair session_id secret expires_at none = err (other_error "sign access token")
  signed_pair session_id secret expires_at (some access) = ok (record {
    access_token = access;
    refresh_token = refresh_token_of session_id secret;
    expires_at = expires_at;
  })

  module _ (manager : TokenManager) where
    -- pair; `token_id` is the value of uuid.NewString().
    unfoldable pub pair : Bytes → Uuid → Uuid → Uuid → Bytes → Time → Result TokenPair
    unfolding signed_pair
    pair token_id user_id device_id session_id secret now =
        signed_pair session_id secret (now + manager.access_ttl) (
          lib.sign (record {
            device_id = lib.uuid_text device_id;
            session_id = lib.uuid_text session_id;
            subject = lib.uuid_text user_id;
            issued_at = now;
            not_before = now - 5_000_000_000;
            expires_at = now + manager.access_ttl;
            id = token_id;
          }))

    unfoldable pub paired : Bytes → Bytes → Time → Result Session × Store → Result TokenPair × Store
    unfolding pair
    paired token_id secret now (err e, s) = (err unauthenticated, s)
    paired token_id secret now (ok session, s) =
        (pair token_id session.user_id session.device_id session.id secret now, s)

    unfoldable pub refresh_parsed :
        Bytes → Option Bytes → Time → Option (Uuid × Bytes) → Store → Result TokenPair × Store
    unfolding paired
    refresh_parsed token_id secret now none s = (err unauthenticated, s)
    refresh_parsed token_id none now (some p) s = (err (other_error "random token"), s)
    refresh_parsed token_id (some secret) now (some (id, old)) s =
        paired token_id secret now
          (rotate_session id (lib.sha256 old) (lib.sha256 secret) (now + manager.refresh_ttl) now s)

    -- Refresh
    unfoldable pub refresh : Bytes → Option Bytes → Time → Bytes → Store → Result TokenPair × Store
    unfolding refresh_parsed
    refresh token_id secret now value s =
        refresh_parsed token_id secret now (parse_refresh_token value) s

    abbrev pub expected_or_empty : Option String → String
    expected_or_empty none = ""
    expected_or_empty (some hash) = hash

    abbrev pub is_expected : Option String → Bool
    is_expected none = false
    is_expected (some hash) = true

    -- The parameters of IssueSession.
    unfoldable pub issue_params :
        Uuid → Option String → Device → Uuid → Bytes → Time → SessionIssueParams
    issue_params user_id expected device session_id secret now = record {
      user_id = user_id;
      expected_password_hash = expected_or_empty expected;
      require_password_hash_match = is_expected expected;
      device = device;
      session = record {
        id = session_id;
        user_id = user_id;
        device_id = device.id;
        refresh_token_hash = lib.sha256 secret;
        previous_refresh_token_hash = [];
        expires_at = now + manager.refresh_ttl;
        revoked_at = none;
        created_at = now;
      };
    }

    abbrev pub with_pair : User × Device → Result TokenPair → Result (User × (Device × TokenPair))
    with_pair p (err e) = err e
    with_pair p (ok tokens) = ok (p.0, (p.1, tokens))

    unfoldable pub issued :
        Bytes
        → Uuid
        → Uuid
        → Bytes
        → Time
        → Result (User × Device) × Store
        → Result (User × (Device × TokenPair)) × Store
    unfolding pair
    issued token_id user_id session_id secret now (err e, s) = (err e, s)
    issued token_id user_id session_id secret now (ok p, s) =
        (with_pair p (pair token_id user_id p.1.id session_id secret now), s)

    -- IssueWithDevice; `session_id` is the value of uuid.New().
    unfoldable pub issue_with_device :
        Bytes
        → Uuid
        → Option Bytes
        → Time
        → Uuid
        → Option String
        → Device
        → Store
        → Result (User × (Device × TokenPair)) × Store
    unfolding issued issue_params
    issue_with_device token_id session_id none now user_id expected device s =
        (err (other_error "random token"), s)
    issue_with_device token_id session_id (some secret) now user_id expected device s =
        issued token_id user_id session_id secret now
          (issue_session now (issue_params user_id expected device session_id secret now) s)
