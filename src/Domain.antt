-- ===== src/Domain.antt =====
-- internal/domain: the errors and the records that cross the store boundary.
-- A UUID is the number that its 16 bytes spell, so that uuid.Nil is 0 and the order of the
-- canonical strings is the order of the numbers. A time is a number of nanoseconds, 0 the zero
-- time; a *time.Time is an option. Opaque text (names, JSON documents) is a String; a []byte, and
-- a string that the source takes apart, is the list of its bytes; and a field that ranges over
-- named string constants is a data type.
pub mod Delivery
pub mod Chat
pub mod Media
use clixor_backend.Text.{trim_space, to_lower}
use clixor_backend.Prelude.{
  ℕ, String, Option, none, some, List, Bool, if◌then◌else◌, ◌==◌, ◌||◌, ltb, string_eq,
}

abbrev pub Uuid : Type 0
Uuid = ℕ

abbrev pub Time : Type 0
Time = ℕ

abbrev pub Bytes : Type 0
Bytes = List ℕ

-- t.After(u) and t.Before(u)
abbrev pub after : Time → Time → Bool
after t u = ltb u t

abbrev pub before : Time → Time → Bool
before t u = ltb t u

-- The error values of models.go. `other_error` is an error that a callback returned.
pub data Error : Type 0 where
  not_found conflict forbidden unauthenticated invalid : Error
  invite_revoked invite_expired invite_exhausted quota_exceeded media_expired : Error
  other_error : String → Error

-- What a method returns beside its error.
pub data Result {ℓ} (A : Type ℓ) : Type ℓ where
  ok : A → Result A
  err : Error → Result A

pub record User : Type 0 where
  pub id : Uuid
  pub email : Bytes
  pub phone : String
  pub display_name : String
  pub avatar_url : Bytes
  pub profile : String
  pub password_hash : String
  pub created_at : Time
  pub updated_at : Time

pub record AgeAssurance : Type 0 where
  pub user_id : Uuid
  pub status : String
  pub minimum_age : ℕ
  pub source : String
  pub declaration : String
  pub policy_version : String
  pub checked_at : Time
  pub expires_at : Option Time

pub record Device : Type 0 where
  pub id : Uuid
  pub user_id : Uuid
  pub name : String
  pub platform : String
  pub push_token : Bytes
  pub identity_key : String
  pub signed_pre_key : String
  pub last_seen_at : Time
  pub created_at : Time

pub record Session : Type 0 where
  pub id : Uuid
  pub user_id : Uuid
  pub device_id : Uuid
  pub refresh_token_hash : Bytes
  pub previous_refresh_token_hash : Bytes
  pub expires_at : Time
  pub revoked_at : Option Time
  pub created_at : Time

pub record PasswordResetChallenge : Type 0 where
  pub id : Uuid
  pub user_id : Uuid
  pub code_hash : Bytes
  pub attempts : ℕ
  pub expires_at : Time
  pub consumed_at : Option Time
  pub created_at : Time

-- Its `id` column is PostgreSQL's and unused by the memory store.
pub record OneTimePreKey : Type 0 where
  pub device_id : Uuid
  pub key_id : ℕ
  pub public_key : String
  pub claimed_at : Option Time

pub record PreKeyBundle : Type 0 where
  pub device_id : Uuid
  pub identity_key : String
  pub signed_pre_key : String
  pub one_time_pre_key : Option OneTimePreKey

-- The profile that an erased account keeps.
abbrev pub deleted_profile : String
deleted_profile = "{\"deleted\":true}"

-- string(user.Profile) == `{"deleted":true}`
unfoldable pub is_deleted : User → Bool
is_deleted u = u.profile == deleted_profile

-- domain.MobilePlatform
unfoldable pub mobile_platform : String → Bool
mobile_platform platform = platform == "ios" || platform == "android"

-- user, ok := s.users[id]; !ok || is_deleted(user)
unfoldable pub live : Option User → Option User
live none = none
live (some u) = if is_deleted u then none else some u

-- domain.NormalizePushToken
unfoldable pub normalize_push_token : String → Bytes → Bytes
normalize_push_token platform token =
    if platform == "android" then trim_space token else to_lower (trim_space token)
