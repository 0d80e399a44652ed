-- ===== src/Memory/PasswordReset.antt =====
-- internal/store/memory/password_reset.go. A mail builder and a fence are the caller's functions;
-- `now` is the reading of time.Now() in the call.
pub mod Consume
pub mod Completion
pub mod Effects
pub mod Guesses
pub mod Supersede
pub mod Methods
use clixor_backend.Prelude.{
  ℕ, String, Option, none, some, List, [], ◌∷◌, Bool, true, false, not, ◌&&◌, ◌||◌, if◌then◌else◌,
  ◌==◌, nat_eq, string_eq, bytes_eq, ltb, leb, length, inc64,
}
use clixor_backend.Map.{Map, get, put, delete, update_all, retain}
use clixor_backend.Domain.{
  Uuid, Time, Bytes, User, Device, Session, PasswordResetChallenge, Error, Result, ok, err,
  not_found, unauthenticated, invalid, after,
}
use clixor_backend.Domain.Delivery.{
  MailDelivery, MailPurpose, password_reset, password_changed, mail_is_pending, MailStatus,
  canceled, is_password_reset,
}
use clixor_backend.Memory.{Store}
use clixor_backend.Memory.Outbox.{is_set}
use clixor_backend.Memory.Devices.{clear_token}

-- store.MailDeliveryBuilder, called with the user's address.
abbrev pub MailBuilder : Type 0
MailBuilder = Bytes → Result MailDelivery

-- store.PasswordResetFence: an error, or none.
abbrev pub Fence : Type 0
Fence = Uuid → Option Error

abbrev pub same_purpose : MailPurpose → MailPurpose → Bool
same_purpose password_reset password_reset = true
same_purpose password_changed password_changed = true
same_purpose _ _ = false

unfoldable pub valid_mail_delivery : MailDelivery → MailPurpose → Uuid → Bool
valid_mail_delivery delivery purpose challenge_id =
    not (delivery.id == 0)
    && delivery.challenge_id == challenge_id
    && same_purpose delivery.purpose purpose
    && leb 29 (length delivery.ciphertext)

-- The mail to queue: none when no builder is given.
unfoldable pub built_mail : MailPurpose → Uuid → Result MailDelivery → Result (Option MailDelivery)
built_mail purpose id (err e) = err e
built_mail purpose id (ok d) = if valid_mail_delivery d purpose id then ok (some d) else err invalid

unfoldable pub build_mail :
    Option MailBuilder → MailPurpose → Uuid → Bytes → Result (Option MailDelivery)
unfolding built_mail
build_mail none purpose id email = ok none
build_mail (some build) purpose id email = built_mail purpose id (build email)

unfoldable pub consume : Time → PasswordResetChallenge → PasswordResetChallenge
consume now challenge = record challenge { consumed_at = some now }

-- existing.UserID == userID && existing.ConsumedAt == nil
unfoldable pub open_for : Uuid → PasswordResetChallenge → Bool
open_for user_id challenge = challenge.user_id == user_id && not (is_set challenge.consumed_at)

unfoldable pub consume_open : Uuid → Time → Uuid → PasswordResetChallenge → PasswordResetChallenge
consume_open user_id now id challenge =
    if open_for user_id challenge then consume now challenge else challenge

unfoldable pub cancel_mail : Time → List ℕ → MailDelivery → MailDelivery
cancel_mail now error_class d = record d {
  status = MailStatus.canceled;
  lease_token = 0;
  locked_until = 0;
  canceled_at = some now;
  last_error_class = error_class;
}

-- "superseded", "challenge_consumed" and "challenge_inactive", as bytes.
abbrev pub superseded : List ℕ
superseded = b's' ∷ b'u' ∷ b'p' ∷ b'e' ∷ b'r' ∷ b's' ∷ b'e' ∷ b'd' ∷ b'e' ∷ b'd' ∷ []

abbrev pub challenge_ : List ℕ → List ℕ
challenge_ rest = b'c' ∷ b'h' ∷ b'a' ∷ b'l' ∷ b'l' ∷ b'e' ∷ b'n' ∷ b'g' ∷ b'e' ∷ b'_' ∷ rest

abbrev pub challenge_consumed : List ℕ
challenge_consumed = challenge_ (b'c' ∷ b'o' ∷ b'n' ∷ b's' ∷ b'u' ∷ b'm' ∷ b'e' ∷ b'd' ∷ [])

abbrev pub challenge_inactive : List ℕ
challenge_inactive = challenge_ (b'i' ∷ b'n' ∷ b'a' ∷ b'c' ∷ b't' ∷ b'i' ∷ b'v' ∷ b'e' ∷ [])

-- The challenge of a queued mail is open and belongs to the user.
unfoldable pub belongs_to_open : Uuid → Option PasswordResetChallenge → Bool
belongs_to_open user_id none = false
belongs_to_open user_id (some challenge) = open_for user_id challenge

unfoldable pub supersede_mail :
    Uuid → Time → Map Uuid PasswordResetChallenge → Uuid → MailDelivery → MailDelivery
supersede_mail user_id now challenges id queued =
    if belongs_to_open user_id (get challenges queued.challenge_id) && mail_is_pending queued.status
    then cancel_mail now superseded queued
    else queued

unfoldable pub queue_mail : Option MailDelivery → Map Uuid MailDelivery → Map Uuid MailDelivery
queue_mail none mails = mails
queue_mail (some d) mails = put mails d.id d

unfoldable pub store_challenge :
    PasswordResetChallenge → Time → Result (Option MailDelivery) → Store → Result (Unit {0}) × Store
store_challenge challenge now (err e) s = (err e, s)
store_challenge challenge now (ok mail) s = (
  ok tt,
  record s {
    password_resets =
        put (update_all (consume_open challenge.user_id now) s.password_resets) challenge.id
          challenge;
    mail_deliveries =
        queue_mail mail
          (update_all (supersede_mail challenge.user_id now s.password_resets) s.mail_deliveries);
  },
)

unfoldable pub create_for :
    PasswordResetChallenge
    → Option MailBuilder
    → Time
    → Option User
    → Store
    → Result (Unit {0}) × Store
create_for challenge build now none s = (err not_found, s)
create_for challenge build now (some user) s =
    store_challenge challenge now (build_mail build password_reset challenge.id user.email) s

-- createPasswordResetChallenge; the two exported methods call it with and without a builder.
unfoldable pub create_password_reset_challenge :
    PasswordResetChallenge → Option MailBuilder → Time → Store → Result (Unit {0}) × Store
unfolding create_for
create_password_reset_challenge challenge build now s =
    create_for challenge build now (get s.users challenge.user_id) s

unfoldable pub cancel_password_reset_challenge : Uuid → Store → Store
cancel_password_reset_challenge id s = record s {
  password_resets = delete s.password_resets id;
  mail_deliveries = retain (λ _ d. not (d.challenge_id == id)) s.mail_deliveries;
}
