-- ===== src/Memory/PasswordReset/Consume.antt =====
-- internal/store/memory/password_reset.go: consumePasswordResetChallenge, which the three exported
-- methods call with and without a mail builder and a fence.
use clixor_backend.Prelude.{
  ℕ, String, Option, none, some, Bool, not, ◌&&◌, ◌||◌, if◌then◌else◌, ◌==◌, nat_eq, string_eq,
  bytes_eq, leb, inc64,
}
use clixor_backend.Map.{get, put, update_all}
use clixor_backend.Domain.{
  Uuid, Time, Bytes, User, Device, Session, PasswordResetChallenge, Error, Result, ok, err,
  unauthenticated, after,
}
use clixor_backend.Domain.Delivery.{
  MailDelivery, password_changed, mail_is_pending, is_password_reset,
}
use clixor_backend.Memory.{Store}
use clixor_backend.Memory.Outbox.{is_set}
use clixor_backend.Memory.Devices.{clear_token}
use clixor_backend.Memory.Sessions.{revoked}
use clixor_backend.Memory.PasswordReset.{
  MailBuilder, Fence, build_mail, consume_open, cancel_mail, challenge_consumed, queue_mail,
}

-- store.PasswordResetCompletion
pub record PasswordResetCompletion : Type 0 where
  pub user_id : Uuid
  pub email : Bytes

-- The guards on the challenge before its code is compared.
unfoldable pub challenge_closed : ℕ → Time → PasswordResetChallenge → Bool
challenge_closed max_attempts now challenge =
    is_set challenge.consumed_at
    || not (after challenge.expires_at now)
    || leb max_attempts challenge.attempts

unfoldable pub count_attempt : PasswordResetChallenge → PasswordResetChallenge
count_attempt challenge = record challenge { attempts = inc64 challenge.attempts }

unfoldable pub set_password : String → Time → User → User
set_password new_password_hash now user = record user {
  password_hash = new_password_hash;
  updated_at = now;
}

unfoldable pub revoke_of : Uuid → Time → Uuid → Session → Session
revoke_of user_id now id session =
    if session.user_id == user_id && not (is_set session.revoked_at)
    then revoked now session
    else session

unfoldable pub clear_of : Uuid → Uuid → Device → Device
clear_of user_id id device = if device.user_id == user_id then clear_token device else device

unfoldable pub cancel_reset_mail : Uuid → Time → Uuid → MailDelivery → MailDelivery
cancel_reset_mail challenge_id now id queued =
    if queued.challenge_id == challenge_id
      && is_password_reset queued.purpose
      && mail_is_pending queued.status
    then cancel_mail now challenge_consumed queued
    else queued

-- All writes of a completed reset.
unfoldable pub complete_reset : Uuid → String → Time → Option MailDelivery → User → Store → Store
complete_reset id new_password_hash now mail user s = record s {
  users = put s.users user.id (set_password new_password_hash now user);
  sessions = update_all (revoke_of user.id now) s.sessions;
  devices = update_all (clear_of user.id) s.devices;
  password_resets = update_all (consume_open user.id now) s.password_resets;
  mail_deliveries = queue_mail mail (update_all (cancel_reset_mail id now) s.mail_deliveries);
}

unfoldable pub run_fence : Option Fence → Uuid → Option Error
run_fence none user_id = none
run_fence (some fence) user_id = fence user_id

unfoldable pub consume_fenced :
    Uuid
    → String
    → Time
    → Option MailDelivery
    → User
    → Option Error
    → Store
    → Result PasswordResetCompletion × Store
consume_fenced id new_password_hash now mail user (some e) s = (err e, s)
consume_fenced id new_password_hash now mail user none s = (
  ok (record { user_id = user.id; email = user.email }),
  complete_reset id new_password_hash now mail user s,
)

unfoldable pub consume_built :
    Uuid
    → String
    → Time
    → Option Fence
    → User
    → Result (Option MailDelivery)
    → Store
    → Result PasswordResetCompletion × Store
unfolding consume_fenced
consume_built id new_password_hash now fence user (err e) s = (err e, s)
consume_built id new_password_hash now fence user (ok mail) s =
    consume_fenced id new_password_hash now mail user (run_fence fence user.id) s

unfoldable pub consume_for :
    Uuid
    → String
    → Time
    → Option MailBuilder
    → Option Fence
    → Option User
    → Store
    → Result PasswordResetCompletion × Store
unfolding consume_built
consume_for id new_password_hash now build fence none s = (err unauthenticated, s)
consume_for id new_password_hash now build fence (some user) s =
    if user.password_hash == ""
    then (err unauthenticated, s)
    else consume_built id new_password_hash now fence user
        (build_mail build password_changed id user.email) s

unfoldable pub consume_checked :
    Uuid
    → Bytes
    → String
    → ℕ
    → Option MailBuilder
    → Option Fence
    → Time
    → Option PasswordResetChallenge
    → Store
    → Result PasswordResetCompletion × Store
unfolding consume_for
consume_checked id code_hash new_password_hash max_attempts build fence now none s =
    (err unauthenticated, s)
consume_checked id code_hash new_password_hash max_attempts build fence now (some challenge) s =
    if challenge_closed max_attempts now challenge
    then (err unauthenticated, s)
    else if not (challenge.code_hash == code_hash)
    then (
      err unauthenticated,
      record s { password_resets = put s.password_resets id (count_attempt challenge) },
    )
    else consume_for id new_password_hash now build fence (get s.users challenge.user_id) s

unfoldable pub consume_password_reset_challenge :
    Uuid
    → Bytes
    → String
    → ℕ
    → Option MailBuilder
    → Option Fence
    → Time
    → Store
    → Result PasswordResetCompletion × Store
unfolding consume_checked
consume_password_reset_challenge id code_hash new_password_hash max_attempts build fence now s =
    consume_checked id code_hash new_password_hash max_attempts build fence now
      (get s.password_resets id) s
