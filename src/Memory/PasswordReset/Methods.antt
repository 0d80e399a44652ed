-- ===== src/Memory/PasswordReset/Methods.antt =====
-- internal/store/memory/password_reset.go: the exported methods, which pass a mail builder and a
-- fence on or leave them out.
use clixor_backend.Prelude.{ℕ, String, Option, none, some}
use clixor_backend.Domain.{Uuid, Time, Bytes, PasswordResetChallenge, Result, ok, err, invalid}
use clixor_backend.Memory.{Store}
use clixor_backend.Memory.PasswordReset.{
  MailBuilder, Fence, create_password_reset_challenge as create,
}
use clixor_backend.Memory.PasswordReset.Consume.{
  PasswordResetCompletion, consume_password_reset_challenge,
}

-- CreatePasswordResetChallenge
pub create_challenge : PasswordResetChallenge → Time → Store → Result (Unit {0}) × Store
create_challenge challenge now s = create challenge none now s

-- CreatePasswordResetChallengeWithMail
pub create_challenge_with_mail :
    PasswordResetChallenge → Option MailBuilder → Time → Store → Result (Unit {0}) × Store
create_challenge_with_mail challenge none now s = (err invalid, s)
create_challenge_with_mail challenge (some build) now s = create challenge (some build) now s

-- completion.Email
abbrev pub email_of : Result PasswordResetCompletion × Store → Result Bytes × Store
email_of (ok c, s) = (ok c.email, s)
email_of (err e, s) = (err e, s)

-- ConsumePasswordResetChallenge
pub consume_challenge : Uuid → Bytes → String → ℕ → Time → Store → Result Bytes × Store
consume_challenge id code_hash password max_attempts now s =
    email_of (consume_password_reset_challenge id code_hash password max_attempts none none now s)

-- ConsumePasswordResetChallengeWithMail
pub consume_challenge_with_mail :
    Uuid
    → Bytes
    → String
    → ℕ
    → Option MailBuilder
    → Time
    → Store
    → Result PasswordResetCompletion × Store
consume_challenge_with_mail id code_hash password max_attempts none now s = (err invalid, s)
consume_challenge_with_mail id code_hash password max_attempts (some build) now s =
    consume_password_reset_challenge id code_hash password max_attempts (some build) none now s

-- ConsumePasswordResetChallengeWithMailAndFence
pub consume_challenge_fenced :
    Uuid
    → Bytes
    → String
    → ℕ
    → Option MailBuilder
    → Option Fence
    → Time
    → Store
    → Result PasswordResetCompletion × Store
consume_challenge_fenced id code_hash password max_attempts (some build) (some fence) now s =
    consume_password_reset_challenge id code_hash password max_attempts (some build) (some fence)
      now s
consume_challenge_fenced id code_hash password max_attempts (some build) none now s =
    (err invalid, s)
consume_challenge_fenced id code_hash password max_attempts none fence now s = (err invalid, s)
