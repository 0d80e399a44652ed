-- ===== src/Memory/PasswordReset/Effects.antt =====
-- What a completed reset leaves of the account.
use clixor_backend.Prelude.{
  ℕ, String, Option, some, [], true, ◌≡◌, refl, arith, nat_eq, nat_beq_iff,
}
use clixor_backend.Map.{get}
use clixor_backend.Map.Laws.{get-put, update_all_every, beq_refl}
use clixor_backend.Domain.{Uuid, Time, Bytes, User, Device, Session, PasswordResetChallenge, ok}
use clixor_backend.Domain.Delivery.{MailDelivery}
use clixor_backend.Memory.{Store}
use clixor_backend.Memory.Outbox.{is_set}
use clixor_backend.Memory.Devices.{clear_token}
use clixor_backend.Memory.Sessions.{revoked}
use clixor_backend.Memory.PasswordReset.{MailBuilder, Fence, consume_open, open_for, consume}
use clixor_backend.Memory.PasswordReset.Consume.{
  PasswordResetCompletion, complete_reset, consume_password_reset_challenge, revoke_of, clear_of,
  set_password,
}
use clixor_backend.Memory.PasswordReset.Completion.{Completed, consume-Completed}

-- The account of `user_id` after a reset to `password`.
pub record AccountReset (user_id : Uuid) (password : String) (t : Store) : Type 0 where
  pub account : User
  pub kept : get t.users user_id ≡ some account
  pub hash : account.password_hash ≡ password
  pub logged_out :
      (k : Uuid) (x : Session)
      → get t.sessions k ≡ some x
      → x.user_id ≡ user_id
      → is_set x.revoked_at ≡ true
  pub silenced :
      (k : Uuid) (d : Device) → get t.devices k ≡ some d → d.user_id ≡ user_id → d.push_token ≡ []
  pub spent :
      (k : Uuid) (x : PasswordResetChallenge)
      → get t.password_resets k ≡ some x
      → x.user_id ≡ user_id
      → is_set x.consumed_at ≡ true

revoke_of_set :
    (user_id : Uuid) (now : Time) (k : Uuid) (x : Session)
    → (revoke_of user_id now k x).user_id ≡ user_id
    → is_set (revoke_of user_id now k x).revoked_at ≡ true
unfolding revoke_of revoked
revoke_of_set user_id now k x h = ground (arith, nat_beq_iff x.user_id user_id)

clear_of_empty :
    (user_id k : Uuid) (d : Device)
    → (clear_of user_id k d).user_id ≡ user_id
    → (clear_of user_id k d).push_token ≡ []
unfolding clear_of clear_token
clear_of_empty user_id k d h = ground (arith, nat_beq_iff d.user_id user_id)

consume_open_set :
    (user_id : Uuid) (now : Time) (k : Uuid) (x : PasswordResetChallenge)
    → (consume_open user_id now k x).user_id ≡ user_id
    → is_set (consume_open user_id now k x).consumed_at ≡ true
unfolding consume_open open_for consume
consume_open_set user_id now k x h = ground (arith, nat_beq_iff x.user_id user_id)

complete-AccountReset :
    (id : Uuid) (password : String) (now : Time) (mail : Option MailDelivery) (user : User)
    (s : Store)
    → AccountReset user.id password (complete_reset id password now mail user s)
unfolding complete_reset set_password
complete-AccountReset id password now mail user s = record {
  account = set_password password now user;
  kept = rw (get-put, beq_refl user.id) refl;
  hash = refl;
  logged_out =
      update_all_every (λ x. x.user_id ≡ user.id → is_set x.revoked_at ≡ true)
        (revoke_of user.id now) s.sessions (revoke_of_set user.id now);
  silenced =
      update_all_every (λ d. d.user_id ≡ user.id → d.push_token ≡ []) (clear_of user.id) s.devices
        (clear_of_empty user.id);
  spent =
      update_all_every (λ x. x.user_id ≡ user.id → is_set x.consumed_at ≡ true)
        (consume_open user.id now) s.password_resets (consume_open_set user.id now);
}

-- A successful reset takes the account over whole: the stored password hash is the new one,
-- every session of the user is revoked, every device of the user has lost its push token, and no
-- reset challenge of the user is open.
pub consume-AccountReset :
    (id : Uuid) (code_hash : Bytes) (password : String) (max_attempts : ℕ)
    (build : Option MailBuilder) (fence : Option Fence) (now : Time) (s t : Store)
    (c : PasswordResetCompletion)
    → consume_password_reset_challenge id code_hash password max_attempts build fence now s
      ≡ (ok c, t)
    → AccountReset c.user_id password t
consume-AccountReset id code_hash password max_attempts build fence now s t c h =
    rw (v.written, v.completion) (complete-AccountReset id password now v.mail v.user s)
  where
    v : Completed id code_hash password max_attempts now s t c
    v = consume-Completed id code_hash password max_attempts build fence now s t c h
