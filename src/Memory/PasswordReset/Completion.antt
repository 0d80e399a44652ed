-- ===== src/Memory/PasswordReset/Completion.antt =====
-- A successful password reset: what it found, what it writes, and that it happens once.
use clixor_backend.Prelude.{
  ℕ, String, Option, none, some, true, false, not, ◌≡◌, refl, sym, arith, ◌==◌, nat_eq, string_eq,
  bytes_eq, list_beq_iff, nat_beq_iff, if_cases,
}
use clixor_backend.Map.{get}
use clixor_backend.Map.Laws.{get-update_all}
use clixor_backend.Domain.{
  Uuid, Time, Bytes, User, PasswordResetChallenge, Error, Result, ok, err, unauthenticated,
}
use clixor_backend.Domain.Delivery.{MailDelivery}
use clixor_backend.Memory.{Store}
use clixor_backend.Memory.PasswordReset.{MailBuilder, Fence, consume_open, open_for, consume}
use clixor_backend.Memory.PasswordReset.Consume.{
  PasswordResetCompletion, challenge_closed, complete_reset, run_fence, consume_fenced,
  consume_built, consume_for, consume_checked, consume_password_reset_challenge,
}

-- What a successful reset found and did.
pub record Completed (id : Uuid) (code_hash : Bytes) (new_password_hash : String) (max_attempts : ℕ)
    (now : Time) (s t : Store) (c : PasswordResetCompletion) : Type 0 where
  pub challenge : PasswordResetChallenge
  pub user : User
  pub mail : Option MailDelivery
  pub found : get s.password_resets id ≡ some challenge
  pub still_open : challenge_closed max_attempts now challenge ≡ false
  pub code : challenge.code_hash ≡ code_hash
  pub owner : get s.users challenge.user_id ≡ some user
  pub completion : c.user_id ≡ user.id
  pub written : t ≡ complete_reset id new_password_hash now mail user s

module _ (id : Uuid) (new_password_hash : String) (now : Time) (s t : Store)
    (c : PasswordResetCompletion) where
  record Finished (user : User) : Type 0 where
    mail : Option MailDelivery
    completion : c.user_id ≡ user.id
    written : t ≡ complete_reset id new_password_hash now mail user s

  fenced-Finished :
      (mail : Option MailDelivery) (user : User) (o : Option Error)
      → consume_fenced id new_password_hash now mail user o s ≡ (ok c, t)
      → Finished user
  unfolding consume_fenced
  fenced-Finished mail user (some e) h = cc
  fenced-Finished mail user none h = record { mail = mail; completion = ground arith; written = cc }

  built-Finished :
      (fence : Option Fence) (user : User) (r : Result (Option MailDelivery))
      → consume_built id new_password_hash now fence user r s ≡ (ok c, t)
      → Finished user
  unfolding consume_built
  built-Finished fence user (err e) h = cc
  built-Finished fence user (ok mail) h = fenced-Finished mail user (run_fence fence user.id) h

  for-Finished :
      (build : Option MailBuilder) (fence : Option Fence) (o : Option User)
      → consume_for id new_password_hash now build fence o s ≡ (ok c, t)
      → (user : User) × (o ≡ some user) × Finished user
  unfolding consume_for
  for-Finished build fence none = λ h. cc
  for-Finished build fence (some user) =
      if_cases {A = Result PasswordResetCompletion × Store}
        (λ q. q ≡ (ok c, t) → (u : User) × (some user ≡ some u) × Finished u)
        (user.password_hash == "") _ _ (λ _ q. cc)
        (λ _ q. (user, refl, built-Finished fence user _ q))

module _ (id : Uuid) (code_hash : Bytes) (new_password_hash : String) (max_attempts : ℕ)
    (build : Option MailBuilder) (fence : Option Fence) (now : Time) (s t : Store)
    (c : PasswordResetCompletion) where
  completed :
      (challenge : PasswordResetChallenge)
      → get s.password_resets id ≡ some challenge
      → challenge_closed max_attempts now challenge ≡ false
      → (challenge.code_hash == code_hash) ≡ true
      → (user : User) × (get s.users challenge.user_id ≡ some user)
        × Finished id new_password_hash now s t c user
      → Completed id code_hash new_password_hash max_attempts now s t c
  completed challenge f o h (user, owner, v) = record {
    challenge = challenge;
    user = user;
    mail = v.mail;
    found = f;
    still_open = o;
    code = (list_beq_iff challenge.code_hash code_hash).0 h;
    owner = owner;
    completion = v.completion;
    written = v.written;
  }

  checked-Completed :
      (o : Option PasswordResetChallenge)
      → get s.password_resets id ≡ o
      → consume_checked id code_hash new_password_hash max_attempts build fence now o s ≡ (ok c, t)
      → Completed id code_hash new_password_hash max_attempts now s t c
  unfolding consume_checked
  checked-Completed none e = λ h. cc
  checked-Completed (some challenge) e =
      if_cases {A = Result PasswordResetCompletion × Store} P
        (challenge_closed max_attempts now challenge) _ _ (λ _ q. cc)
        (λ o.
          if_cases {A = Result PasswordResetCompletion × Store} P
            (not (challenge.code_hash == code_hash)) _ _ (λ _ q. cc)
            (λ h q.
              completed challenge e o (ground arith)
                (for-Finished id new_password_hash now s t c build fence _ q)))
    where
      P : Result PasswordResetCompletion × Store → Type 0
      P q = q ≡ (ok c, t) → Completed id code_hash new_password_hash max_attempts now s t c

  pub consume-Completed :
      consume_password_reset_challenge id code_hash new_password_hash max_attempts build fence now s
        ≡ (ok c, t)
      → Completed id code_hash new_password_hash max_attempts now s t c
  unfolding consume_password_reset_challenge
  consume-Completed h = checked-Completed (get s.password_resets id) refl h

-- Users are stored under their own id.
abbrev pub UsersKeyed : Store → Type 0
UsersKeyed s = (k : Uuid) (u : User) → get s.users k ≡ some u → u.id ≡ k

consumed_closed :
    (max_attempts : ℕ) (user_id id : Uuid) (now later : Time) (challenge : PasswordResetChallenge)
    → challenge.user_id ≡ user_id
    → challenge_closed max_attempts later (consume_open user_id now id challenge) ≡ true
unfolding challenge_closed consume_open open_for consume
consumed_closed max_attempts user_id id now later challenge h =
    ground (arith, nat_beq_iff challenge.user_id user_id)

pub closed_refused :
    (id : Uuid) (code_hash : Bytes) (new_password_hash : String) (max_attempts : ℕ)
    (build : Option MailBuilder) (fence : Option Fence) (now : Time) (s : Store)
    (challenge : PasswordResetChallenge)
    → get s.password_resets id ≡ some challenge
    → challenge_closed max_attempts now challenge ≡ true
    → consume_password_reset_challenge id code_hash new_password_hash max_attempts build fence now s
      ≡ (err unauthenticated, s)
unfolding consume_password_reset_challenge consume_checked
closed_refused id code_hash new_password_hash max_attempts build fence now s challenge f h =
    rw f (rw h refl)

-- A challenge is good for one reset: after a success, presenting the same challenge again, with
-- any code, limit, builder and fence and at any time, is refused and changes nothing, provided the
-- users were stored under their own ids.
pub consume_once :
    (id : Uuid) (code_hash code_hash' : Bytes) (password password' : String)
    (max_attempts max_attempts' : ℕ) (build build' : Option MailBuilder)
    (fence fence' : Option Fence) (now later : Time) (s t : Store) (c : PasswordResetCompletion)
    → UsersKeyed s
    → consume_password_reset_challenge id code_hash password max_attempts build fence now s
      ≡ (ok c, t)
    → consume_password_reset_challenge id code_hash' password' max_attempts' build' fence' later t
      ≡ (err unauthenticated, t)
consume_once id code_hash code_hash' password password' max_attempts max_attempts' build build'
      fence fence' now later s t c keyed h =
    closed_refused id code_hash' password' max_attempts' build' fence' later t
      (consume_open v.user.id now id v.challenge) found
      (consumed_closed max_attempts' v.user.id id now later v.challenge
        (sym (keyed v.challenge.user_id v.user v.owner)))
  where
    v : Completed id code_hash password max_attempts now s t c
    v = consume-Completed id code_hash password max_attempts build fence now s t c h

    found : get t.password_resets id ≡ some (consume_open v.user.id now id v.challenge)
    found = unfold complete_reset in rw (v.written, complete_reset, get-update_all, v.found) refl
