-- ===== src/Memory/PasswordReset/Supersede.antt =====
-- A new challenge replaces the open ones of its user, and a refused consumption changes at most the
-- challenges.
use clixor_backend.Prelude.{
  ℕ, String, Option, none, some, true, false, not, ◌≡◌, refl, ap, subst, arith, ◌==◌, nat_eq,
  nat_beq_iff, if_cases, if_both, bytes_eq, string_eq,
}
use clixor_backend.Map.{Map, get, put, update_all}
use clixor_backend.Map.Laws.{get-put, update_all_every}
use clixor_backend.Domain.{Uuid, Time, Bytes, User, PasswordResetChallenge, Error, Result, ok, err}
use clixor_backend.Domain.Delivery.{MailDelivery, password_reset, password_changed}
use clixor_backend.Memory.{Store}
use clixor_backend.Memory.PasswordReset.{
  MailBuilder, Fence, consume_open, open_for, consume, store_challenge, create_for, build_mail,
  create_password_reset_challenge,
}
use clixor_backend.Memory.PasswordReset.Consume.{
  PasswordResetCompletion, challenge_closed, run_fence, consume_fenced, consume_built, consume_for,
  consume_checked, consume_password_reset_challenge,
}

consume_open_closed :
    (user_id : Uuid) (now : Time) (k : Uuid) (x : PasswordResetChallenge)
    → open_for user_id (consume_open user_id now k x) ≡ false
unfolding consume_open open_for consume
consume_open_closed user_id now k x = ground (arith, nat_beq_iff x.user_id user_id)

abbrev OnlyOpen : PasswordResetChallenge → Store → Type 0
OnlyOpen challenge t =
    (k : Uuid) (x : PasswordResetChallenge)
    → get t.password_resets k ≡ some x
    → open_for challenge.user_id x ≡ true
    → k ≡ challenge.id

put_only_open :
    (challenge : PasswordResetChallenge) (now : Time) (m : Map Uuid PasswordResetChallenge)
    (k : Uuid) (x : PasswordResetChallenge)
    → get (put (update_all (consume_open challenge.user_id now) m) challenge.id challenge) k
      ≡ some x
    → open_for challenge.user_id x ≡ true
    → k ≡ challenge.id
put_only_open challenge now m k x h =
    if_cases (λ o. o ≡ some x → open_for challenge.user_id x ≡ true → k ≡ challenge.id)
      (challenge.id == k) (some challenge)
      (get (update_all (consume_open challenge.user_id now) m) k) (λ e q p. ground arith)
      (λ e q p. absurd (
        cc (
          p,
          update_all_every (λ y. open_for challenge.user_id y ≡ false)
              (consume_open challenge.user_id now) m (consume_open_closed challenge.user_id now) k x
              q,
        )))
      (rw get-put at h)

stored-OnlyOpen :
    (challenge : PasswordResetChallenge) (now : Time) (r : Result (Option MailDelivery))
    (s t : Store)
    → store_challenge challenge now r s ≡ (ok tt, t)
    → OnlyOpen challenge t
unfolding store_challenge
stored-OnlyOpen challenge now (err e) s t h = cc
stored-OnlyOpen challenge now (ok mail) s t h =
    λ k x p. put_only_open challenge now s.password_resets k x (rw (← resets) at p)
  where
    resets :
        put
          (update_all (consume_open challenge.user_id now) s.password_resets)
          challenge.id
          challenge
        ≡ t.password_resets
    resets = cc

created-OnlyOpen :
    (challenge : PasswordResetChallenge) (build : Option MailBuilder) (now : Time) (o : Option User)
    (s t : Store)
    → create_for challenge build now o s ≡ (ok tt, t)
    → OnlyOpen challenge t
unfolding create_for
created-OnlyOpen challenge build now none s t h = cc
created-OnlyOpen challenge build now (some user) s t h =
    stored-OnlyOpen challenge now (build_mail build password_reset challenge.id user.email) s t h

-- Creating a challenge closes every earlier one of the same user: afterwards the only challenge
-- of the user that can be open is the new one.
pub create_supersedes :
    (challenge : PasswordResetChallenge) (build : Option MailBuilder) (now : Time) (s t : Store)
    → create_password_reset_challenge challenge build now s ≡ (ok tt, t)
    → (k : Uuid) (x : PasswordResetChallenge) → get t.password_resets k ≡ some x
    → open_for challenge.user_id x ≡ true
    → k ≡ challenge.id
unfolding create_password_reset_challenge
create_supersedes challenge build now s t h =
    created-OnlyOpen challenge build now (get s.users challenge.user_id) s t h

-- Nothing changed but, possibly, the challenges.
abbrev pub OnlyAttempts : Store → Result PasswordResetCompletion × Store → Type 0
OnlyAttempts s q =
    (e : Error) → q.0 ≡ err e → q.1 ≡ record s { password_resets = q.1.password_resets }

fenced_refused :
    (id : Uuid) (password : String) (now : Time) (mail : Option MailDelivery) (user : User)
    (o : Option Error) (s : Store)
    → OnlyAttempts s (consume_fenced id password now mail user o s)
unfolding consume_fenced
fenced_refused id password now mail user (some e) s = λ _ _. refl
fenced_refused id password now mail user none s = λ e h. cc

built_refused :
    (id : Uuid) (password : String) (now : Time) (fence : Option Fence) (user : User)
    (r : Result (Option MailDelivery)) (s : Store)
    → OnlyAttempts s (consume_built id password now fence user r s)
unfolding consume_built
built_refused id password now fence user (err e) s = λ _ _. refl
built_refused id password now fence user (ok mail) s =
    fenced_refused id password now mail user (run_fence fence user.id) s

for_refused :
    (id : Uuid) (password : String) (now : Time) (build : Option MailBuilder) (fence : Option Fence)
    (o : Option User) (s : Store)
    → OnlyAttempts s (consume_for id password now build fence o s)
unfolding consume_for
for_refused id password now build fence none s = λ _ _. refl
for_refused id password now build fence (some user) s =
    if_both {A = Result PasswordResetCompletion × Store} (OnlyAttempts s) (user.password_hash == "")
      _ _ (λ _ _. refl)
      (built_refused id password now fence user (build_mail build password_changed id user.email) s)

checked_refused :
    (id : Uuid) (code : Bytes) (password : String) (max_attempts : ℕ) (build : Option MailBuilder)
    (fence : Option Fence) (now : Time) (o : Option PasswordResetChallenge) (s : Store)
    → OnlyAttempts s (consume_checked id code password max_attempts build fence now o s)
unfolding consume_checked
checked_refused id code password max_attempts build fence now none s = λ _ _. refl
checked_refused id code password max_attempts build fence now (some challenge) s =
    if_both {A = Result PasswordResetCompletion × Store} (OnlyAttempts s)
      (challenge_closed max_attempts now challenge) _ _ (λ _ _. refl)
      (if_both {A = Result PasswordResetCompletion × Store} (OnlyAttempts s)
        (not (challenge.code_hash == code)) _ _ (λ _ _. refl)
        (for_refused id password now build fence (get s.users challenge.user_id) s))

-- A refused reset is harmless: whatever the error (a missing, spent, expired or exhausted
-- challenge, a wrong code, a missing user, a failing mail builder, an invalid mail, a failing
-- fence), users, sessions, devices, mail and all else stay as they were; only the map of
-- challenges may differ.
pub consume_refused :
    (id : Uuid) (code : Bytes) (password : String) (max_attempts : ℕ) (build : Option MailBuilder)
    (fence : Option Fence) (now : Time) (s t : Store) (e : Error)
    → consume_password_reset_challenge id code password max_attempts build fence now s ≡ (err e, t)
    → t ≡ record s { password_resets = t.password_resets }
unfolding consume_password_reset_challenge
consume_refused id code password max_attempts build fence now s t e h =
    subst (λ (u : Store). u ≡ record s { password_resets = u.password_resets })
      (ap (λ (q : Result PasswordResetCompletion × Store). q.1) h)
      (checked_refused id code password max_attempts build fence now (get s.password_resets id) s e
        (ap (λ (q : Result PasswordResetCompletion × Store). q.0) h))
