-- ===== src/Memory/Examples/Resets.antt =====
-- Password resets of one user.
use clixor_backend.Prelude.{
  ◌≡◌, refl, none, some, List, [], ◌∷◌, arith, ◌==◌, nat_eq, string_eq, bytes_eq, if_cases,
}
use clixor_backend.Map.{get, put, find, without}
use clixor_backend.Domain.{Uuid, Time, Bytes, PasswordResetChallenge, ok, err, unauthenticated}
use clixor_backend.Memory.{Store}
use clixor_backend.Memory.PasswordReset.{
  build_mail, open_for, create_password_reset_challenge, create_for, store_challenge,
}
use clixor_backend.Memory.PasswordReset.Consume.{
  PasswordResetCompletion, challenge_closed, run_fence, consume_fenced, consume_built, consume_for,
  consume_checked, consume_password_reset_challenge,
}
use clixor_backend.Memory.PasswordReset.Completion.{UsersKeyed, consume_once}
use clixor_backend.Memory.PasswordReset.Effects.{AccountReset, consume-AccountReset}
use clixor_backend.Memory.PasswordReset.Guesses.{guesses, guesses_exhausted}
use clixor_backend.Memory.PasswordReset.Supersede.{create_supersedes, consume_refused}
use clixor_backend.Memory.Examples.Accounts.{user, challenge, one_account}

-- What the reset of the account answers, and what it leaves.
abbrev completion : PasswordResetCompletion
completion = record { user_id = 1; email = b'a' ∷ [] }

abbrev after_reset : Store
after_reset = (consume_password_reset_challenge 7 (42 ∷ []) "new" 5 none none 10 one_account).1

reset_completed :
    consume_password_reset_challenge 7 (42 ∷ []) "new" 5 none none 10 one_account
    ≡ (ok completion, after_reset)
unfolding consume_password_reset_challenge consume_checked challenge_closed consume_for
    consume_built run_fence build_mail consume_fenced get find
reset_completed = refl

consume-AccountReset_example : AccountReset 1 "new" after_reset
consume-AccountReset_example =
    consume-AccountReset 7 (42 ∷ []) "new" 5 none none 10 one_account after_reset completion
      reset_completed

one_account-UsersKeyed : UsersKeyed one_account
unfolding get find
one_account-UsersKeyed k u =
    if_cases (λ o. o ≡ some u → u.id ≡ k) (1 == k) (some user) none (λ e p. ground (arith, p))
      (λ _ p. cc)

consume_once_example :
    consume_password_reset_challenge 7 (42 ∷ []) "newer" 5 none none 11 after_reset
    ≡ (err unauthenticated, after_reset)
consume_once_example =
    consume_once 7 (42 ∷ []) (42 ∷ []) "new" "newer" 5 5 none none none none 10 11 one_account
      after_reset completion one_account-UsersKeyed reset_completed

abbrev wrong_codes : List (Bytes × Time)
wrong_codes = ((1 ∷ []), 10) ∷ ((2 ∷ []), 11) ∷ []

guesses_exhausted_example :
    consume_password_reset_challenge 7
      (42 ∷ [])
      "new"
      2
      none
      none
      12
      (guesses 7 "new" 2 none none wrong_codes one_account)
    ≡ (err unauthenticated, guesses 7 "new" 2 none none wrong_codes one_account)
guesses_exhausted_example =
    guesses_exhausted 7 "new" 2 none none wrong_codes one_account challenge
      (unfold get find in refl) refl ((λ p. cc, omega arith), ((λ p. cc, omega arith), tt))
      (omega arith) (omega arith) (42 ∷ []) 12

abbrev second_challenge : PasswordResetChallenge
second_challenge = record challenge { id = 8; code_hash = 43 ∷ [] }

abbrev after_second : Store
after_second = (create_password_reset_challenge second_challenge none 10 one_account).1

create_supersedes_example : ◌≡◌ {A = Uuid} 8 second_challenge.id
create_supersedes_example =
    create_supersedes second_challenge none 10 one_account after_second
      (unfold create_password_reset_challenge create_for store_challenge build_mail get find in
        refl)
      8 second_challenge
      (unfold create_password_reset_challenge create_for store_challenge build_mail get put find
          without in
        refl)
      (unfold open_for in refl)

abbrev after_guess : Store
after_guess = (consume_password_reset_challenge 7 (1 ∷ []) "new" 5 none none 10 one_account).1

consume_refused_example :
    after_guess ≡ record one_account { password_resets = after_guess.password_resets }
consume_refused_example =
    consume_refused 7 (1 ∷ []) "new" 5 none none 10 one_account after_guess unauthenticated
      (unfold consume_password_reset_challenge consume_checked challenge_closed get find in refl)
