-- ===== src/Memory/PasswordReset/Guesses.antt =====
-- Wrong codes: each counts, and the limit closes the challenge even to the right code.
use clixor_backend.Prelude.{
  ℕ, ◌+◌, ◌≤◌, ◌<◌, String, Option, none, some, List, [], ◌∷◌, true, false, ◌≡◌, ◌≢◌, refl, sym, ap,
  subst, arith, inl, inr, ◌==◌, nat_eq, bytes_eq, list_beq_iff, Bool-cases, All, length, max_int64,
  inc64_lem, leb,
}
use clixor_backend.Map.{get, put}
use clixor_backend.Map.Laws.{get-put, beq_refl}
use clixor_backend.Domain.{Uuid, Time, Bytes, PasswordResetChallenge, Result, err, unauthenticated}
use clixor_backend.Memory.{Store}
use clixor_backend.Memory.PasswordReset.{MailBuilder, Fence}
use clixor_backend.Memory.PasswordReset.Consume.{
  challenge_closed, count_attempt, consume_checked, PasswordResetCompletion,
  consume_password_reset_challenge,
}
use clixor_backend.Memory.PasswordReset.Completion.{closed_refused}

module _ (id : Uuid) (password : String) (max_attempts : ℕ) (build : Option MailBuilder)
    (fence : Option Fence) where
  -- One presentation of a code.
  abbrev pub guess : Bytes × Time → Store → Store
  guess g s = (consume_password_reset_challenge id g.0 password max_attempts build fence g.1 s).1

  pub guesses : List (Bytes × Time) → Store → Store
  guesses [] s = s
  guesses (g ∷ gs) s = guesses gs (guess g s)

  -- An unconsumed challenge under the id, and a code and a time that are wrong and early for it.
  record Waiting (challenge : PasswordResetChallenge) (s : Store) : Type 0 where
    found : get s.password_resets id ≡ some challenge
    unused : challenge.consumed_at ≡ none

  abbrev pub Wrong : PasswordResetChallenge → Bytes × Time → Type 0
  Wrong challenge g = (g.0 ≢ challenge.code_hash) × (g.1 < challenge.expires_at)

  wrong_counts :
      (g : Bytes × Time) (s : Store) (challenge : PasswordResetChallenge)
      → get s.password_resets id ≡ some challenge
      → challenge_closed max_attempts g.1 challenge ≡ false
      → (challenge.code_hash == g.0) ≡ false
      → guess g s
        ≡ record s { password_resets = put s.password_resets id (count_attempt challenge) }
  unfolding consume_password_reset_challenge consume_checked
  wrong_counts g s challenge f o w = rw (guess, f) (rw (o, w) refl)

  unequal : (a b : Bytes) → b ≢ a → (a == b) ≡ false
  unequal a b n = elim (Bool-cases (a == b)) [
    | inl e ↦ absurd (n (sym ((list_beq_iff a b).0 e)))
    | inr e ↦ e
  ]

  closed_by_attempts :
      (challenge : PasswordResetChallenge) (now : Time)
      → max_attempts ≤ challenge.attempts
      → challenge_closed max_attempts now challenge ≡ true
  unfolding challenge_closed
  closed_by_attempts challenge now h = ground arith

  open_before :
      (challenge : PasswordResetChallenge) (now : Time)
      → challenge.consumed_at ≡ none
      → now < challenge.expires_at
      → challenge.attempts < max_attempts
      → challenge_closed max_attempts now challenge ≡ false
  unfolding challenge_closed
  open_before challenge now u e a = ground arith

  Wrong-counted :
      (challenge : PasswordResetChallenge) (gs : List (Bytes × Time))
      → All (Wrong challenge) gs
      → All (Wrong (count_attempt challenge)) gs
  unfolding count_attempt
  Wrong-counted challenge gs h = h

  counted :
      (challenge : PasswordResetChallenge)
      → challenge.attempts < max_int64
      → (count_attempt challenge).attempts ≡ challenge.attempts + 1
  unfolding count_attempt
  counted challenge h = inc64_lem challenge.attempts h

  closed_ignored :
      (g : Bytes × Time) (s : Store) (challenge : PasswordResetChallenge)
      → get s.password_resets id ≡ some challenge
      → max_attempts ≤ challenge.attempts
      → guess g s ≡ s
  closed_ignored g s challenge f h =
      ap (λ (q : Result PasswordResetCompletion × Store). q.1)
        (closed_refused id g.0 password max_attempts build fence g.1 s challenge f
          (closed_by_attempts challenge g.1 h))

  counted-Waiting :
      (challenge : PasswordResetChallenge) (s : Store)
      → Waiting challenge s
      → Waiting
          (count_attempt challenge)
          (record s { password_resets = put s.password_resets id (count_attempt challenge) })
  unfolding count_attempt
  counted-Waiting challenge s v = record {
    found = rw (get-put, beq_refl id) refl;
    unused = v.unused;
  }

  abbrev Exhausted : Store → Type 0
  Exhausted s =
      (code : Bytes) (now : Time)
      → consume_password_reset_challenge id code password max_attempts build fence now s
        ≡ (err unauthenticated, s)

  exhausted :
      (gs : List (Bytes × Time)) (s : Store) (challenge : PasswordResetChallenge)
      → Waiting challenge s
      → All (Wrong challenge) gs
      → max_attempts < max_int64
      → max_attempts ≤ challenge.attempts + length gs
      → Exhausted (guesses gs s)
  unfolding guesses
  exhausted [] s challenge v w m h = λ code now.
      closed_refused id code password max_attempts build fence now s challenge v.found
        (closed_by_attempts challenge now (omega arith))
  exhausted (g ∷ gs) s challenge v w m h = elim (Bool-cases (leb max_attempts challenge.attempts)) [
    | inl e ↦
        subst (λ u. Exhausted (guesses gs u))
          (sym (closed_ignored g s challenge v.found (ground arith)))
          (exhausted gs s challenge v w.1 m (ground arith))
    | inr e ↦
        subst (λ u. Exhausted (guesses gs u))
          (sym (
            wrong_counts g s challenge v.found
              (open_before challenge g.1 v.unused w.0.1 (ground arith))
              (unequal challenge.code_hash g.0 w.0.0)))
          (exhausted gs _ (count_attempt challenge) (counted-Waiting challenge s v)
            (Wrong-counted challenge gs w.1) m (omega (arith, counted challenge (ground arith))))
  ]

  -- Guessing is bounded: once as many wrong codes as the limit allows, less those counted before,
  -- have been presented while an unused challenge had not expired, every further code, the right
  -- one included, is refused at every time and changes nothing. The limit is below the greatest
  -- int64.
  pub guesses_exhausted :
      (gs : List (Bytes × Time)) (s : Store) (challenge : PasswordResetChallenge)
      → get s.password_resets id ≡ some challenge
      → challenge.consumed_at ≡ none
      → All (Wrong challenge) gs
      → max_attempts < max_int64
      → max_attempts ≤ challenge.attempts + length gs
      → (code : Bytes) (now : Time)
      → consume_password_reset_challenge id code password max_attempts build fence now
          (guesses gs s)
        ≡ (err unauthenticated, guesses gs s)
  guesses_exhausted gs s challenge f u = exhausted gs s challenge (record { found = f; unused = u })
