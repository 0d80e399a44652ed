-- ===== src/Mailer/Settles.antt =====
-- internal/mail/worker.go: what deliver leaves of a mail whose lease the worker holds.
use clixor_backend.Prelude.{
  ℕ, ◌+◌, ◌≤◌, ◌<◌, ◌≡◌, ◌⊎◌, inl, inr, refl, ap, ◌∙◌, Option, none, some, [], Bool, true, false,
  not, ◌&&◌, ◌||◌, if◌then◌else◌, ◌==◌, nat_eq, ltb, leb, arith, if_cases, if_both,
}
use clixor_backend.Map.{get}
use clixor_backend.Map.Laws.{get-put, beq_refl}
use clixor_backend.Domain.{Time, Bytes, Error}
use clixor_backend.Domain.Delivery.{MailDelivery, MailStatus, pending, delivered, dead_letter}
use clixor_backend.Memory.{Store}
use clixor_backend.Memory.Mail.{
  leased_mail, with_mail_delivery_lease, deliver_mail, finish_mail_delivery, finish_mail,
  finish_found, known_status, valid_mail_error_class, lower_or_underscore,
}
use clixor_backend.Text.{trim_space, trim_left, is_space}
use clixor_backend.Mailer.{MailLibrary}
use clixor_backend.Mailer.Retry.{DeliveryPolicy, retry_delay, retry_delay_le}
use clixor_backend.Mailer.Worker.{
  MailEnv, send_mail, called_with, finish_with, retry_mail, settle_mail, deliver,
  classify_delivery_error, classify_rest, smtp_class, is_payload_invalid, is_purpose_invalid,
  class_timeout, class_tls_identity, class_smtp_temporary, class_smtp_rejected, class_network,
  class_transport, class_payload_invalid, class_purpose_invalid,
}

-- The mail `row` has been settled: it is delivered, or a dead letter, or waits for another attempt,
-- which the policy still allows, for at most the greatest delay.
pub record IsSettled (policy : DeliveryPolicy) (now : Time) (row : MailDelivery) (t : Store)
    : Type 0 where
  pub mail : MailDelivery
  pub stored : get t.mail_deliveries row.id ≡ some mail
  pub free : mail.lease_token ≡ 0
  pub outcome :
      (mail.status ≡ delivered)
      ⊎ (mail.status ≡ dead_letter)
      ⊎ ((mail.status ≡ MailStatus.pending)
          × (row.attempts < policy.max_attempts)
          × (mail.next_attempt_at ≤ now + policy.max_delay))

-- The worker holds the row by its lease.
pub record IsHeld (row : MailDelivery) (s : Store) : Type 0 where
  pub id : (row.id == 0) ≡ false
  pub token : (row.lease_token == 0) ≡ false
  pub leased : leased_mail row.lease_token (get s.mail_deliveries row.id) ≡ some row

module _ (row : MailDelivery) (status : MailStatus) (next : Time) (class : Bytes) (now : Time)
    (s : Store) (h : IsHeld row s) (known : known_status status ≡ true)
    (valid : valid_mail_error_class class ≡ true) where
  finish_taken :
      finish_mail_delivery row.id row.lease_token status next class now s
      ≡ finish_found row.id status next class now (some row) s
  unfolding finish_mail_delivery
  finish_taken = rw (known, h.id, h.token, valid, h.leased) refl

  finished :
      get (finish_with row status next class now s).mail_deliveries row.id
      ≡ some (finish_mail status class (if next == 0 then now else next) now row)
  unfolding finish_with finish_found
  finished =
      ap (λ r. get r.1.mail_deliveries row.id) finish_taken ∙ rw (get-put, beq_refl row.id) refl

abbrev ValidClass : Bytes × Bool → Type 0
ValidClass c = valid_mail_error_class c.0 ≡ true

-- Every class of classifyDeliveryError is one that the store accepts.
smtp_valid : (code : ℕ) → ValidClass (smtp_class code)
unfolding smtp_class valid_mail_error_class trim_space trim_left is_space lower_or_underscore
smtp_valid code =
    if_both ValidClass (not (ltb code 400) && ltb code 500) (class_smtp_temporary, true)
      (class_smtp_rejected, false) refl refl

rest_valid : (network : Bool) (code : Option ℕ) → ValidClass (classify_rest network code)
unfolding classify_rest valid_mail_error_class trim_space trim_left is_space lower_or_underscore
rest_valid network (some code) = smtp_valid code
rest_valid network none =
    if_both ValidClass network (class_network, true) (class_transport, true) refl refl

valid_class : (env : MailEnv) (e : Error) → ValidClass (classify_delivery_error env e)
unfolding classify_delivery_error valid_mail_error_class trim_space trim_left is_space
    lower_or_underscore
valid_class env e =
    if_both ValidClass (env.canceled_or_late e) (class_timeout, true) _ refl
      (if_both ValidClass (env.certificate_invalid e) (class_tls_identity, false) _ refl
        (rest_valid (env.network_error e) (env.smtp_code e)))

attempts_left :
    (retryable : Bool) (most attempts : ℕ)
    → (not retryable || leb most attempts) ≡ false
    → attempts < most
attempts_left retryable most attempts h = ground arith

module _ (env : MailEnv) (policy : DeliveryPolicy) (now : Time) (row : MailDelivery)
    (s : Store) where
  dead :
      (class : Bytes)
      → IsHeld row s
      → valid_mail_error_class class ≡ true
      → IsSettled policy now row (finish_with row MailStatus.dead_letter 0 class now s)
  unfolding finish_mail
  dead class h valid = record {
    mail = finish_mail dead_letter class now now row;
    stored = finished row dead_letter 0 class now s h refl valid;
    free = refl;
    outcome = inr (inl refl);
  }

  -- A failure that is tried again, or not.
  retried :
      (c : Bytes × Bool)
      → IsHeld row s
      → ValidClass c
      → IsSettled policy now row (retry_mail env policy now row c s)
  unfolding retry_mail finish_mail
  retried (class, retryable) h valid =
      if_cases (IsSettled policy now row) (not retryable || leb policy.max_attempts row.attempts)
        (finish_with row dead_letter 0 class now s) _ (λ _. dead class h valid)
        (λ few.
          let next = now + retry_delay policy row.id row.attempts in
          record {
            mail = finish_mail pending class (if next == 0 then now else next) now row;
            stored = finished row pending next class now s h refl valid;
            free = refl;
            outcome = inr (
                inr (
                  refl,
                  attempts_left retryable policy.max_attempts row.attempts few,
                  if_both (λ t. t ≤ now + policy.max_delay) (next == 0) now next (omega arith)
                      (omega (arith, retry_delay_le policy row.id row.attempts)),
                ));
          })

  settled :
      (e : Option Error)
      → IsHeld row s
      → IsSettled policy now row (settle_mail env policy now false row e s)
  unfolding settle_mail finish_mail valid_mail_error_class trim_space trim_left is_space
      lower_or_underscore
  settled none h = record {
    mail = finish_mail delivered [] now now row;
    stored = finished row delivered 0 [] now s h refl refl;
    free = refl;
    outcome = inl refl;
  }
  settled (some e) h =
      if_both (IsSettled policy now row) (is_payload_invalid e) _ _
        (dead class_payload_invalid h refl)
        (if_both (IsSettled policy now row) (is_purpose_invalid e) _ _
          (dead class_purpose_invalid h refl)
          (retried (classify_delivery_error env e) h (valid_class env e)))

-- The worker settles every mail whose lease it holds: unless the worker is stopped meanwhile, after
-- deliver, whatever the sender and the cipher answer, the mail has no lease and is delivered, or is
-- a dead letter, or is pending for another attempt, which is still below the policy's number of
-- attempts and at most the greatest delay away.
pub deliver-IsSettled :
    (lib : MailLibrary) (env : MailEnv) (policy : DeliveryPolicy) (now : Time) (row : MailDelivery)
    (s : Store)
    → IsHeld row s
    → IsSettled policy now row (deliver lib env policy none false now row s)
unfolding deliver called_with with_mail_delivery_lease deliver_mail send_mail
deliver-IsSettled lib env policy now row s h =
    rw (h.id, h.token, h.leased) (settled env policy now row s (send_mail lib env row s).0 h)
