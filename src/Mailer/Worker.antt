-- ===== src/Mailer/Worker.antt =====
-- internal/mail/worker.go: the worker that delivers queued mail. The sender (Service), the tests of
-- errors.Is and errors.As and the metrics are outside the repository's own code or write nothing:
-- the sender's answers and the tests are the parameter `env`, and logging and metrics are left out.
use clixor_backend.Prelude.{
  ℕ, ◌*◌, ◌+◌, ◌-◌, Option, none, some, List, [], ◌∷◌, Bool, true, false, not, ◌&&◌, ◌||◌,
  if◌then◌else◌, ◌==◌, nat_eq, string_eq, ltb, leb,
}
use clixor_backend.Map.{get}
use clixor_backend.Domain.{
  Uuid, Time, Bytes, Error, other_error, Result, ok, err, not_found, conflict,
}
use clixor_backend.Domain.Delivery.{
  MailDelivery, MailStatus, MailPurpose, password_reset, password_changed, other_purpose,
}
use clixor_backend.Memory.{Store}
use clixor_backend.Memory.Outbox.{is_set}
use clixor_backend.Memory.Mail.{
  leased_mail, with_mail_delivery_lease, finish_mail_delivery, lock_mail_delivery_batch,
}
use clixor_backend.Memory.Outbox.Prune.{max_retention_prune_batch_size}
use clixor_backend.Memory.Mail.Prune.{Cutoffs, prune_mail_deliveries}
use clixor_backend.Mailer.{QueuePayload, MailLibrary, open_payload}
use clixor_backend.Mailer.Retry.{DeliveryPolicy, retry_delay}

-- The sender's answers, and which errors are a cancellation or deadline, an untrusted certificate,
-- an SMTP reply (with its code) or a network error.
pub record MailEnv : Type 0 where
  pub send_password_reset : Bytes → Bytes → Time → Option Error
  pub send_password_changed : Bytes → Option Error
  pub canceled_or_late : Error → Bool
  pub certificate_invalid : Error → Bool
  pub smtp_code : Error → Option ℕ
  pub network_error : Error → Bool

-- errMailPayloadInvalid and errMailPurposeInvalid, which no sender returns.
abbrev pub payload_invalid : Error
payload_invalid = other_error "mail payload invalid"

abbrev pub purpose_invalid : Error
purpose_invalid = other_error "mail purpose invalid"

-- errors.Is(err, errMailPayloadInvalid), and the same for the others.
abbrev pub is_payload_invalid : Error → Bool
is_payload_invalid (other_error text) = text == "mail payload invalid"
is_payload_invalid _ = false

abbrev pub is_purpose_invalid : Error → Bool
is_purpose_invalid (other_error text) = text == "mail purpose invalid"
is_purpose_invalid _ = false

abbrev pub is_missing : Error → Bool
is_missing not_found = true
is_missing conflict = true
is_missing _ = false

-- The bounded classes of failures.
abbrev pub class_payload_invalid : Bytes
class_payload_invalid =
    b'p' ∷ b'a' ∷ b'y' ∷ b'l' ∷ b'o' ∷ b'a' ∷ b'd' ∷ b'_' ∷ b'i' ∷ b'n' ∷ b'v' ∷ b'a' ∷ b'l' ∷ b'i'
    ∷ b'd' ∷ []

abbrev pub class_purpose_invalid : Bytes
class_purpose_invalid =
    b'p' ∷ b'u' ∷ b'r' ∷ b'p' ∷ b'o' ∷ b's' ∷ b'e' ∷ b'_' ∷ b'i' ∷ b'n' ∷ b'v' ∷ b'a' ∷ b'l' ∷ b'i'
    ∷ b'd' ∷ []

abbrev pub class_shutdown : Bytes
class_shutdown = b's' ∷ b'h' ∷ b'u' ∷ b't' ∷ b'd' ∷ b'o' ∷ b'w' ∷ b'n' ∷ []

abbrev pub class_timeout : Bytes
class_timeout = b't' ∷ b'i' ∷ b'm' ∷ b'e' ∷ b'o' ∷ b'u' ∷ b't' ∷ []

abbrev pub class_tls_identity : Bytes
class_tls_identity =
    b't' ∷ b'l' ∷ b's' ∷ b'_' ∷ b'i' ∷ b'd' ∷ b'e' ∷ b'n' ∷ b't' ∷ b'i' ∷ b't' ∷ b'y' ∷ []

abbrev pub class_smtp_temporary : Bytes
class_smtp_temporary =
    b's' ∷ b'm' ∷ b't' ∷ b'p' ∷ b'_' ∷ b't' ∷ b'e' ∷ b'm' ∷ b'p' ∷ b'o' ∷ b'r' ∷ b'a' ∷ b'r' ∷ b'y'
    ∷ []

abbrev pub class_smtp_rejected : Bytes
class_smtp_rejected =
    b's' ∷ b'm' ∷ b't' ∷ b'p' ∷ b'_' ∷ b'r' ∷ b'e' ∷ b'j' ∷ b'e' ∷ b'c' ∷ b't' ∷ b'e' ∷ b'd' ∷ []

abbrev pub class_network : Bytes
class_network = b'n' ∷ b'e' ∷ b't' ∷ b'w' ∷ b'o' ∷ b'r' ∷ b'k' ∷ []

abbrev pub class_transport : Bytes
class_transport = b't' ∷ b'r' ∷ b'a' ∷ b'n' ∷ b's' ∷ b'p' ∷ b'o' ∷ b'r' ∷ b't' ∷ []

unfoldable pub smtp_class : ℕ → Bytes × Bool
smtp_class code =
    if not (ltb code 400) && ltb code 500
    then (class_smtp_temporary, true)
    else (class_smtp_rejected, false)

unfoldable pub classify_rest : Bool → Option ℕ → Bytes × Bool
unfolding smtp_class
classify_rest network (some code) = smtp_class code
classify_rest network none = if network then (class_network, true) else (class_transport, true)

-- classifyDeliveryError: the class, and whether the mail may be tried again.
unfoldable pub classify_delivery_error : MailEnv → Error → Bytes × Bool
unfolding classify_rest
classify_delivery_error env e =
    if env.canceled_or_late e
    then (class_timeout, true)
    else if env.certificate_invalid e
    then (class_tls_identity, false)
    else classify_rest (env.network_error e) (env.smtp_code e)

module _ (lib : MailLibrary) (env : MailEnv) where
  unfoldable pub send_payload : Option QueuePayload → MailPurpose → Option Error
  send_payload none purpose = some payload_invalid
  send_payload (some p) password_reset =
      env.send_password_reset p.recipient p.code (p.ttl_seconds * 1_000_000_000)
  send_payload (some p) password_changed = env.send_password_changed p.recipient
  send_payload (some p) other_purpose = some purpose_invalid

  abbrev pub purpose_of : Option QueuePayload → MailPurpose
  purpose_of none = other_purpose
  purpose_of (some p) = p.purpose

  -- The callback of deliver, which leaves the store as it is.
  unfoldable pub send_mail : MailDelivery → Store → Option Error × Store
  unfolding send_payload
  send_mail leased s =
      (send_payload (open_payload lib leased) (purpose_of (open_payload lib leased)), s)

-- The row that the callback got, where WithMailDeliveryLease called it.
unfoldable pub called_with : MailDelivery → Option Error → Store → Option MailDelivery
called_with d none s =
    if d.id == 0 || d.lease_token == 0
    then none
    else leased_mail d.lease_token (get s.mail_deliveries d.id)
called_with d (some e) s = none

unfoldable pub finish_with : MailDelivery → MailStatus → Time → Bytes → Time → Store → Store
finish_with d status next class now s =
    (finish_mail_delivery d.id d.lease_token status next class now s).1

module _ (env : MailEnv) (policy : DeliveryPolicy) (now : Time) where
  -- After a failure that a retry may heal, or that has used up the attempts.
  unfoldable pub retry_mail : MailDelivery → Bytes × Bool → Store → Store
  unfolding finish_with
  retry_mail d (class, retryable) s =
      if not retryable || leb policy.max_attempts d.attempts
      then finish_with d MailStatus.dead_letter 0 class now s
      else finish_with d MailStatus.pending (now + retry_delay policy d.id d.attempts) class now s

  -- What deliver does with the outcome; `done` is whether ctx.Err() is set by then.
  unfoldable pub settle_mail : Bool → MailDelivery → Option Error → Store → Store
  unfolding retry_mail
  settle_mail done d none s = finish_with d MailStatus.delivered 0 [] now s
  settle_mail done d (some e) s =
      if is_payload_invalid e
      then finish_with d MailStatus.dead_letter 0 class_payload_invalid now s
      else if is_purpose_invalid e
      then finish_with d MailStatus.dead_letter 0 class_purpose_invalid now s
      else if done
      then finish_with d MailStatus.pending now class_shutdown now s
      else retry_mail d (classify_delivery_error env e) s

abbrev pub missing_error : Option Error → Bool
missing_error none = false
missing_error (some e) = is_missing e

abbrev pub or_delivery : MailDelivery → Option MailDelivery → MailDelivery
or_delivery d none = d
or_delivery d (some leased) = leased

module _ (lib : MailLibrary) (env : MailEnv) (policy : DeliveryPolicy) where
  -- deliver; `ctx` is ctx.Err() when the lease is taken.
  unfoldable pub deliver : Option Error → Bool → Time → MailDelivery → Store → Store
  unfolding settle_mail
  deliver ctx done now d s =
      let called = called_with d ctx s in
      let r = with_mail_delivery_lease d.id d.lease_token (some (send_mail lib env)) ctx s in
      if not (is_set called) && missing_error r.0
      then r.1
      else settle_mail env policy now done (or_delivery d called) r.0 r.1

  -- The goroutines of flush, one after the other in some order; the batch's order stands for it.
  unfoldable pub deliver_each : Time → List MailDelivery → Store → Store
  unfolding deliver
  deliver_each now [] s = s
  deliver_each now (d ∷ ds) s = deliver_each now ds (deliver none false now d s)

  -- limit := min(BatchSize, WorkerConcurrency), at least 1
  unfoldable pub flush_limit : ℕ
  flush_limit =
      let limit =
        if ltb policy.batch_size policy.worker_concurrency
        then policy.batch_size
        else policy.worker_concurrency in
      if limit == 0 then 1 else limit

  abbrev pub flush_batch : Time → Result (List MailDelivery) → Store → Store
  flush_batch now (err e) s = s
  flush_batch now (ok batch) s = deliver_each now batch s

  -- flush, with a context that is not done
  unfoldable pub flush : Uuid → Time → Store → Store
  unfolding flush_limit deliver_each
  flush fresh now s =
      let locked = lock_mail_delivery_batch flush_limit fresh now s in
      flush_batch now locked.0 locked.1

-- pruneRetention: the new lastPrune and the store. The clock reads more than every retention.
unfoldable pub prune_retention : DeliveryPolicy → Time → Time → Store → Time × Store
prune_retention policy last_prune now s =
    let cutoffs : Cutoffs = record {
      delivered_before = now - policy.delivered_retention;
      dead_letter_before = now - policy.dead_letter_retention;
      canceled_before = now - policy.delivered_retention;
    } in
    if ltb (now - last_prune) 3_600_000_000_000
    then (last_prune, s)
    else (now, (prune_mail_deliveries cutoffs max_retention_prune_batch_size s).1)
