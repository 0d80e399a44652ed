-- ===== src/Memory/Examples/Queues.antt =====
-- The mail and push queues.
use clixor_backend.Prelude.{
  ℕ, ◌≡◌, ◌≢◌, refl, none, some, [], ◌∷◌, true, false, not, ◌||◌, arith, All, if_cases, ◌==◌,
  nat_eq, string_eq, bytes_eq, pair_eq,
}
use clixor_backend.Map.{empty, get, put, find, without}
use clixor_backend.Map.Unique.{put-Unique, empty-Unique}
use clixor_backend.Map.Laws.{get-put}
use clixor_backend.Text.{trim_space, trim_left, is_space}
use clixor_backend.Domain.{Uuid, Device, ok, mobile_platform}
use clixor_backend.Domain.Delivery.{
  MailDelivery, MailStatus, password_changed, PushDelivery, PushStatus,
}
use clixor_backend.Memory.{Store, new_store}
use clixor_backend.Memory.Outbox.{is_set}
use clixor_backend.Memory.Mail.{
  lock_mail_delivery_batch, finish_mail_delivery, finish_found, leased_mail, valid_mail_error_class,
  lower_or_underscore,
}
use clixor_backend.Memory.Mail.Claims.{MailTable, mails, DistinctMail, lock_mail_exclusive}
use clixor_backend.Memory.Mail.Finish.{finish_mail_once}
use clixor_backend.Memory.Push.{
  enqueue_push_deliveries, enqueue_invalid, enqueue_each, eligible, enqueue_one,
  lock_push_delivery_batch,
}
use clixor_backend.Memory.Push.Claims.{PushTable, pushes, lock_push_exclusive}
use clixor_backend.Memory.Push.Enqueue.{enqueue_idempotent}

abbrev mail : MailDelivery
mail = record {
  id = 6;
  challenge_id = 7;
  purpose = password_changed;
  ciphertext = [];
  status = MailStatus.pending;
  attempts = 0;
  next_attempt_at = 5;
  lease_token = 0;
  locked_until = 0;
  created_at = 5;
  delivered_at = none;
  dead_lettered_at = none;
  canceled_at = none;
  last_error_class = [];
}

abbrev one_mail : Store
one_mail = record new_store { mail_deliveries = put empty 6 mail }

one_mail-MailTable : MailTable one_mail.mail_deliveries
one_mail-MailTable = record {
  unique = put-Unique empty 6 mail (empty-Unique ℕ MailDelivery);
  keyed = λ k d. keyed k d;
}
  where
    nothing : (k : Uuid) (d : MailDelivery) → get (empty {K = Uuid}) k ≡ some d → ⊥
    nothing k d p = unfold get find in cc

    keyed : (k : Uuid) (d : MailDelivery) → get (put empty 6 mail) k ≡ some d → d.id ≡ k
    keyed k d h =
        if_cases (λ o. o ≡ some d → d.id ≡ k) (6 == k) (some mail) (get empty k)
          (λ e p. ground (arith, p)) (λ _ p. absurd (nothing k d p)) (rw get-put at h)

abbrev leased_once : Store
leased_once = (lock_mail_delivery_batch 1 99 10 one_mail).1

lock_mail_exclusive_example :
    DistinctMail
      (mails (lock_mail_delivery_batch 1 99 10 one_mail))
      (mails (lock_mail_delivery_batch 5 98 20 leased_once))
lock_mail_exclusive_example =
    lock_mail_exclusive 1 5 99 98 10 20 one_mail leased_once one_mail-MailTable refl (omega arith)

abbrev held_mail : Store
held_mail = record new_store {
  mail_deliveries = put empty 6 (record mail { lease_token = 99; locked_until = 50; attempts = 1 });
}

abbrev finished : Store
finished = (finish_mail_delivery 6 99 MailStatus.delivered 0 [] 12 held_mail).1

finish_mail_once_example :
    ((finish_mail_delivery 6 99 MailStatus.dead_letter 0 [] 13 finished).1 ≡ finished)
    × (false || not (is_set (leased_mail 99 (get finished.mail_deliveries 6))) ≡ true)
finish_mail_once_example =
    finish_mail_once 6 99 99 MailStatus.delivered MailStatus.dead_letter 0 0 [] [] 12 13 held_mail
      finished
      (unfold finish_mail_delivery finish_found leased_mail valid_mail_error_class
          lower_or_underscore trim_space trim_left get put find without in
        refl)

abbrev phone : Device
phone = record {
  id = 3;
  user_id = 1;
  name = "";
  platform = "ios";
  push_token = 97 ∷ [];
  identity_key = "";
  signed_pre_key = "";
  last_seen_at = 1;
  created_at = 1;
}

abbrev push : PushDelivery
push = record {
  id = 1;
  outbox_event_id = 4;
  device_id = 3;
  user_id = 1;
  push_token = [];
  platform = "ios";
  title = "";
  body = "";
  kind = "message";
  conversation_id = 9;
  entity_id = 9;
  notification_id = 110 ∷ [];
  status = PushStatus.pending;
  attempts = 0;
  next_attempt_at = 5;
  lease_token = 0;
  locked_until = 0;
  created_at = 5;
  delivered_at = none;
  dead_lettered_at = none;
  last_error_class = [];
}

abbrev one_phone : Store
one_phone = record new_store { devices = put empty 3 phone }

abbrev enqueued : Store
enqueued = (enqueue_push_deliveries push (1 ∷ []) 5 one_phone).1

enqueue_idempotent_example : enqueue_push_deliveries push (1 ∷ []) 9 enqueued ≡ (ok 0, enqueued)
enqueue_idempotent_example = enqueue_idempotent push (1 ∷ []) 5 9 one_phone enqueued 1 (
    unfold enqueue_push_deliveries enqueue_invalid enqueue_each eligible enqueue_one mobile_platform
      trim_space trim_left is_space get put find without in
    refl)

abbrev one_push : Store
one_push = record one_phone { push_deliveries = put empty 1 push }

one_push-PushTable : PushTable one_push.push_deliveries
one_push-PushTable = record {
  unique = put-Unique empty 1 push (empty-Unique ℕ PushDelivery);
  keyed = λ k d. keyed k d;
}
  where
    nothing : (k : ℕ) (d : PushDelivery) → get (empty {K = ℕ}) k ≡ some d → ⊥
    nothing k d p = unfold get find in cc

    keyed : (k : ℕ) (d : PushDelivery) → get (put empty 1 push) k ≡ some d → d.id ≡ k
    keyed k d h =
        if_cases (λ o. o ≡ some d → d.id ≡ k) (1 == k) (some push) (get empty k)
          (λ e p. ground (arith, p)) (λ _ p. absurd (nothing k d p)) (rw get-put at h)

-- The token that a row draws.
abbrev fresh : ℕ → Uuid
fresh id = 77

abbrev push_leased : Store
push_leased = (lock_push_delivery_batch 1 [] fresh 10 one_push).1

lock_push_exclusive_example :
    All
      (λ c.
        All
          (λ d. c.id ≢ d.id)
          (pushes (lock_push_delivery_batch 3 ("ios" ∷ []) fresh 20 push_leased)))
      (pushes (lock_push_delivery_batch 1 [] fresh 10 one_push))
lock_push_exclusive_example =
    lock_push_exclusive 1 3 [] ("ios" ∷ []) fresh fresh 10 20 one_push push_leased
      one_push-PushTable refl (omega arith)
