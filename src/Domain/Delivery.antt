-- ===== src/Domain/Delivery.antt =====
-- internal/domain/models.go: the durable queues (outbox events, push and mail deliveries).
use clixor_backend.Prelude.{ℕ, String, Option, List, Bool, true, false}
use clixor_backend.Domain.Chat.{Payload}

pub record OutboxEvent : Type 0 where
  pub id : ℕ
  pub topic : String
  pub aggregate_id : ℕ
  pub payload : Payload
  pub created_at : ℕ
  pub published_at : Option ℕ
  pub available_at : ℕ
  pub locked_until : Option ℕ
  pub attempts : ℕ

-- PushDelivery.Status; `unknown` stands for every other string.
pub data PushStatus : Type 0 where
  pending delivered invalid_token dead_letter canceled unknown : PushStatus

pub record PushDelivery : Type 0 where
  pub id : ℕ
  pub outbox_event_id : ℕ
  pub device_id : ℕ
  pub user_id : ℕ
  pub push_token : List ℕ
  pub platform : String
  pub title : String
  pub body : String
  pub kind : String
  pub conversation_id : ℕ
  pub entity_id : ℕ
  pub notification_id : List ℕ
  pub status : PushStatus
  pub attempts : ℕ
  pub next_attempt_at : ℕ
  pub lease_token : ℕ
  pub locked_until : ℕ
  pub created_at : ℕ
  pub delivered_at : Option ℕ
  pub dead_lettered_at : Option ℕ
  pub last_error_class : List ℕ

-- MailDelivery.Status and Purpose; `unknown` and `other_purpose` stand for every other string.
pub data MailStatus : Type 0 where
  pending delivered dead_letter canceled unknown : MailStatus

pub data MailPurpose : Type 0 where
  password_reset password_changed other_purpose : MailPurpose

pub record MailDelivery : Type 0 where
  pub id : ℕ
  pub challenge_id : ℕ
  pub purpose : MailPurpose
  pub ciphertext : List ℕ
  pub status : MailStatus
  pub attempts : ℕ
  pub next_attempt_at : ℕ
  pub lease_token : ℕ
  pub locked_until : ℕ
  pub created_at : ℕ
  pub delivered_at : Option ℕ
  pub dead_lettered_at : Option ℕ
  pub canceled_at : Option ℕ
  pub last_error_class : List ℕ

abbrev pub is_pending : PushStatus → Bool
is_pending pending = true
is_pending _ = false

abbrev pub mail_is_pending : MailStatus → Bool
mail_is_pending pending = true
mail_is_pending _ = false

abbrev pub is_password_reset : MailPurpose → Bool
is_password_reset password_reset = true
is_password_reset _ = false
