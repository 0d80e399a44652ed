-- ===== src/Memory.antt =====
-- internal/store/memory/memory.go: the state of the in-memory store and its constructor. Each
-- method holds the store's mutex from its first read to its last write, so a method is one step.
pub mod Outbox
pub mod Users
pub mod Devices
pub mod Sessions
pub mod PasswordReset
pub mod Mail
pub mod Push
pub mod PreKeys
pub mod Invites
pub mod Messages
pub mod Ownership
pub mod Media
mod Examples
use clixor_backend.Prelude.{ℕ, String, List, [], Eq, nat_eq, string_eq}
use clixor_backend.Map.{Map, empty}
use clixor_backend.Domain.{
  Uuid, Bytes, User, AgeAssurance, Device, Session, PasswordResetChallenge, OneTimePreKey,
}
use clixor_backend.Domain.Chat.{
  Conversation, ConversationMember, ConversationInvite, Message, Receipt,
}
use clixor_backend.Domain.Media.{MediaObject}
use clixor_backend.Domain.Delivery.{OutboxEvent, PushDelivery, MailDelivery}

-- The maps of `type Store` that the modelled methods use. A key that the source concatenates
-- from UUIDs and one text is the tuple of its parts.
pub record Store : Type 0 where
  pub users : Map Uuid User
  pub email_to_user : Map Bytes Uuid
  pub phone_to_user : Map String Uuid
  pub username_to_user : Map Bytes Uuid
  pub external_users : Map Bytes Uuid
  pub age_assurances : Map Uuid AgeAssurance
  pub password_resets : Map Uuid PasswordResetChallenge
  pub mail_deliveries : Map Uuid MailDelivery
  pub devices : Map Uuid Device
  pub pre_keys : Map Uuid (List OneTimePreKey)
  pub sessions : Map Uuid Session
  pub conversations : Map Uuid Conversation
  pub members : Map Uuid (Map Uuid ConversationMember)
  pub invite_links : Map Bytes ConversationInvite
  pub invite_link_keys : Map Uuid Bytes
  pub messages : Map Uuid (List Message)
  pub client_messages : Map (Uuid × (Uuid × String)) Message
  pub receipts : Map (Uuid × Uuid) Receipt
  pub media : Map Uuid MediaObject
  pub media_upload_capabilities : Map Uuid Bytes
  pub outbox : List OutboxEvent
  pub next_outbox_id : ℕ
  pub active_realtime_deliveries : Map ℕ ℕ
  pub push_deliveries : Map ℕ PushDelivery
  pub push_delivery_by_event_device : Map (ℕ × Uuid) ℕ
  pub next_push_delivery_id : ℕ
  pub active_push_deliveries : Map ℕ Uuid

-- New()
abbrev pub new_store : Store
new_store = record {
  users = empty;
  email_to_user = empty;
  phone_to_user = empty;
  username_to_user = empty;
  external_users = empty;
  age_assurances = empty;
  password_resets = empty;
  mail_deliveries = empty;
  devices = empty;
  pre_keys = empty;
  sessions = empty;
  conversations = empty;
  members = empty;
  invite_links = empty;
  invite_link_keys = empty;
  messages = empty;
  client_messages = empty;
  receipts = empty;
  media = empty;
  media_upload_capabilities = empty;
  outbox = [];
  next_outbox_id = 1;
  active_realtime_deliveries = empty;
  push_deliveries = empty;
  push_delivery_by_event_device = empty;
  next_push_delivery_id = 1;
  active_push_deliveries = empty;
}
