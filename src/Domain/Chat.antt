-- ===== src/Domain/Chat.antt =====
-- internal/domain/models.go: conversations, members, invites, messages, receipts.
use clixor_backend.Prelude.{ℕ, String, Option, List, Bool, true, false}

-- ConversationMember.Role; `other_role` stands for every other string, "" of a missing member
-- included.
pub data Role : Type 0 where
  owner admin member other_role : Role

-- Conversation.Kind; `other_kind` stands for every other string, "" included.
pub data Kind : Type 0 where
  group direct other_kind : Kind

pub record Conversation : Type 0 where
  pub id : ℕ
  pub kind : Kind
  pub title : String
  pub avatar_url : String
  pub metadata : String
  pub created_by : ℕ
  pub last_seq : ℕ
  pub created_at : ℕ
  pub updated_at : ℕ

-- The five public-identity fields are filled when members are listed and stay "" in the store.
pub record ConversationMember : Type 0 where
  pub conversation_id : ℕ
  pub user_id : ℕ
  pub role : Role
  pub joined_at : ℕ
  pub muted_until : Option ℕ

pub record ConversationInvite : Type 0 where
  pub id : ℕ
  pub conversation_id : ℕ
  pub created_by : ℕ
  pub max_uses : ℕ
  pub uses : ℕ
  pub expires_at : ℕ
  pub revoked_at : Option ℕ
  pub created_at : ℕ

pub record ConversationInvitePreview : Type 0 where
  pub invite_id : ℕ
  pub kind : Kind
  pub title : String
  pub avatar_url : String
  pub expires_at : ℕ
  pub already_member : Bool

pub record Message : Type 0 where
  pub id : ℕ
  pub client_message_id : String
  pub conversation_id : ℕ
  pub sender_id : ℕ
  pub sender_device_id : ℕ
  pub seq : ℕ
  pub content_type : String
  pub ciphertext : String
  pub envelope : String
  pub reply_to_id : Option ℕ
  pub created_at : ℕ
  pub server_received_at : ℕ

pub record Receipt : Type 0 where
  pub conversation_id : ℕ
  pub user_id : ℕ
  pub delivered_seq : ℕ
  pub read_seq : ℕ
  pub updated_at : ℕ

-- What json.Marshal was given: the encoding itself is the library's.
pub data Payload : Type 0 where
  of_message : Message → Payload
  of_receipt : Receipt → Payload
  of_media_delete : List (List ℕ) → ℕ → Payload
  raw : String → Payload

abbrev pub is_owner : Role → Bool
is_owner owner = true
is_owner _ = false

-- role == "owner" || role == "admin"
abbrev pub is_manager : Role → Bool
is_manager owner = true
is_manager admin = true
is_manager _ = false

abbrev pub is_group : Kind → Bool
is_group group = true
is_group _ = false
