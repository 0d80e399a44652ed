-- ===== src/Domain/Media.antt =====
-- internal/domain/models.go: media objects. Object keys and content types are the lists of their
-- bytes; a byte size below 1 is 0.
use clixor_backend.Prelude.{ℕ, String, Option, List, Bool, true, false}

-- MediaObject.Scope; `other_scope` stands for every other string, "" included.
pub data Scope : Type 0 where
  conversation profile other_scope : Scope

-- MediaObject.Status; `other_status` stands for every other string.
pub data MediaStatus : Type 0 where
  pending ready deleted other_status : MediaStatus

pub record MediaObject : Type 0 where
  pub id : ℕ
  pub owner_id : ℕ
  pub conversation_id : ℕ
  pub scope : Scope
  pub object_key : List ℕ
  pub content_type : List ℕ
  pub byte_size : ℕ
  pub ciphertext_sha256 : String
  pub status : MediaStatus
  pub expires_at : Option ℕ
  pub upload_valid_until : ℕ
  pub verification_lease_token : Option ℕ
  pub verification_locked_until : Option ℕ
  pub created_at : ℕ
  pub updated_at : ℕ

abbrev pub in_conversation : Scope → Bool
in_conversation conversation = true
in_conversation _ = false

abbrev pub in_profile : Scope → Bool
in_profile profile = true
in_profile _ = false

abbrev pub media_pending : MediaStatus → Bool
media_pending pending = true
media_pending _ = false

abbrev pub media_ready : MediaStatus → Bool
media_ready ready = true
media_ready _ = false

abbrev pub media_deleted : MediaStatus → Bool
media_deleted deleted = true
media_deleted _ = false
