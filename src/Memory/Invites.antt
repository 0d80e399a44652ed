-- ===== src/Memory/Invites.antt =====
-- internal/store/memory/memory.go: the invite links of a group (CreateConversationInvite,
-- ConversationInvitePreview, RevokeConversationInvite, conversationInviteActiveError).
-- `fresh` is the value of uuid.New(); a max_uses below 1 is 0.
pub mod Revoked
use clixor_backend.Prelude.{
  ℕ, String, Option, none, some, List, Bool, true, false, not, ◌&&◌, ◌||◌, if◌then◌else◌, ◌==◌,
  nat_eq, bytes_eq, ltb, leb, length,
}
use clixor_backend.Map.{Map, get, put}
use clixor_backend.Domain.{
  Uuid, Time, Bytes, Error, Result, ok, err, not_found, conflict, forbidden, invalid,
  invite_revoked, invite_expired, invite_exhausted, after,
}
use clixor_backend.Domain.Chat.{
  Conversation, ConversationMember, ConversationInvite, ConversationInvitePreview, is_manager,
  is_group,
}
use clixor_backend.Memory.{Store}
use clixor_backend.Memory.Outbox.{is_set}

-- store.CreateConversationInviteParams
pub record CreateConversationInviteParams : Type 0 where
  pub id : Uuid
  pub conversation_id : Uuid
  pub actor_id : Uuid
  pub token_hash : Bytes
  pub max_uses : ℕ
  pub expires_at : Time

-- s.members[conversation_id][user_id]; a missing inner map has no members.
unfoldable pub member_in : Uuid → Option (Map Uuid ConversationMember) → Option ConversationMember
member_in user_id none = none
member_in user_id (some m) = get m user_id

unfoldable pub member_of : Uuid → Uuid → Store → Option ConversationMember
unfolding member_in
member_of conversation_id user_id s = member_in user_id (get s.members conversation_id)

-- The actor is a member with the role "owner" or "admin".
unfoldable pub manages : Option ConversationMember → Bool
manages none = false
manages (some m) = is_manager m.role

unfoldable pub invite_params_invalid : Time → CreateConversationInviteParams → Bool
invite_params_invalid now p =
    not (length p.token_hash == 32)
    || p.max_uses == 0
    || ltb 1000 p.max_uses
    || not (after p.expires_at now)

-- The invite that is stored; `id` is the one given or made.
abbrev pub new_invite : Uuid → Time → CreateConversationInviteParams → ConversationInvite
new_invite id now p = record {
  id = id;
  conversation_id = p.conversation_id;
  created_by = p.actor_id;
  max_uses = p.max_uses;
  uses = 0;
  expires_at = p.expires_at;
  revoked_at = none;
  created_at = now;
}

unfoldable pub store_invite :
    Uuid → Time → CreateConversationInviteParams → Store → Result ConversationInvite × Store
store_invite id now p s =
    if is_set (get s.invite_links p.token_hash) || is_set (get s.invite_link_keys id)
    then (err conflict, s)
    else (
      ok (new_invite id now p),
      record s {
        invite_links = put s.invite_links p.token_hash (new_invite id now p);
        invite_link_keys = put s.invite_link_keys id p.token_hash;
      },
    )

unfoldable pub create_in :
    Uuid
    → Time
    → CreateConversationInviteParams
    → Option Conversation
    → Store
    → Result ConversationInvite × Store
unfolding manages store_invite
create_in fresh now p none s = (err forbidden, s)
create_in fresh now p (some conversation) s =
    if not (manages (member_of p.conversation_id p.actor_id s))
    then (err forbidden, s)
    else if not (is_group conversation.kind)
    then (err invalid, s)
    else store_invite (if p.id == 0 then fresh else p.id) now p s

unfoldable pub create_conversation_invite :
    Uuid → Time → CreateConversationInviteParams → Store → Result ConversationInvite × Store
unfolding create_in
create_conversation_invite fresh now p s =
    if invite_params_invalid now p
    then (err invalid, s)
    else create_in fresh now p (get s.conversations p.conversation_id) s

-- conversationInviteActiveError
unfoldable pub conversation_invite_active_error : ConversationInvite → Time → Option Error
conversation_invite_active_error invite now =
    if is_set invite.revoked_at
    then some invite_revoked
    else if not (after invite.expires_at now)
    then some invite_expired
    else if leb invite.max_uses invite.uses
    then some invite_exhausted
    else none

abbrev pub preview_of : ConversationInvite → Conversation → Bool → ConversationInvitePreview
preview_of invite conversation already_member = record {
  invite_id = invite.id;
  kind = conversation.kind;
  title = conversation.title;
  avatar_url = conversation.avatar_url;
  expires_at = invite.expires_at;
  already_member = already_member;
}

-- The error keeps a user out who is not a member yet.
unfoldable pub preview_checked :
    ConversationInvite → Conversation → Bool → Option Error → Result ConversationInvitePreview
preview_checked invite conversation true error = ok (preview_of invite conversation true)
preview_checked invite conversation false none = ok (preview_of invite conversation false)
preview_checked invite conversation false (some e) = err e

unfoldable pub preview_in :
    ConversationInvite
    → Uuid
    → Time
    → Option Conversation
    → Store
    → Result ConversationInvitePreview
unfolding preview_checked
preview_in invite user_id now none s = err not_found
preview_in invite user_id now (some conversation) s =
    preview_checked invite conversation (is_set (member_of invite.conversation_id user_id s))
      (conversation_invite_active_error invite now)

unfoldable pub preview_link :
    Uuid → Time → Option ConversationInvite → Store → Result ConversationInvitePreview
unfolding preview_in
preview_link user_id now none s = err not_found
preview_link user_id now (some invite) s =
    preview_in invite user_id now (get s.conversations invite.conversation_id) s

-- ConversationInvitePreview
unfoldable pub conversation_invite_preview :
    Bytes → Uuid → Time → Store → Result ConversationInvitePreview
unfolding preview_link
conversation_invite_preview token_hash user_id now s =
    preview_link user_id now (get s.invite_links token_hash) s

-- The zero ConversationInvite, that a missing key reads.
abbrev pub zero_invite : ConversationInvite
zero_invite = record {
  id = 0;
  conversation_id = 0;
  created_by = 0;
  max_uses = 0;
  uses = 0;
  expires_at = 0;
  revoked_at = none;
  created_at = 0;
}

abbrev pub invite_or_zero : Option ConversationInvite → ConversationInvite
invite_or_zero none = zero_invite
invite_or_zero (some invite) = invite

unfoldable pub mark_revoked : Time → ConversationInvite → ConversationInvite
mark_revoked now invite = record invite { revoked_at = some now }

unfoldable pub revoke_link :
    Uuid → Time → Bytes → ConversationInvite → Store → Result (Unit {0}) × Store
unfolding mark_revoked
revoke_link conversation_id now token_key invite s =
    if not (invite.conversation_id == conversation_id)
    then (err not_found, s)
    else if is_set invite.revoked_at
    then (ok tt, s)
    else (ok tt, record s { invite_links = put s.invite_links token_key (mark_revoked now invite) })

unfoldable pub revoke_key : Uuid → Time → Option Bytes → Store → Result (Unit {0}) × Store
unfolding revoke_link
revoke_key conversation_id now none s = (err not_found, s)
revoke_key conversation_id now (some token_key) s =
    revoke_link conversation_id now token_key (invite_or_zero (get s.invite_links token_key)) s

unfoldable pub revoke_conversation_invite :
    Uuid → Uuid → Uuid → Time → Store → Result (Unit {0}) × Store
unfolding revoke_key
revoke_conversation_invite conversation_id actor_id invite_id now s =
    if not (manages (member_of conversation_id actor_id s))
    then (err forbidden, s)
    else revoke_key conversation_id now (get s.invite_link_keys invite_id) s
