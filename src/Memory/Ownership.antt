-- ===== src/Memory/Ownership.antt =====
-- internal/store/memory/memory.go: TransferConversationOwnership.
pub mod OneOwner
use clixor_backend.Prelude.{
  ℕ, Option, none, some, not, ◌||◌, if◌then◌else◌, ◌==◌, nat_eq, Bool, false,
}
use clixor_backend.Map.{Map, get, put}
use clixor_backend.Domain.{Uuid, Time, Result, ok, err, not_found, forbidden, invalid}
use clixor_backend.Domain.Chat.{
  Conversation, ConversationMember, Role, owner, admin, is_owner, is_group,
}
use clixor_backend.Memory.{Store}
use clixor_backend.Memory.Outbox.{is_set}
use clixor_backend.Memory.Messages.{conversation_or_zero}

-- actorPresent && actor.Role == "owner"
unfoldable pub owns : Option ConversationMember → Bool
owns none = false
owns (some m) = is_owner m.role

abbrev pub with_role : Role → ConversationMember → ConversationMember
with_role role m = record m { role = role }

-- members[id] = m with the new role, where m was found under the id.
unfoldable pub set_role :
    Uuid
    → Role
    → Option ConversationMember
    → Map Uuid ConversationMember
    → Map Uuid ConversationMember
set_role id role none members = members
set_role id role (some m) members = put members id (with_role role m)

-- members[actorID] = actor; members[targetID] = target
unfoldable pub swap_roles : Uuid → Uuid → Map Uuid ConversationMember → Map Uuid ConversationMember
unfolding set_role
swap_roles actor_id target_id members =
    set_role target_id owner (get members target_id)
      (set_role actor_id admin (get members actor_id) members)

unfoldable pub with_creator : Uuid → Time → Conversation → Conversation
with_creator target_id now c = record c { created_by = target_id; updated_at = now }

unfoldable pub store_transfer :
    Uuid → Uuid → Uuid → Time → Map Uuid ConversationMember → Store → Store
store_transfer conversation_id actor_id target_id now members s = record s {
  members = put s.members conversation_id (swap_roles actor_id target_id members);
  conversations =
      put s.conversations conversation_id
        (with_creator target_id now (conversation_or_zero (get s.conversations conversation_id)));
}

unfoldable pub transfer_in :
    Uuid
    → Uuid
    → Uuid
    → Time
    → Option (Map Uuid ConversationMember)
    → Store
    → Result (Unit {0}) × Store
transfer_in conversation_id actor_id target_id now none s = (err not_found, s)
transfer_in conversation_id actor_id target_id now (some members) s =
    if not (owns (get members actor_id))
    then (err forbidden, s)
    else if not (is_set (get members target_id)) || target_id == actor_id
    then (err invalid, s)
    else (ok tt, store_transfer conversation_id actor_id target_id now members s)

unfoldable pub transfer_conversation_ownership :
    Uuid → Uuid → Uuid → Time → Store → Result (Unit {0}) × Store
transfer_conversation_ownership conversation_id actor_id target_id now s =
    if not (is_group (conversation_or_zero (get s.conversations conversation_id)).kind)
    then (err invalid, s)
    else transfer_in conversation_id actor_id target_id now (get s.members conversation_id) s
