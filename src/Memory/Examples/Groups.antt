-- ===== src/Memory/Examples/Groups.antt =====
-- Pre-keys, invite links, messages, receipts and ownership.
use clixor_backend.Prelude.{
  ℕ, ◌≡◌, ◌≤◌, ◌⊎◌, refl, none, some, List, [], ◌∷◌, false, true, arith, ◌==◌, nat_eq, bytes_eq,
  pair_eq, string_eq, if_cases, if_both, if◌then◌else◌, length, All, inc64,
}
use clixor_backend.Map.{Map, empty, get, put, find, without, values, value_list}
use clixor_backend.Domain.{
  Uuid, Device, live, is_deleted, OneTimePreKey, ok, err, not_found, invite_revoked,
}
use clixor_backend.Domain.Chat.{
  ConversationMember, ConversationInvite, Message, Receipt, owner, member, group,
}
use clixor_backend.Memory.{Store, new_store}
use clixor_backend.Memory.PreKeys.{
  keys_of, claim_key, bundled, bundle_of, claim_bundles, claim_pre_keys,
}
use clixor_backend.Memory.PreKeys.Spent.{DistinctKeys}
use clixor_backend.Memory.PreKeys.Once.{AllDistinct, same_key, claim_pre_keys_once}
use clixor_backend.Memory.Devices.{no_pre_key}
use clixor_backend.Memory.Examples.Accounts.{one_account, device}
use clixor_backend.Memory.Invites.{
  member_in, member_of, manages, revoke_link, revoke_key, revoke_conversation_invite,
  conversation_invite_preview,
}
use clixor_backend.Memory.Messages.{
  CreateMessageParams, member_ids, create_once, create_in_members, create_message, next_message,
  receipt_or_zero, upsert_receipt, conversation_or_zero,
}
use clixor_backend.Memory.Messages.Idempotent.{create_message_idempotent}
use clixor_backend.Memory.Messages.Monotone.{Ahead, upsert_receipt_monotone}
use clixor_backend.Memory.Messages.{new_message, next_conversation, store_message}
use clixor_backend.Memory.Messages.Listing.{
  ListMessagesParams, list_messages, list_params_invalid, visible, page_of, list_messages_filtered,
}
use clixor_backend.Compliance.{blocked_between}
use clixor_backend.Memory.Outbox.{append_outbox, append_outbox_at}
use clixor_backend.Memory.Ownership.{owns, swap_roles, transfer_in, transfer_conversation_ownership}
use clixor_backend.Memory.Ownership.OneOwner.{OneOwner, transfer-OneOwner}
use clixor_backend.Memory.Invites.Revoked.{revoked_link_refused}

abbrev key : ℕ → OneTimePreKey
key n = record { device_id = 3; key_id = n; public_key = ""; claimed_at = none }

abbrev keyed_device : Device
keyed_device = record device { identity_key = "i"; signed_pre_key = "s" }

abbrev armed : Store
armed = record one_account {
  devices = record { entries = (3, keyed_device) ∷ [] };
  pre_keys = record { entries = (3, (key 1 ∷ key 2 ∷ [])) ∷ [] };
}

armed-AllDistinct : AllDistinct armed.pre_keys
unfolding get find
armed-AllDistinct = λ id.
    if_both (λ o. DistinctKeys (keys_of o)) (3 == id) (some (key 1 ∷ key 2 ∷ [])) none
      ((omega arith, tt), (tt, tt)) tt

abbrev claimed_once : Store
claimed_once = (claim_pre_keys 1 10 armed).1

claim_pre_keys_once_example :
    All
      (λ b.
        All
          (λ c. same_key b c ≡ false)
          (bundle_of keyed_device (some (record (key 2) { claimed_at = some 20 })) ∷ []))
      (bundle_of keyed_device (some (record (key 1) { claimed_at = some 10 })) ∷ [])
claim_pre_keys_once_example =
    claim_pre_keys_once 1 1 10 20 armed claimed_once claimed_once
      (claim_pre_keys 1 20 claimed_once).1
      (bundle_of keyed_device (some (record (key 1) { claimed_at = some 10 })) ∷ [])
      (bundle_of keyed_device (some (record (key 2) { claimed_at = some 20 })) ∷ [])
      armed-AllDistinct
      (unfold claim_pre_keys claim_bundles claim_key bundled no_pre_key live is_deleted values
          value_list get find put without in
        refl)
      refl
      (unfold claim_pre_keys claim_bundles claim_key bundled no_pre_key live is_deleted values
          value_list get find put without in
        refl)

abbrev invite : ConversationInvite
invite = record {
  id = 8;
  conversation_id = 9;
  created_by = 1;
  max_uses = 5;
  uses = 0;
  expires_at = 100;
  revoked_at = none;
  created_at = 1;
}

abbrev boss : ConversationMember
boss = record { conversation_id = 9; user_id = 1; role = owner; joined_at = 1; muted_until = none }

abbrev linked : Store
linked = record new_store {
  members = record { entries = (9, record { entries = (1, boss) ∷ [] }) ∷ [] };
  invite_links = record { entries = ((5 ∷ []), invite) ∷ [] };
  invite_link_keys = record { entries = (8, (5 ∷ [])) ∷ [] };
}

abbrev unlinked : Store
unlinked = (revoke_conversation_invite 9 1 8 20 linked).1

revoked_link_refused_example :
    (conversation_invite_preview (5 ∷ []) 2 30 unlinked ≡ err invite_revoked)
    ⊎ (conversation_invite_preview (5 ∷ []) 2 30 unlinked ≡ err not_found)
revoked_link_refused_example =
    revoked_link_refused 9 1 8 2 (5 ∷ []) 20 30 linked unlinked
      (unfold revoke_conversation_invite revoke_key revoke_link manages member_of member_in get
          find in
        refl)
      (unfold get find in refl) (unfold member_of member_in get find in refl)

abbrev hello : CreateMessageParams
hello = record {
  id = 21;
  conversation_id = 9;
  sender_id = 1;
  sender_device_id = 3;
  client_message_id = "c1";
  content_type = "text";
  ciphertext = "x";
  envelope = "{}";
  reply_to_id = none;
}

abbrev said : Store
said = (create_message 50 10 hello linked).1

create_message_idempotent_example :
    create_message 51 20 (record hello { ciphertext = "y" }) said
    ≡ (ok (next_message 50 10 hello linked, 1 ∷ []), said)
create_message_idempotent_example =
    create_message_idempotent 50 51 10 20 hello (record hello { ciphertext = "y" }) linked said
      (next_message 50 10 hello linked, 1 ∷ []) refl
      (unfold create_message create_in_members create_once member_ids get find in refl)

abbrev read_to_two : Receipt
read_to_two = record {
  conversation_id = 9;
  user_id = 1;
  delivered_seq = 2;
  read_seq = 2;
  updated_at = 0;
}

upsert_receipt_monotone_example :
    Ahead
      (receipt_or_zero (get linked.receipts (9, 1)))
      (receipt_or_zero (get (upsert_receipt 20 read_to_two linked).1.receipts (9, 1)))
upsert_receipt_monotone_example = upsert_receipt_monotone 20 read_to_two linked (9, 1)

abbrev guest : ConversationMember
guest = record {
  conversation_id = 9;
  user_id = 2;
  role = member;
  joined_at = 1;
  muted_until = none;
}

abbrev two_members : Map Uuid ConversationMember
two_members = record { entries = (1, boss) ∷ (2, guest) ∷ [] }

abbrev team : Store
team = record new_store {
  conversations = record {
    entries = (9, record (conversation_or_zero none) { id = 9; kind = group; created_by = 1 }) ∷ [];
  };
  members = record { entries = (9, two_members) ∷ [] };
}

abbrev handed_over : Store
handed_over = (transfer_conversation_ownership 9 1 2 20 team).1

boss-OneOwner : OneOwner 1 two_members
unfolding get find owns
boss-OneOwner = record { holds = refl; alone = λ k h. alone k h }
  where
    alone : (k : Uuid) → owns (get two_members k) ≡ true → k ≡ 1
    alone k =
        if_cases (λ o. owns o ≡ true → k ≡ 1) (1 == k) (some boss)
          (if 2 == k then some guest else none) (λ e _. ground (arith, e))
          (λ _ h.
            absurd
              (if_both (λ o. owns o ≡ true → ⊥) (2 == k) (some guest) none (λ p. cc) (λ p. cc) h))

transfer-OneOwner_example :
    OneOwner 2 (swap_roles 1 2 two_members)
    × (get handed_over.members 9 ≡ some (swap_roles 1 2 two_members))
transfer-OneOwner_example =
    transfer-OneOwner 9 1 2 1 20 two_members team handed_over (unfold get find in refl)
      boss-OneOwner (unfold transfer_conversation_ownership transfer_in owns get find in refl)

abbrev page_of_ten : ListMessagesParams
page_of_ten = record {
  conversation_id = 9;
  user_id = 1;
  before_seq = none;
  after_seq = some 0;
  limit = 10;
}

abbrev shown : List Message
shown = next_message 50 10 hello linked ∷ []

list_messages_filtered_example :
    (length shown ≤ 10)
    × (length shown ≤ 500)
    × All (λ m. blocked_between 1 m.sender_id empty ≡ false) shown
list_messages_filtered_example = list_messages_filtered page_of_ten empty said shown (
    unfold list_messages list_params_invalid visible page_of blocked_between next_message
      new_message next_conversation inc64 create_message create_in_members create_once store_message
      append_outbox append_outbox_at member_of member_in get put find without in
    refl)
