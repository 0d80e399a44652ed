-- ===== src/Memory/Messages.antt =====
-- internal/store/memory/memory.go: messages and receipts (CreateMessage, UpsertReceipt, memberIDs).
-- `fresh` is the value of uuid.New(). Sequence numbers are not negative; the request for a negative
-- one, that the source answers with a conflict, is outside the model.
pub mod Idempotent
pub mod Monotone
pub mod Listing
use clixor_backend.Prelude.{
  ℕ, String, Option, none, some, List, [], ◌∷◌, ◌++◌, Bool, ◌||◌, if◌then◌else◌, ◌==◌, nat_eq,
  string_eq, pair_eq, ltb, inc64,
}
use clixor_backend.Map.{Map, get, put}
use clixor_backend.Domain.{Uuid, Time, Result, ok, err, not_found, forbidden, conflict}
use clixor_backend.Domain.Chat.{
  Conversation, ConversationMember, Message, Receipt, of_message, of_receipt, other_kind,
}
use clixor_backend.Memory.{Store}
use clixor_backend.Memory.Outbox.{append_outbox, is_set}
use clixor_backend.Memory.Invites.{member_of}

-- store.CreateMessageParams
pub record CreateMessageParams : Type 0 where
  pub id : Uuid
  pub conversation_id : Uuid
  pub sender_id : Uuid
  pub sender_device_id : Uuid
  pub client_message_id : String
  pub content_type : String
  pub ciphertext : String
  pub envelope : String
  pub reply_to_id : Option Uuid

-- memberIDs, in the order of `range`.
unfoldable pub member_ids : List (Uuid × ConversationMember) → List Uuid
member_ids [] = []
member_ids ((id, m) ∷ ms) = id ∷ member_ids ms

-- s.conversations[id], the zero Conversation where it is missing.
abbrev pub conversation_or_zero : Option Conversation → Conversation
conversation_or_zero none = record {
  id = 0;
  kind = other_kind;
  title = "";
  avatar_url = "";
  metadata = "";
  created_by = 0;
  last_seq = 0;
  created_at = 0;
  updated_at = 0;
}
conversation_or_zero (some c) = c

abbrev pub messages_or_none : Option (List Message) → List Message
messages_or_none none = []
messages_or_none (some ms) = ms

-- The key of clientMessages.
abbrev pub idempotency_key : CreateMessageParams → Uuid × (Uuid × String)
idempotency_key p = (p.conversation_id, (p.sender_id, p.client_message_id))

unfoldable pub next_conversation : Time → Conversation → Conversation
next_conversation now c = record c { last_seq = inc64 c.last_seq; updated_at = now }

unfoldable pub new_message : Uuid → Time → CreateMessageParams → ℕ → Message
new_message fresh now p seq = record {
  id = if p.id == 0 then fresh else p.id;
  client_message_id = p.client_message_id;
  conversation_id = p.conversation_id;
  sender_id = p.sender_id;
  sender_device_id = p.sender_device_id;
  seq = seq;
  content_type = p.content_type;
  ciphertext = p.ciphertext;
  envelope = p.envelope;
  reply_to_id = p.reply_to_id;
  created_at = now;
  server_received_at = now;
}

-- The message that the conversation's next sequence number goes to.
unfoldable pub next_message : Uuid → Time → CreateMessageParams → Store → Message
next_message fresh now p s =
    new_message fresh now p
      (next_conversation now
        (conversation_or_zero (get s.conversations p.conversation_id))).last_seq

-- The writes of a message that is new.
unfoldable pub store_message : Time → CreateMessageParams → Message → Store → Store
store_message now p message s =
    append_outbox "message.created" p.conversation_id (of_message message) now (record s {
      conversations =
          put s.conversations p.conversation_id
            (next_conversation now (conversation_or_zero (get s.conversations p.conversation_id)));
      messages =
          put s.messages p.conversation_id
            (messages_or_none (get s.messages p.conversation_id) ++ message ∷ []);
      client_messages = put s.client_messages (idempotency_key p) message;
    })

-- The lookup of the idempotency key and what follows it.
unfoldable pub create_once :
    Uuid
    → Time
    → CreateMessageParams
    → List Uuid
    → Option Message
    → Store
    → Result (Message × List Uuid) × Store
create_once fresh now p ids (some existing) s = (ok (existing, ids), s)
create_once fresh now p ids none s =
    (ok (next_message fresh now p s, ids), store_message now p (next_message fresh now p s) s)

unfoldable pub create_in_members :
    Uuid
    → Time
    → CreateMessageParams
    → Option (Map Uuid ConversationMember)
    → Store
    → Result (Message × List Uuid) × Store
create_in_members fresh now p none s = (err not_found, s)
create_in_members fresh now p (some members) s =
    if is_set (get members p.sender_id)
    then create_once fresh now p (member_ids members.entries)
        (get s.client_messages (idempotency_key p)) s
    else (err forbidden, s)

-- CreateMessage
unfoldable pub create_message :
    Uuid → Time → CreateMessageParams → Store → Result (Message × List Uuid) × Store
create_message fresh now p s = create_in_members fresh now p (get s.members p.conversation_id) s

-- s.receipts[key], the zero Receipt where it is missing.
abbrev pub receipt_or_zero : Option Receipt → Receipt
receipt_or_zero none = record {
  conversation_id = 0;
  user_id = 0;
  delivered_seq = 0;
  read_seq = 0;
  updated_at = 0;
}
receipt_or_zero (some r) = r

abbrev pub receipt_key : Receipt → Uuid × Uuid
receipt_key r = (r.conversation_id, r.user_id)

unfoldable pub regresses : Receipt → Receipt → Bool
regresses receipt current =
    ltb receipt.delivered_seq current.delivered_seq || ltb receipt.read_seq current.read_seq

unfoldable pub stamp_receipt : Time → Receipt → Receipt
stamp_receipt now receipt = record receipt { updated_at = now }

unfoldable pub store_receipt : Time → Receipt → Store → Store
store_receipt now receipt s =
    append_outbox "receipt.updated" receipt.conversation_id (of_receipt receipt) now
      (record s { receipts = put s.receipts (receipt_key receipt) receipt })

-- UpsertReceipt
unfoldable pub upsert_receipt : Time → Receipt → Store → Result Receipt × Store
upsert_receipt now receipt s =
    if is_set (member_of receipt.conversation_id receipt.user_id s)
    then (if regresses receipt (receipt_or_zero (get s.receipts (receipt_key receipt)))
        then (err conflict, s)
        else (ok (stamp_receipt now receipt), store_receipt now (stamp_receipt now receipt) s))
    else (err forbidden, s)
