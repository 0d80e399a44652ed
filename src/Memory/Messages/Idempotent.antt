-- ===== src/Memory/Messages/Idempotent.antt =====
-- CreateMessage: a message is stored once for each client id.
use clixor_backend.Prelude.{
  String, Option, none, some, List, true, ◌≡◌, refl, ap, subst, if_cases, nat_eq, string_eq,
  pair_eq,
}
use clixor_backend.Map.{Map, get}
use clixor_backend.Map.Laws.{get-put, beq_refl}
use clixor_backend.Domain.{Uuid, Time, Result, ok}
use clixor_backend.Domain.Chat.{ConversationMember, Message}
use clixor_backend.Memory.{Store}
use clixor_backend.Memory.Outbox.{append_outbox, append_outbox_at, is_set}
use clixor_backend.Memory.Messages.{
  CreateMessageParams, member_ids, idempotency_key, next_message, store_message, create_once,
  create_in_members, create_message,
}

abbrev Reply : Type 0
Reply = Result (Message × List Uuid) × Store

-- What a success says: the members with the sender among them, and the message under its key.
record Sent (p : CreateMessageParams) (t : Store) (r : Message × List Uuid) : Type 0 where
  members : Map Uuid ConversationMember
  kept : get t.members p.conversation_id ≡ some members
  sender : is_set (get members p.sender_id) ≡ true
  ids : r.1 ≡ member_ids members.entries
  recorded : get t.client_messages (idempotency_key p) ≡ some r.0

store_message_members :
    (now : Time) (p : CreateMessageParams) (m : Message) (s : Store)
    → (store_message now p m s).members ≡ s.members
unfolding store_message append_outbox append_outbox_at
store_message_members now p m s = refl

store_message_recorded :
    (now : Time) (p : CreateMessageParams) (m : Message) (s : Store)
    → get (store_message now p m s).client_messages (idempotency_key p) ≡ some m
unfolding store_message append_outbox append_outbox_at
store_message_recorded now p m s =
    rw (get-put, beq_refl {K = Uuid × (Uuid × String)} (idempotency_key p)) refl

once-Sent :
    (fresh : Uuid) (now : Time) (p : CreateMessageParams) (members : Map Uuid ConversationMember)
    (o : Option Message) (s t : Store) (r : Message × List Uuid)
    → get s.members p.conversation_id ≡ some members
    → is_set (get members p.sender_id) ≡ true
    → get s.client_messages (idempotency_key p) ≡ o
    → create_once fresh now p (member_ids members.entries) o s ≡ (ok r, t)
    → Sent p t r
unfolding create_once
once-Sent fresh now p members (some existing) s t r k m f h =
    subst (λ (q : Store × (Message × List Uuid)). Sent p q.0 q.1) same
      (record { members = members; kept = k; sender = m; ids = refl; recorded = f })
  where
    same : Path (Store × (Message × List Uuid)) (s, (existing, member_ids members.entries)) (t, r)
    same = cc
once-Sent fresh now p members none s t r k m f h =
    subst (λ (q : Store × (Message × List Uuid)). Sent p q.0 q.1) same
      (record {
        members = members;
        kept = rw (store_message_members now p (next_message fresh now p s) s) k;
        sender = m;
        ids = refl;
        recorded = store_message_recorded now p (next_message fresh now p s) s;
      })
  where
    same :
        Path
          (Store × (Message × List Uuid))
          (
            store_message now p (next_message fresh now p s) s,
            (next_message fresh now p s, member_ids members.entries),
          )
          (t, r)
    same = cc

created-Sent :
    (fresh : Uuid) (now : Time) (p : CreateMessageParams) (o : Option (Map Uuid ConversationMember))
    (s t : Store) (r : Message × List Uuid)
    → get s.members p.conversation_id ≡ o
    → create_in_members fresh now p o s ≡ (ok r, t)
    → Sent p t r
unfolding create_in_members
created-Sent fresh now p none s t r k = λ h. cc
created-Sent fresh now p (some members) s t r k =
    if_cases {A = Reply} (λ q. q ≡ (ok r, t) → Sent p t r) (is_set (get members p.sender_id)) _ _
      (λ m h.
        once-Sent fresh now p members (get s.client_messages (idempotency_key p)) s t r k m refl h)
      (λ _ h. cc)

-- Sending is idempotent: once a message was accepted, every further call for the same
-- conversation, sender and client message id, whatever else it carries and whenever it comes,
-- returns the same message and the same members and writes nothing.
pub create_message_idempotent :
    (fresh fresh' : Uuid) (now later : Time) (p p' : CreateMessageParams) (s t : Store)
    (r : Message × List Uuid)
    → idempotency_key p' ≡ idempotency_key p
    → create_message fresh now p s ≡ (ok r, t)
    → create_message fresh' later p' t ≡ (ok r, t)
unfolding create_message create_in_members create_once
create_message_idempotent fresh fresh' now later p p' s t r same h =
    rw (conversation, v.kept, sender, v.sender, client, v.recorded, ← v.ids) refl
  where
    v : Sent p t r
    v = created-Sent fresh now p (get s.members p.conversation_id) s t r refl h

    conversation : p'.conversation_id ≡ p.conversation_id
    conversation = ap (λ (k : Uuid × (Uuid × String)). k.0) same

    sender : p'.sender_id ≡ p.sender_id
    sender = ap (λ (k : Uuid × (Uuid × String)). k.1.0) same

    client : p'.client_message_id ≡ p.client_message_id
    client = ap (λ (k : Uuid × (Uuid × String)). k.1.1) same
