-- ===== src/Memory/Push/Blocked.antt =====
-- WithPushDeliveryLease: a message between users who have blocked each other is not delivered.
use clixor_backend.Prelude.{ℕ, ◌≡◌, refl, none, some, true, false, ◌||◌, ◌==◌, nat_eq, string_eq}
use clixor_backend.Map.{get}
use clixor_backend.Domain.{Uuid, not_found}
use clixor_backend.Domain.Delivery.{PushDelivery}
use clixor_backend.Compliance.{Blocks, blocked_between, deliver_if_allowed}
use clixor_backend.Memory.{Store}
use clixor_backend.Memory.Messages.{messages_or_none}
use clixor_backend.Memory.Outbox.Deliver.{Callback}
use clixor_backend.Memory.Push.Deliver.{
  begin_push, end_push, sender_of, deliver_push, run_push, with_push_delivery_lease,
}

-- Where the lease is taken on the push of a message whose sender and receiver have blocked one
-- another, the callback is not run: the call answers not_found and gives the lease back.
pub blocked_push_silent :
    (id : ℕ) (token : Uuid) (deliver : Callback PushDelivery) (blocks : Blocks) (s t : Store)
    (d : PushDelivery)
    → (id == 0 || token == 0) ≡ false
    → begin_push id token s ≡ some (d, t)
    → (d.kind == "message") ≡ true
    → (sender_of d.entity_id (messages_or_none (get t.messages d.conversation_id)) == 0) ≡ false
    → blocked_between d.user_id
        (sender_of d.entity_id (messages_or_none (get t.messages d.conversation_id)))
        blocks
      ≡ true
    → with_push_delivery_lease id token (some deliver) none blocks s
      ≡ (some not_found, end_push id token t)
unfolding with_push_delivery_lease run_push deliver_push deliver_if_allowed
blocked_push_silent id token deliver blocks s t d ids begun kind sender blocked =
    rw (ids, begun, kind, sender, blocked) refl
