-- ===== src/Memory/Push/Deliver.antt =====
-- internal/store/memory/memory.go: WithPushDeliveryLease. The shared sides of the two delivery
-- barriers are held throughout; the data lock in `begin_push`, in the search for the sender and in
-- `end_push`. `blocks` is the state of the compliance store while the callback runs.
use clixor_backend.Prelude.{
  ℕ, Option, none, some, List, [], ◌∷◌, Bool, true, false, not, ◌&&◌, ◌||◌, if◌then◌else◌, ◌==◌,
  nat_eq, string_eq,
}
use clixor_backend.Map.{get, put, delete}
use clixor_backend.Domain.{Uuid, Device, Error, invalid, not_found}
use clixor_backend.Domain.Chat.{Message}
use clixor_backend.Domain.Delivery.{PushDelivery}
use clixor_backend.Compliance.{Blocks, deliver_if_allowed}
use clixor_backend.Memory.{Store}
use clixor_backend.Memory.Messages.{messages_or_none}
use clixor_backend.Memory.Outbox.{is_set, get_or_zero}
use clixor_backend.Memory.Outbox.Deliver.{Callback}
use clixor_backend.Memory.Push.{holds_lease, resolve_target}

-- The row that the lease holds; one that is being delivered is not found.
unfoldable pub leased_push : ℕ → Uuid → Store → Option PushDelivery → Option PushDelivery
leased_push id token s none = none
leased_push id token s (some d) =
    if holds_lease token d && not (is_set (get s.active_push_deliveries id)) then some d else none

-- The row with its device's owner, token and platform; none without the device.
unfoldable pub with_target : Option Device → PushDelivery → Option PushDelivery
with_target none d = none
with_target (some device) d = some (resolve_target (some device) d)

unfoldable pub targeted : Store → Option PushDelivery → Option PushDelivery
unfolding with_target
targeted s none = none
targeted s (some d) = with_target (get s.devices d.device_id) d

unfoldable pub start_push : ℕ → Uuid → Store → Option PushDelivery → Option (PushDelivery × Store)
start_push id token s none = none
start_push id token s (some d) =
    some (d, record s { active_push_deliveries = put s.active_push_deliveries id token })

unfoldable pub begin_push : ℕ → Uuid → Store → Option (PushDelivery × Store)
unfolding start_push targeted leased_push
begin_push id token s =
    start_push id token s (targeted s (leased_push id token s (get s.push_deliveries id)))

-- The deferred release; `token` is not the zero UUID that a missing entry reads as.
unfoldable pub end_push : ℕ → Uuid → Store → Store
end_push id token s =
    if get_or_zero (get s.active_push_deliveries id) == token
    then record s { active_push_deliveries = delete s.active_push_deliveries id }
    else s

-- The sender of the first message with the id, the zero UUID without one.
unfoldable pub sender_of : Uuid → List Message → Uuid
sender_of id [] = 0
sender_of id (m ∷ ms) = let rest = sender_of id ms in if m.id == id then m.sender_id else rest

-- What the method returns for the answer of DeliverIfAllowed.
abbrev pub allowed_error : Bool × Option Error → Option Error
allowed_error (allowed, some e) = some e
allowed_error (true, none) = none
allowed_error (false, none) = some not_found

unfoldable pub deliver_push :
    Callback PushDelivery → Blocks → PushDelivery → Store → Option Error × Store
unfolding sender_of deliver_if_allowed
deliver_push deliver blocks d s =
    let sender = sender_of d.entity_id (messages_or_none (get s.messages d.conversation_id)) in
    let checked = deliver_if_allowed d.user_id sender blocks (deliver d) s in
    if d.kind == "message" && not (sender == 0)
    then (allowed_error checked.0, checked.1)
    else deliver d s

unfoldable pub run_push :
    ℕ
    → Uuid
    → Callback PushDelivery
    → Blocks
    → Option (PushDelivery × Store)
    → Store
    → Option Error × Store
unfolding deliver_push end_push
run_push id token deliver blocks none s = (some not_found, s)
run_push id token deliver blocks (some (d, s')) s =
    let r = deliver_push deliver blocks d s' in (r.0, end_push id token r.1)

-- WithPushDeliveryLease; the argument of type `Option Error` is ctx.Err().
unfoldable pub with_push_delivery_lease :
    ℕ → Uuid → Option (Callback PushDelivery) → Option Error → Blocks → Store → Option Error × Store
unfolding run_push begin_push
with_push_delivery_lease id token none ctx blocks s = (some invalid, s)
with_push_delivery_lease id token (some deliver) (some e) blocks s =
    if id == 0 || token == 0 then (some invalid, s) else (some e, s)
with_push_delivery_lease id token (some deliver) none blocks s =
    if id == 0 || token == 0
    then (some invalid, s)
    else run_push id token deliver blocks (begin_push id token s) s
