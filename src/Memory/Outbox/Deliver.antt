-- ===== src/Memory/Outbox/Deliver.antt =====
-- internal/store/memory/memory.go: DeliverRealtimeOutbox. The shared side of the delivery barrier
-- is held throughout; the data lock only in `begin_realtime` and `end_realtime`.
use clixor_backend.Prelude.{
  ℕ, Option, none, some, List, [], ◌∷◌, not, ◌&&◌, ◌||◌, if◌then◌else◌, ◌==◌, nat_eq,
}
use clixor_backend.Map.{Map, get, put, delete}
use clixor_backend.Domain.{Error, invalid, not_found}
use clixor_backend.Domain.Delivery.{OutboxEvent}
use clixor_backend.Memory.{Store}
use clixor_backend.Memory.Outbox.{is_set, get_or_zero, topic_media_delete}

-- A callback of a delivery: it may call methods of the store, and returns nil or an error.
abbrev pub Callback : Type 0 → Type 0
Callback A = A → Store → Option Error × Store

-- The search of DeliverRealtimeOutbox, under the data lock.
unfoldable pub find_leased : ℕ → ℕ → Map ℕ ℕ → List OutboxEvent → Option OutboxEvent
find_leased id attempt active [] = none
find_leased id attempt active (e ∷ es) =
    let rest = find_leased id attempt active es in
    if e.id == id
      && not (is_set e.published_at)
      && not (topic_media_delete e.topic)
      && e.attempts == attempt
      && is_set e.locked_until
    then (if is_set (get active id) then none else some e)
    else rest

unfoldable pub start_realtime : ℕ → ℕ → Store → Option OutboxEvent → Option (OutboxEvent × Store)
start_realtime id attempt s none = none
start_realtime id attempt s (some e) =
    some (e, record s { active_realtime_deliveries = put s.active_realtime_deliveries id attempt })

unfoldable pub begin_realtime : ℕ → ℕ → Store → Option (OutboxEvent × Store)
begin_realtime id attempt s =
    start_realtime id attempt s (find_leased id attempt s.active_realtime_deliveries s.outbox)

-- The deferred release; `none` reads as 0, which no attempt is.
unfoldable pub end_realtime : ℕ → ℕ → Store → Store
end_realtime id attempt s =
    if is_set (get s.active_realtime_deliveries id)
      && get_or_zero (get s.active_realtime_deliveries id) == attempt
    then record s { active_realtime_deliveries = delete s.active_realtime_deliveries id }
    else s

-- After the claim: the callback on the leased event, then the release, whatever it returned.
unfoldable pub run_claimed :
    ℕ
    → ℕ
    → Callback OutboxEvent
    → Option Error
    → Option (OutboxEvent × Store)
    → Store
    → Option Error × Store
run_claimed id attempt deliver ctx none s = (some not_found, s)
run_claimed id attempt deliver ctx (some (e, s')) s =
    let r = deliver e s' in
    (elim r.0 [ none ↦ ctx | some error ↦ some error ], end_realtime id attempt r.1)

-- DeliverRealtimeOutbox; the two arguments of type `Option Error` are ctx.Err() before the
-- claim and after the callback.
unfoldable pub deliver_realtime_outbox :
    ℕ
    → ℕ
    → Option (Callback OutboxEvent)
    → Option Error
    → Option Error
    → Store
    → Option Error × Store
unfolding run_claimed
deliver_realtime_outbox id attempt none ctx ctx' s = (some invalid, s)
deliver_realtime_outbox id attempt (some deliver) (some error) ctx' s =
    if id == 0 || attempt == 0 then (some invalid, s) else (some error, s)
deliver_realtime_outbox id attempt (some deliver) none ctx' s =
    if id == 0 || attempt == 0
    then (some invalid, s)
    else run_claimed id attempt deliver ctx' (begin_realtime id attempt s) s
