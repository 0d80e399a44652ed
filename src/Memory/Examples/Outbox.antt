-- ===== src/Memory/Examples/Outbox.antt =====
-- The outbox with two events.
use clixor_backend.Prelude.{
  ℕ, ◌≡◌, ◌≢◌, refl, sym, ap, inl, Option, none, some, [], ◌∷◌, select, Bool, true, false, arith,
  All, nat_eq, inc64,
}
use clixor_backend.Map.{empty, get, put, find, without}
use clixor_backend.Domain.{Time}
use clixor_backend.Domain.Chat.{raw}
use clixor_backend.Domain.Delivery.{OutboxEvent}
use clixor_backend.Memory.{Store, new_store}
use clixor_backend.Memory.Outbox.{
  realtime, media_delete, claimable, lease, lock_duration, lock_outbox_batch, lock_events,
  mark_outbox_published, topic_media_delete, append_outbox_at,
}
use clixor_backend.Memory.Outbox.Claims.{Disjoint, batch, lock_outbox_batch_exclusive}
use clixor_backend.Memory.Outbox.Batch.{Claimed, locked, lock_outbox_batch-Claimed}
use clixor_backend.Memory.Outbox.Deliver.{
  Callback, begin_realtime, start_realtime, find_leased, deliver_realtime_outbox,
}
use clixor_backend.Memory.Outbox.Delivery.{begin_realtime_exclusive, deliver_realtime_released}
use clixor_backend.Memory.Outbox.Prune.{prune_published_outbox}
use clixor_backend.Memory.Outbox.Published.{mark_published_final}
use clixor_backend.Memory.Outbox.Retention.{Retained, prune_keeps}
use clixor_backend.Memory.Outbox.Steps.{
  lock, append, here, next, OutboxInv, new_store-OutboxInv, Reach-OutboxInv,
}

abbrev event : ℕ → OutboxEvent
event id = record {
  id = id;
  topic = "message.created";
  aggregate_id = 9;
  payload = raw "{}";
  created_at = 1;
  published_at = none;
  available_at = 1;
  locked_until = none;
  attempts = 0;
}

abbrev two_events : Store
two_events = record new_store { outbox = event 1 ∷ event 2 ∷ []; next_outbox_id = 3 }

lock_outbox_batch_exclusive_example :
    Disjoint
      (batch (lock_outbox_batch 1 realtime 5 two_events))
      (batch (lock_outbox_batch 2 realtime 6 (lock_outbox_batch 1 realtime 5 two_events).1))
lock_outbox_batch_exclusive_example =
    lock_outbox_batch_exclusive 1 2 realtime realtime 5 6 two_events
      (lock_outbox_batch 1 realtime 5 two_events).1 (omega arith, (omega arith, tt)) refl
      (unfold lock_duration in omega arith)

abbrev one_claimed : Store
one_claimed = (lock_outbox_batch 1 realtime 5 two_events).1

lock_outbox_batch-Claimed_example :
    Claimed realtime empty 5 1 two_events.outbox one_claimed.outbox
      (locked realtime 5 (event 1) ∷ [])
    × (one_claimed ≡ record two_events { outbox = one_claimed.outbox })
lock_outbox_batch-Claimed_example =
    lock_outbox_batch-Claimed 1 realtime 5 two_events one_claimed (locked realtime 5 (event 1) ∷ [])
      (unfold lock_outbox_batch lock_events claimable lease lock_duration topic_media_delete inc64
          get find in
        refl)

mark_published_final_example :
    All
      (λ e. e.id ≢ 1)
      (batch (
        lock_outbox_batch 2 realtime 9
          (lock_outbox_batch 1 media_delete 7 (mark_outbox_published (1 ∷ []) 5 two_events)).1))
mark_published_final_example =
    mark_published_final 1 (1 ∷ []) 5 9 2 realtime two_events (omega arith) refl
      (next here (lock 1 media_delete 7))

Reach-OutboxInv_example :
    OutboxInv
      (lock_outbox_batch 2 realtime 4
        (append_outbox_at "message.created" 9 (raw "{}") 1 1 new_store)).1
Reach-OutboxInv_example =
    Reach-OutboxInv new_store-OutboxInv (
      next (next here (append "message.created" 9 (raw "{}") 1 1 (omega arith)))
        (lock 2 realtime 4))

abbrev claimed_store : Store
claimed_store = record new_store {
  outbox = record (event 1) { locked_until = some 30; attempts = 1 } ∷ event 2 ∷ [];
  next_outbox_id = 3;
}

abbrev active_store : Store
active_store = record claimed_store { active_realtime_deliveries = put empty 1 1 }

-- The event is available again while its delivery is still active.
abbrev later_store : Store
later_store = record active_store { outbox = event 1 ∷ event 2 ∷ event 3 ∷ [] }

begin_realtime_exclusive_example :
    (begin_realtime 1 2 later_store ≡ none)
    × All (λ d. d.id ≢ 1) (batch (lock_outbox_batch 2 realtime 40 later_store))
begin_realtime_exclusive_example =
    begin_realtime_exclusive 1 1 2 2 realtime 40 claimed_store active_store later_store
      (record (event 1) { locked_until = some 30; attempts = 1 })
      (unfold begin_realtime start_realtime find_leased topic_media_delete get find put without in
        refl)
      refl

-- A callback that writes nothing.
abbrev quiet : Callback OutboxEvent
quiet e s = (none, s)

deliver_realtime_released_example :
    get
      (deliver_realtime_outbox 1 1
        (some quiet)
        none
        none
        claimed_store).1.active_realtime_deliveries
      1
    ≡ none
deliver_realtime_released_example =
    deliver_realtime_released 1 1 (some quiet) none none claimed_store quiet_keeps
      (unfold get find in refl)
  where
    same : (f : Callback OutboxEvent) → some quiet ≡ some f → quiet ≡ f
    same f p = cc

    quiet_keeps :
        (f : Callback OutboxEvent)
        → some quiet ≡ some f
        → (d : OutboxEvent) (u : Store)
        → get (f d u).1.active_realtime_deliveries 1 ≡ get u.active_realtime_deliveries 1
    quiet_keeps f p d u =
        ap (λ (g : Callback OutboxEvent). get (g d u).1.active_realtime_deliveries 1)
          (sym (same f p))

abbrev half_published : Store
half_published = record new_store {
  outbox = record (event 1) { published_at = some 5 } ∷ event 2 ∷ [];
  next_outbox_id = 3;
}

unpublished : OutboxEvent → Bool
unpublished e = elim e.published_at [ none ↦ true | some t ↦ false ]

unpublished-Retained : (e : OutboxEvent) → unpublished e ≡ true → Retained 10 half_published e
unfolding unpublished
unpublished-Retained e h = inl (absent e.published_at h)
  where
    absent : (o : Option Time) → (elim o [ none ↦ true | some t ↦ false ]) ≡ true → o ≡ none
    absent none p = refl
    absent (some t) p = cc

prune_keeps_example :
    select unpublished (prune_published_outbox 10 5 half_published).1.outbox
    ≡ select unpublished half_published.outbox
prune_keeps_example =
    prune_keeps 10 5 half_published unpublished unpublished-Retained
      (omega arith, (omega arith, tt))
