-- ===== src/Memory/Outbox/EachEvent.antt =====
-- What holds of every event of the outbox, and is kept by the writes to single events, is kept by
-- each method that writes the outbox in place or prunes it.
use clixor_backend.Prelude.{
  ℕ, zero, suc, Option, none, some, List, [], ◌∷◌, map, ◌||◌, All, All-select, Bool-cases, inl, inr,
  if_both, ltb, ◌==◌, nat_eq,
}
use mathlib.Core.Option
use clixor_backend.Map.{Map}
use clixor_backend.Domain.{Time, Result}
use clixor_backend.Domain.Delivery.{OutboxEvent}
use clixor_backend.Memory.{Store}
use clixor_backend.Memory.Outbox.{
  Claim, lease, lock_events, lock_outbox_batch, release_event, release_outbox_event, publish,
  releasable, store_released,
}
use clixor_backend.Memory.Outbox.Claims.{lock_events_cases}
use clixor_backend.Memory.Outbox.Prune.{max_retention_prune_batch_size, prune_published_outbox}

-- A property of single events that the in-place writes keep, for every event of the outbox.
module _ (P : OutboxEvent → Type 0)
    (leased : (c : Claim) (now : Time) (e : OutboxEvent) → P e → P (lease c now e))
    (published : (ids : List ℕ) (now : Time) (e : OutboxEvent) → P e → P (publish ids now e))
    (released : (at : Time) (e : OutboxEvent)
      → P e
      → P (record e { available_at = at; locked_until = none })) where
  lock_events-All :
      (c : Claim) (active : Map ℕ ℕ) (now : Time) (n : ℕ) (es : List OutboxEvent)
      → All P es
      → All P (lock_events c active now n es).0
  lock_events-All c active now zero es h = unfold lock_events in h
  lock_events-All c active now (suc n) [] h = unfold lock_events in tt
  lock_events-All c active now (suc n) (e ∷ es) h =
      lock_events_cases c active now n e es (λ o. All P o.0)
        (λ _. (leased c now e h.0, lock_events-All c active now n es h.1))
        (λ _. (h.0, lock_events-All c active now (suc n) es h.1))

  pub publish-All :
      (ids : List ℕ) (now : Time) (es : List OutboxEvent)
      → All P es
      → All P (map (publish ids now) es)
  publish-All ids now [] h = tt
  publish-All ids now (e ∷ es) h = (published ids now e h.0, publish-All ids now es h.1)

  abbrev AllOf : Option (List OutboxEvent) → Type 0
  AllOf none = Unit
  AllOf (some es) = All P es

  AllOf-cons :
      (e : OutboxEvent) (o : Option (List OutboxEvent))
      → P e
      → AllOf o
      → AllOf (Option.map (λ r. e ∷ r) o)
  AllOf-cons e none p h = tt
  AllOf-cons e (some es) p h = (p, h)

  release_event-All :
      (id : ℕ) (at : Time) (es : List OutboxEvent) → All P es → AllOf (release_event id at es)
  unfolding release_event
  release_event-All id at [] h = tt
  release_event-All id at (e ∷ es) h = elim (Bool-cases (releasable id e)) [
    | inl p ↦ rw p (released at e h.0, h.1)
    | inr p ↦ rw p (AllOf-cons e (release_event id at es) h.0 (release_event-All id at es h.1))
  ]

  pub release_outbox-All :
      (id : ℕ) (at : Time) (s : Store)
      → All P s.outbox
      → All P (release_outbox_event id at s).1.outbox
  unfolding release_outbox_event
  release_outbox-All id at s h =
      if_both {A = Result (Unit {0}) × Store} (λ r. All P r.1.outbox) (id == 0 || at == 0) _ _ h
        (stored (release_event id at s.outbox) (release_event-All id at s.outbox h))
    where
      stored : (o : Option (List OutboxEvent)) → AllOf o → All P (store_released s o).1.outbox
      stored none k = h
      stored (some es) k = k

  pub lock_outbox-All :
      (n : ℕ) (c : Claim) (now : Time) (s : Store)
      → All P s.outbox
      → All P (lock_outbox_batch n c now s).1.outbox
  unfolding lock_outbox_batch
  lock_outbox-All zero c now s h = h
  lock_outbox-All (suc n) c now s h =
      lock_events-All c s.active_realtime_deliveries now (suc n) s.outbox h

  pub prune-All :
      (cutoff : Time) (limit : ℕ) (s : Store)
      → All P s.outbox
      → All P (prune_published_outbox cutoff limit s).1.outbox
  unfolding prune_published_outbox
  prune-All cutoff limit s h =
      if_both {A = Result ℕ × Store} (λ r. All P r.1.outbox)
        (limit == 0 || ltb max_retention_prune_batch_size limit) _ _ h (All-select P _ s.outbox h)
