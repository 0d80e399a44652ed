-- ===== src/Memory/Outbox/Order.antt =====
-- The ids rise along the outbox and every write keeps them so; only an append moves the counter.
use clixor_backend.Prelude.{
  ℕ, zero, suc, ◌<◌, ◌≡◌, refl, Option, none, some, List, [], ◌∷◌, ◌++◌, map, Bool, ◌||◌, All,
  arith, select, if_both, ltb, ◌==◌, nat_eq,
}
use mathlib.Core.Option
use clixor_backend.Domain.{Time, Result}
use clixor_backend.Domain.Delivery.{OutboxEvent}
use clixor_backend.Memory.{Store}
use clixor_backend.Memory.Outbox.{
  Claim, lock_outbox_batch, release_event, release_outbox_event, publish, releasable,
  store_released,
}
use clixor_backend.Memory.Outbox.Claims.{Rising, Rising-mono, lock_events-Rising}
use clixor_backend.Memory.Outbox.Prune.{max_retention_prune_batch_size, prune_published_outbox}

pub Rising-append :
    (lo : ℕ) (es : List OutboxEvent) (e : OutboxEvent)
    → Rising lo es
    → All (λ d. d.id < e.id) es
    → lo < e.id
    → Rising lo (es ++ e ∷ [])
Rising-append lo [] e r h p = (p, tt)
Rising-append lo (d ∷ es) e r h p = (r.0, Rising-append d.id es e r.1 h.1 h.0)

Rising-select :
    (p : OutboxEvent → Bool) (lo : ℕ) (es : List OutboxEvent)
    → Rising lo es
    → Rising lo (select p es)
Rising-select p lo [] r = tt
Rising-select p lo (e ∷ es) r =
    if_both (Rising lo) (p e) _ _ (r.0, Rising-select p e.id es r.1)
      (Rising-mono lo e.id (select p es) (omega arith) (Rising-select p e.id es r.1))

pub publish_id : (ids : List ℕ) (now : Time) (e : OutboxEvent) → (publish ids now e).id ≡ e.id
unfolding publish
publish_id ids now e = ground arith

pub Rising-publish :
    (ids : List ℕ) (now : Time) (lo : ℕ) (es : List OutboxEvent)
    → Rising lo es
    → Rising lo (map (publish ids now) es)
Rising-publish ids now lo [] r = tt
Rising-publish ids now lo (e ∷ es) r =
    rw (publish_id ids now e) (r.0, Rising-publish ids now e.id es r.1)

abbrev RisingOf : ℕ → Option (List OutboxEvent) → Type 0
RisingOf lo none = Unit
RisingOf lo (some es) = Rising lo es

RisingOf-cons :
    (lo : ℕ) (e : OutboxEvent) (o : Option (List OutboxEvent))
    → lo < e.id
    → RisingOf e.id o
    → RisingOf lo (Option.map (λ r. e ∷ r) o)
RisingOf-cons lo e none p h = tt
RisingOf-cons lo e (some es) p h = (p, h)

Rising-release :
    (id : ℕ) (at : Time) (lo : ℕ) (es : List OutboxEvent)
    → Rising lo es
    → RisingOf lo (release_event id at es)
unfolding release_event
Rising-release id at lo [] r = tt
Rising-release id at lo (e ∷ es) r =
    if_both (RisingOf lo) (releasable id e) _ _ (r.0, r.1)
      (RisingOf-cons lo e (release_event id at es) r.0 (Rising-release id at e.id es r.1))

store_released-Rising :
    (s : Store) (o : Option (List OutboxEvent))
    → Rising 0 s.outbox
    → RisingOf 0 o
    → Rising 0 (store_released s o).1.outbox
unfolding store_released
store_released-Rising s none r h = r
store_released-Rising s (some es) r h = h

store_released-next :
    (s : Store) (o : Option (List OutboxEvent))
    → (store_released s o).1.next_outbox_id ≡ s.next_outbox_id
unfolding store_released
store_released-next s none = refl
store_released-next s (some es) = refl

module _ (s : Store) where
  pub lock-next :
      (n : ℕ) (c : Claim) (now : Time)
      → (lock_outbox_batch n c now s).1.next_outbox_id ≡ s.next_outbox_id
  unfolding lock_outbox_batch
  lock-next zero c now = refl
  lock-next (suc n) c now = refl

  pub release-next :
      (id : ℕ) (at : Time) → (release_outbox_event id at s).1.next_outbox_id ≡ s.next_outbox_id
  unfolding release_outbox_event
  release-next id at =
      if_both {A = Result (Unit {0}) × Store} (λ r. r.1.next_outbox_id ≡ s.next_outbox_id)
        (id == 0 || at == 0) _ _ refl (store_released-next s (release_event id at s.outbox))

  pub prune-next :
      (cutoff : Time) (limit : ℕ)
      → (prune_published_outbox cutoff limit s).1.next_outbox_id ≡ s.next_outbox_id
  unfolding prune_published_outbox
  prune-next cutoff limit =
      if_both {A = Result ℕ × Store} (λ r. r.1.next_outbox_id ≡ s.next_outbox_id)
        (limit == 0 || ltb max_retention_prune_batch_size limit) _ _ refl refl

  pub lock-Rising :
      (n : ℕ) (c : Claim) (now : Time)
      → Rising 0 s.outbox
      → Rising 0 (lock_outbox_batch n c now s).1.outbox
  unfolding lock_outbox_batch
  lock-Rising zero c now r = r
  lock-Rising (suc n) c now r =
      lock_events-Rising c s.active_realtime_deliveries now (suc n) 0 s.outbox r

  pub release-Rising :
      (id : ℕ) (at : Time) → Rising 0 s.outbox → Rising 0 (release_outbox_event id at s).1.outbox
  unfolding release_outbox_event
  release-Rising id at r =
      if_both {A = Result (Unit {0}) × Store} (λ q. Rising 0 q.1.outbox) (id == 0 || at == 0) _ _ r
        (store_released-Rising s _ r (Rising-release id at 0 s.outbox r))

  pub prune-Rising :
      (cutoff : Time) (limit : ℕ)
      → Rising 0 s.outbox
      → Rising 0 (prune_published_outbox cutoff limit s).1.outbox
  unfolding prune_published_outbox
  prune-Rising cutoff limit r =
      if_both {A = Result ℕ × Store} (λ q. Rising 0 q.1.outbox)
        (limit == 0 || ltb max_retention_prune_batch_size limit) _ _ r
        (Rising-select _ 0 s.outbox r)
