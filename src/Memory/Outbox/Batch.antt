-- ===== src/Memory/Outbox/Batch.antt =====
-- lockOutboxBatch against an independent description of the batch that it claims.
use clixor_backend.Prelude.{
  ℕ, zero, suc, ◌+◌, ◌%◌, ◌≤◌, ◌≡◌, refl, sym, subst, ◌∙◌, String, Option, none, some, List, [],
  ◌∷◌, Bool, true, false, not, ◌&&◌, ◌||◌, ltb, arith, ◌==◌, nat_eq, string_eq, ap, if_cases, inc64,
}
use clixor_backend.Map.{Map, get}
use clixor_backend.Domain.{Time, ok, after}
use clixor_backend.Domain.Delivery.{OutboxEvent}
use clixor_backend.Memory.{Store}
use clixor_backend.Memory.Outbox.{
  Claim, realtime, media_delete, claimable, claim_skips, lease, lock_events, lock_outbox_batch,
  lock_duration, topic_media_delete, is_set, set_after,
}

-- The end of a lock, 0 without one.
abbrev lock_end : Option Time → Time
lock_end none = 0
lock_end (some t) = t

-- Whether a claim is for media deletions, and how long its locks last: 30 minutes or 30 seconds.
abbrev for_media : Claim → Bool
for_media realtime = false
for_media media_delete = true

abbrev lock_time : Claim → Time
lock_time realtime = 30_000_000_000
lock_time media_delete = 1_800_000_000_000

-- An event that a claim may take: unpublished, due, not locked beyond now, of the claim's topic,
-- and not being delivered.
pub record IsFree (c : Claim) (active : Map ℕ ℕ) (now : Time) (e : OutboxEvent) : Type 0 where
  pub unpublished : e.published_at ≡ none
  pub due : e.available_at ≤ now
  pub unlocked : lock_end e.locked_until ≤ now
  pub topic : (e.topic == "media.delete") ≡ for_media c
  pub inactive : get active e.id ≡ none

-- The event as it is claimed: one attempt more, and locked.
abbrev pub locked : Claim → Time → OutboxEvent → OutboxEvent
locked c now e = record e {
  locked_until = some (now + lock_time c);
  attempts = (e.attempts + 1) % 18446744073709551616;
}

-- Which events a claim of at most `n` takes of an outbox, and the outbox that it leaves.
pub data Claimed (c : Claim) (active : Map ℕ ℕ) (now : Time)
    : ℕ → List OutboxEvent → List OutboxEvent → List OutboxEvent → Type 0 where
  limit_reached : (es : List OutboxEvent) → Claimed c active now 0 es es []
  outbox_ended : (n : ℕ) → Claimed c active now n [] [] []
  event_claimed :
      (n : ℕ) (e : OutboxEvent) (es rest batch : List OutboxEvent)
      → IsFree c active now e
      → Claimed c active now n es rest batch
      → Claimed c active now (suc n) (e ∷ es) (locked c now e ∷ rest) (locked c now e ∷ batch)
  event_left :
      (n : ℕ) (e : OutboxEvent) (es rest batch : List OutboxEvent)
      → (IsFree c active now e → ⊥)
      → Claimed c active now (suc n) es rest batch
      → Claimed c active now (suc n) (e ∷ es) (e ∷ rest) batch

unset : {A : Type 0} (o : Option A) → is_set o ≡ false → o ≡ none
unset none h = refl
unset (some a) h = cc

lock_over : (o : Option Time) (now : Time) → set_after o now ≡ false → lock_end o ≤ now
lock_over none now h = omega arith
lock_over (some t) now h = ground arith

over_lock : (o : Option Time) (now : Time) → lock_end o ≤ now → set_after o now ≡ false
over_lock none now h = refl
over_lock (some t) now h = ground arith

skips_topic :
    (c : Claim) (topic : String)
    → claim_skips c topic ≡ false
    → (topic == "media.delete") ≡ for_media c
unfolding topic_media_delete
skips_topic realtime topic h = h
skips_topic media_delete topic h = ground arith

topic_kept :
    (c : Claim) (topic : String)
    → (topic == "media.delete") ≡ for_media c
    → claim_skips c topic ≡ false
unfolding topic_media_delete
topic_kept realtime topic h = h
topic_kept media_delete topic h = rw h refl

all_off :
    (a b d f g : Bool)
    → (not (a || b || d) && not f && not g) ≡ true
    → (a ≡ false) × (b ≡ false) × (d ≡ false) × (f ≡ false) × (g ≡ false)
all_off a b d f g h = ground arith

due_by : (at now : Time) → (ltb 0 at && after at now) ≡ false → at ≤ now
due_by at now h = ground arith

by_due : (at now : Time) → at ≤ now → (ltb 0 at && after at now) ≡ false
by_due at now h = ground arith

module _ (c : Claim) (active : Map ℕ ℕ) (now : Time) where
  claimable-IsFree : (e : OutboxEvent) → claimable c active now e ≡ true → IsFree c active now e
  unfolding claimable
  claimable-IsFree e h =
      let (unpublished, due, unlocked, topic, inactive) = all_off _ _ _ _ _ h in
      record {
        unpublished = unset e.published_at unpublished;
        due = due_by e.available_at now due;
        unlocked = lock_over e.locked_until now unlocked;
        topic = skips_topic c e.topic topic;
        inactive = unset (get active e.id) inactive;
      }

  IsFree-claimable : (e : OutboxEvent) → IsFree c active now e → claimable c active now e ≡ true
  unfolding claimable
  IsFree-claimable e f =
      rw
        (
          f.unpublished,
          by_due e.available_at now f.due,
          over_lock e.locked_until now f.unlocked,
          topic_kept c e.topic f.topic,
          f.inactive,
        )
        refl

  lock_duration_lem : (c : Claim) → lock_duration c ≡ lock_time c
  unfolding lock_duration
  lock_duration_lem realtime = refl
  lock_duration_lem media_delete = refl

  lease_lem : (e : OutboxEvent) → lease c now e ≡ locked c now e
  unfolding lease inc64
  lease_lem e =
      ap
        (λ t. record e {
          locked_until = some (now + t);
          attempts = (e.attempts + 1) % 18446744073709551616;
        })
        (lock_duration_lem c)

  lock_events-Claimed :
      (n : ℕ) (es : List OutboxEvent)
      → Claimed c active now n es
          (lock_events c active now n es).0
          (lock_events c active now n es).1
  unfolding lock_events
  lock_events-Claimed zero es = limit_reached es
  lock_events-Claimed (suc n) [] = outbox_ended (suc n)
  lock_events-Claimed (suc n) (e ∷ es) =
      if_cases {A = List OutboxEvent × List OutboxEvent}
        (λ r. Claimed c active now (suc n) (e ∷ es) r.0 r.1) (claimable c active now e) _ _
        (λ h.
          rw (lease_lem e)
            (event_claimed n e es _ _ (claimable-IsFree e h) (lock_events-Claimed n es)))
        (λ h.
          event_left n e es _ _
            (λ f. let clash : true ≡ false = sym (IsFree-claimable e f) ∙ h in cc)
            (lock_events-Claimed (suc n) es))

-- A successful batch claim takes, walking the outbox in its order, every event that is free, up to
-- the limit, and no other: each event that it takes is returned and stored with one attempt more
-- and its lock set, each that it passes or does not reach stays as it is, and nothing else of the
-- store changes.
pub lock_outbox_batch-Claimed :
    (n : ℕ) (c : Claim) (now : Time) (s t : Store) (batch : List OutboxEvent)
    → lock_outbox_batch n c now s ≡ (ok batch, t)
    → Claimed c s.active_realtime_deliveries now n s.outbox t.outbox batch
      × (t ≡ record s { outbox = t.outbox })
unfolding lock_outbox_batch
lock_outbox_batch-Claimed zero c now s t batch h = cc
lock_outbox_batch-Claimed (suc n) c now s t batch h =
    let r = lock_events c s.active_realtime_deliveries now (suc n) s.outbox in
    let same : (r.1, record s { outbox = r.0 }) ≡ (batch, t) = cc in
    subst
      (λ (q : List OutboxEvent × Store).
        Claimed c s.active_realtime_deliveries now (suc n) s.outbox q.1.outbox q.0
        × (q.1 ≡ record s { outbox = q.1.outbox }))
      same (lock_events-Claimed c s.active_realtime_deliveries now (suc n) s.outbox, refl)
