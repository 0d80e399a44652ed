-- ===== src/Memory/Outbox/Published.antt =====
-- A published event is never handed to a worker again.
use clixor_backend.Prelude.{
  ℕ, zero, suc, ◌<◌, ◌≡◌, ◌≢◌, sym, ◌∙◌, String, List, [], ◌∷◌, map, true, false, arith, All,
  All-append, max_int64, inc64_lem, exists, ◌==◌, nat_eq,
}
use clixor_backend.Map.{Map}
use clixor_backend.Domain.{Uuid, Time}
use clixor_backend.Domain.Chat.{Payload}
use clixor_backend.Domain.Delivery.{OutboxEvent}
use clixor_backend.Memory.{Store}
use clixor_backend.Memory.Outbox.{
  Claim, claimable, lease, lock_events, lock_outbox_batch, append_outbox_at, publish,
  mark_outbox_published, is_set,
}
use clixor_backend.Memory.Outbox.Claims.{lock_events_cases, batch}
use clixor_backend.Memory.Outbox.Order.{publish_id, lock-next, release-next, prune-next}
use clixor_backend.Memory.Outbox.EachEvent.{
  publish-All, release_outbox-All, lock_outbox-All, prune-All,
}
use clixor_backend.Memory.Outbox.Steps.{Step, lock, append, release, mark, prune, Reach, here, next}

-- The event with this id, where the outbox still holds one, is published.
abbrev Done : ℕ → OutboxEvent → Type 0
Done id e = e.id ≡ id → is_set e.published_at ≡ true

record Settled (id : ℕ) (s : Store) : Type 0 where
  issued : id < s.next_outbox_id
  done : All (Done id) s.outbox

publish_set :
    (ids : List ℕ) (now : Time) (e : OutboxEvent)
    → is_set e.published_at ≡ true
    → is_set (publish ids now e).published_at ≡ true
unfolding publish
publish_set ids now e h = ground arith

publish_named :
    (ids : List ℕ) (now : Time) (e : OutboxEvent)
    → exists (λ j. e.id == j) ids ≡ true
    → is_set (publish ids now e).published_at ≡ true
unfolding publish
publish_named ids now e h = rw h (ground arith)

module _ (id : ℕ) where
  lease-Done : (c : Claim) (now : Time) (e : OutboxEvent) → Done id e → Done id (lease c now e)
  unfolding lease
  lease-Done c now e h = h

  publish-Done :
      (ids : List ℕ) (now : Time) (e : OutboxEvent) → Done id e → Done id (publish ids now e)
  publish-Done ids now e h = λ p. publish_set ids now e (h (sym (publish_id ids now e) ∙ p))

  append-Settled :
      (topic : String) (aggregate : Uuid) (payload : Payload) (at now : Time) (s : Store)
      → s.next_outbox_id < max_int64
      → Settled id s
      → Settled id (append_outbox_at topic aggregate payload at now s)
  unfolding append_outbox_at
  append-Settled topic aggregate payload at now s h v = record {
    issued = rw (inc64_lem s.next_outbox_id h) (omega (arith, v.issued));
    done = All-append (Done id) s.outbox _ v.done (λ p. absurd (omega (arith, v.issued, p)), tt);
  }

  Step-Settled : {s t : Store} → Step s t → Settled id s → Settled id t
  Step-Settled {s} (lock n c now) v = record {
    issued = rw (lock-next s n c now) v.issued;
    done = lock_outbox-All (Done id) lease-Done publish-Done (λ at e h. h) n c now s v.done;
  }
  Step-Settled {s} (append topic aggregate payload at now h) v =
      append-Settled topic aggregate payload at now s h v
  Step-Settled {s} (release i at) v = record {
    issued = rw (release-next s i at) v.issued;
    done = release_outbox-All (Done id) lease-Done publish-Done (λ at e h. h) i at s v.done;
  }
  Step-Settled {s} (mark ids now) v =
      unfold mark_outbox_published in
      record {
        issued = v.issued;
        done = publish-All (Done id) lease-Done publish-Done (λ at e h. h) ids now s.outbox v.done;
      }
  Step-Settled {s} (prune cutoff limit) v = record {
    issued = rw (prune-next s cutoff limit) v.issued;
    done = prune-All (Done id) lease-Done publish-Done (λ at e h. h) cutoff limit s v.done;
  }

  Reach-Settled : {s t : Store} → Settled id s → Reach s t → Settled id t
  Reach-Settled v here = v
  Reach-Settled v (next r st) = Step-Settled st (Reach-Settled v r)

  claimable-unpublished :
      (c : Claim) (active : Map ℕ ℕ) (now : Time) (e : OutboxEvent)
      → claimable c active now e ≡ true
      → is_set e.published_at ≡ false
  unfolding claimable
  claimable-unpublished c active now e h = ground arith

  lease-ne :
      (c : Claim) (now : Time) (e : OutboxEvent)
      → Done id e
      → is_set e.published_at ≡ false
      → (lease c now e).id ≢ id
  unfolding lease
  lease-ne c now e d u = λ p. cc (d p)

  claimed_not-Done :
      (c : Claim) (active : Map ℕ ℕ) (now : Time) (n : ℕ) (es : List OutboxEvent)
      → All (Done id) es
      → All (λ e. e.id ≢ id) (lock_events c active now n es).1
  claimed_not-Done c active now zero es h = unfold lock_events in tt
  claimed_not-Done c active now (suc n) [] h = unfold lock_events in tt
  claimed_not-Done c active now (suc n) (e ∷ es) h =
      lock_events_cases c active now n e es (λ o. All (λ d. d.id ≢ id) o.1)
        (λ p. (
          lease-ne c now e h.0 (claimable-unpublished c active now e p),
          claimed_not-Done c active now n es h.1,
        ))
        (λ _. claimed_not-Done c active now (suc n) es h.1)

  batch_not_done :
      (n : ℕ) (c : Claim) (now : Time) (s : Store)
      → Settled id s
      → All (λ e. e.id ≢ id) (batch (lock_outbox_batch n c now s))
  unfolding lock_outbox_batch
  batch_not_done zero c now s v = tt
  batch_not_done (suc n) c now s v =
      claimed_not-Done c s.active_realtime_deliveries now (suc n) s.outbox v.done

mark-Done :
    (id : ℕ) (ids : List ℕ) (now : Time) (es : List OutboxEvent)
    → exists (λ j. id == j) ids ≡ true
    → All (Done id) (map (publish ids now) es)
mark-Done id ids now [] h = tt
mark-Done id ids now (e ∷ es) h = (marked, mark-Done id ids now es h)
  where
    marked : Done id (publish ids now e)
    marked p = publish_named ids now e (rw (sym (publish_id ids now e) ∙ p) h)

-- After MarkOutboxPublished has named an issued id, no batch claim returns an event with that
-- id, whatever claims, appends, releases, publications and prunings happen in between.
pub mark_published_final :
    (id : ℕ) (ids : List ℕ) (now later : Time) (n : ℕ) (c : Claim) (s : Store) {t : Store}
    → id < s.next_outbox_id
    → exists (λ j. id == j) ids ≡ true
    → Reach (mark_outbox_published ids now s) t
    → All (λ e. e.id ≢ id) (batch (lock_outbox_batch n c later t))
unfolding mark_outbox_published
mark_published_final id ids now later n c s {t} i h r =
    batch_not_done id n c later t
      (Reach-Settled id (record { issued = i; done = mark-Done id ids now s.outbox h }) r)
