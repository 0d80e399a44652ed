-- ===== src/Memory/Outbox/Steps.antt =====
-- The outbox as a transition system: the modelled methods that write it, and what every sequence
-- of them keeps.
use clixor_backend.Prelude.{
  ℕ, ◌+◌, ◌<◌, ◌≡◌, sym, subst, refl, String, List, arith, All, All-append, All-map, max_int64,
  inc64_lem, nat_eq,
}
use clixor_backend.Domain.{Uuid, Time}
use clixor_backend.Domain.Chat.{Payload}
use clixor_backend.Domain.Delivery.{OutboxEvent}
use clixor_backend.Memory.{Store, new_store}
use clixor_backend.Memory.Outbox.{
  Claim, lease, lock_outbox_batch, append_outbox_at, release_outbox_event, publish,
  mark_outbox_published,
}
use clixor_backend.Memory.Outbox.Claims.{Rising}
use clixor_backend.Memory.Outbox.Prune.{prune_published_outbox}
use clixor_backend.Memory.Outbox.EachEvent.{
  publish-All, release_outbox-All, lock_outbox-All, prune-All,
}
use clixor_backend.Memory.Outbox.Order.{
  Rising-append, Rising-publish, publish_id, lock-next, release-next, prune-next, lock-Rising,
  release-Rising, prune-Rising,
}

-- One call of a modelled method that writes the outbox. The counter of ids has not run out.
pub data Step (s : Store) : Store → Type 0 where
  lock : (n : ℕ) (claim : Claim) (now : Time) → Step s (lock_outbox_batch n claim now s).1
  append :
      (topic : String) (id : Uuid) (payload : Payload) (at now : Time)
      → s.next_outbox_id < max_int64
      → Step s (append_outbox_at topic id payload at now s)
  release : (id : ℕ) (at : Time) → Step s (release_outbox_event id at s).1
  mark : (ids : List ℕ) (now : Time) → Step s (mark_outbox_published ids now s)
  prune : (cutoff : Time) (limit : ℕ) → Step s (prune_published_outbox cutoff limit s).1

pub data Reach (s : Store) : Store → Type 0 where
  here : Reach s s
  next : {t u : Store} → Reach s t → Step t u → Reach s u

-- Ids rise and lie below the next id, which has not wrapped.
pub record OutboxInv (s : Store) : Type 0 where
  pub rising : Rising 0 s.outbox
  pub fresh : All (λ e. e.id < s.next_outbox_id) s.outbox
  pub started : 0 < s.next_outbox_id

kept_next :
    (s t : Store)
    → t.next_outbox_id ≡ s.next_outbox_id
    → OutboxInv s
    → Rising 0 t.outbox
    → All (λ e. e.id < s.next_outbox_id) t.outbox
    → OutboxInv t
kept_next s t p v r f = record {
  rising = r;
  fresh = subst (λ n. All (λ e. e.id < n) t.outbox) (sym p) f;
  started = rw p v.started;
}

lease_id :
    (bound : ℕ) (c : Claim) (now : Time) (e : OutboxEvent)
    → e.id < bound
    → (lease c now e).id < bound
unfolding lease
lease_id bound c now e h = h

published_id :
    (bound : ℕ) (ids : List ℕ) (now : Time) (e : OutboxEvent)
    → e.id < bound
    → (publish ids now e).id < bound
published_id bound ids now e h = rw (publish_id ids now e) h

append-OutboxInv :
    (topic : String) (id : Uuid) (payload : Payload) (at now : Time) (s : Store)
    → s.next_outbox_id < max_int64
    → OutboxInv s
    → OutboxInv (append_outbox_at topic id payload at now s)
unfolding append_outbox_at
append-OutboxInv topic id payload at now s h v = record {
  rising = Rising-append 0 s.outbox _ v.rising v.fresh v.started;
  fresh = rw (inc64_lem s.next_outbox_id h) (
      All-append (λ e. e.id < s.next_outbox_id + 1) s.outbox _
        (All-map (λ e. e.id < s.next_outbox_id) (λ e. e.id < s.next_outbox_id + 1) s.outbox
          (λ e p. omega arith) v.fresh)
        (omega arith, tt));
  started = rw (inc64_lem s.next_outbox_id h) (omega arith);
}

Step-OutboxInv : {s t : Store} → Step s t → OutboxInv s → OutboxInv t
Step-OutboxInv {s} (lock n c now) v =
    kept_next s _ (lock-next s n c now) v (lock-Rising s n c now v.rising)
      (lock_outbox-All _ (lease_id _) (published_id _) (λ at e h. h) n c now s v.fresh)
Step-OutboxInv {s} (append topic id payload at now h) v =
    append-OutboxInv topic id payload at now s h v
Step-OutboxInv {s} (release id at) v =
    kept_next s _ (release-next s id at) v (release-Rising s id at v.rising)
      (release_outbox-All _ (lease_id _) (published_id _) (λ at e h. h) id at s v.fresh)
Step-OutboxInv {s} (mark ids now) v =
    unfold mark_outbox_published in
    kept_next s _ refl v (Rising-publish ids now 0 s.outbox v.rising)
      (publish-All _ (lease_id _) (published_id _) (λ at e h. h) ids now s.outbox v.fresh)
Step-OutboxInv {s} (prune cutoff limit) v =
    kept_next s _ (prune-next s cutoff limit) v (prune-Rising s cutoff limit v.rising)
      (prune-All _ (lease_id _) (published_id _) (λ at e h. h) cutoff limit s v.fresh)

-- Whatever sequence of claims, appends, releases, publications and prunings is run, the ids keep
-- rising strictly along the outbox and stay below the counter, if they did at the start and no
-- append is made once the counter has reached its greatest value.
pub Reach-OutboxInv : {s t : Store} → OutboxInv s → Reach s t → OutboxInv t
Reach-OutboxInv v here = v
Reach-OutboxInv v (next r st) = Step-OutboxInv st (Reach-OutboxInv v r)

pub new_store-OutboxInv : OutboxInv new_store
new_store-OutboxInv = record { rising = tt; fresh = tt; started = omega arith }
