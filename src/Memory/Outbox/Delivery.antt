-- ===== src/Memory/Outbox/Delivery.antt =====
-- A realtime delivery holds its event alone and lets it go on every way out.
use clixor_backend.Prelude.{
  ℕ, zero, suc, ◌≡◌, ◌≢◌, refl, Option, none, some, List, [], ◌∷◌, true, ◌||◌, arith, All, ◌==◌,
  nat_eq, if_both,
}
use clixor_backend.Map.{Map, get, put}
use clixor_backend.Map.Laws.{get-put, get-delete, beq_refl}
use clixor_backend.Domain.{Time, Error}
use clixor_backend.Domain.Delivery.{OutboxEvent}
use clixor_backend.Memory.{Store}
use clixor_backend.Memory.Outbox.{Claim, claimable, lease, lock_events, lock_outbox_batch, is_set}
use clixor_backend.Memory.Outbox.Claims.{lock_events_cases, batch}
use clixor_backend.Memory.Outbox.Deliver.{
  Callback, find_leased, start_realtime, begin_realtime, end_realtime, run_claimed,
  deliver_realtime_outbox,
}

find_leased_active :
    (id attempt : ℕ) (active : Map ℕ ℕ) (es : List OutboxEvent)
    → is_set (get active id) ≡ true
    → find_leased id attempt active es ≡ none
unfolding find_leased
find_leased_active id attempt active [] h = refl
find_leased_active id attempt active (e ∷ es) h =
    rw (h, find_leased_active id attempt active es h) (ground arith)

claimable-active :
    (c : Claim) (active : Map ℕ ℕ) (now : Time) (e : OutboxEvent) (id : ℕ)
    → is_set (get active id) ≡ true
    → claimable c active now e ≡ true
    → e.id ≢ id
unfolding claimable
claimable-active c active now e id h k = λ p. ground arith

lease_id_ne :
    (c : Claim) (now : Time) (e : OutboxEvent) (id : ℕ) → e.id ≢ id → (lease c now e).id ≢ id
unfolding lease
lease_id_ne c now e id h = h

claimed_not_active :
    (c : Claim) (active : Map ℕ ℕ) (now : Time) (id n : ℕ) (es : List OutboxEvent)
    → is_set (get active id) ≡ true
    → All (λ e. e.id ≢ id) (lock_events c active now n es).1
claimed_not_active c active now id zero es h = unfold lock_events in tt
claimed_not_active c active now id (suc n) [] h = unfold lock_events in tt
claimed_not_active c active now id (suc n) (e ∷ es) h =
    lock_events_cases c active now n e es (λ o. All (λ d. d.id ≢ id) o.1)
      (λ p. (
        lease_id_ne c now e id (claimable-active c active now e id h p),
        claimed_not_active c active now id n es h,
      ))
      (λ _. claimed_not_active c active now id (suc n) es h)

start_active :
    (id attempt : ℕ) (s t : Store) (e : OutboxEvent) (o : Option OutboxEvent)
    → start_realtime id attempt s o ≡ some (e, t)
    → is_set (get t.active_realtime_deliveries id) ≡ true
unfolding start_realtime
start_active id attempt s t e none h = cc
start_active id attempt s t e (some d) h =
    rw (← active, get-put s.active_realtime_deliveries id id attempt, beq_refl id) refl
  where
    active : put s.active_realtime_deliveries id attempt ≡ t.active_realtime_deliveries
    active = cc

-- Once a delivery of an event has begun, then in every store that still has its claim, whatever
-- else has changed, no second delivery of the event begins, for any attempt, and no batch claim
-- returns it.
pub begin_realtime_exclusive :
    (id attempt attempt' n : ℕ) (c : Claim) (now : Time) (s t u : Store) (e : OutboxEvent)
    → begin_realtime id attempt s ≡ some (e, t)
    → get u.active_realtime_deliveries id ≡ get t.active_realtime_deliveries id
    → (begin_realtime id attempt' u ≡ none)
      × All (λ d. d.id ≢ id) (batch (lock_outbox_batch n c now u))
begin_realtime_exclusive id attempt attempt' n c now s t u e h still = (second, claims n)
  where
    held : is_set (get u.active_realtime_deliveries id) ≡ true
    held = rw still (unfold begin_realtime in start_active id attempt s t e _ h)

    second : begin_realtime id attempt' u ≡ none
    second =
        unfold begin_realtime start_realtime in
        rw (find_leased_active id attempt' u.active_realtime_deliveries u.outbox held)

    claims : (n : ℕ) → All (λ d. d.id ≢ id) (batch (lock_outbox_batch n c now u))
    claims zero = unfold lock_outbox_batch in tt
    claims (suc n) =
        unfold lock_outbox_batch in
        claimed_not_active c u.active_realtime_deliveries now id (suc n) u.outbox held

end_realtime_released :
    (id attempt : ℕ) (s : Store)
    → get s.active_realtime_deliveries id ≡ some attempt
    → get (end_realtime id attempt s).active_realtime_deliveries id ≡ none
unfolding end_realtime
end_realtime_released id attempt s h =
    rw (h, beq_refl attempt, get-delete s.active_realtime_deliveries id id, beq_refl id) refl

-- A callback that leaves the claim of its own event alone.
abbrev pub KeepsClaim : ℕ → Callback OutboxEvent → Type 0
KeepsClaim id deliver =
    (d : OutboxEvent) (u : Store)
    → get (deliver d u).1.active_realtime_deliveries id ≡ get u.active_realtime_deliveries id

run_claimed_released :
    (id attempt : ℕ) (deliver : Callback OutboxEvent) (ctx : Option Error) (s : Store)
    (o : Option OutboxEvent)
    → KeepsClaim id deliver
    → get s.active_realtime_deliveries id ≡ none
    → get
        (run_claimed id attempt deliver ctx
          (start_realtime id attempt s o)
          s).1.active_realtime_deliveries
        id
      ≡ none
unfolding run_claimed start_realtime
run_claimed_released id attempt deliver ctx s none keeps h = h
run_claimed_released id attempt deliver ctx s (some d) keeps h =
    end_realtime_released id attempt _
      (rw (keeps d _, get-put s.active_realtime_deliveries id id attempt, beq_refl id) refl)

-- DeliverRealtimeOutbox never leaves its claim behind: on a refused call, a cancelled context, a
-- missing lease, a callback's error and a success alike, an event that was not active before the
-- call is not active after it, if the callback itself leaves the claim alone.
pub deliver_realtime_released :
    (id attempt : ℕ) (deliver : Option (Callback OutboxEvent)) (ctx ctx' : Option Error) (s : Store)
    → ((f : Callback OutboxEvent) → deliver ≡ some f → KeepsClaim id f)
    → get s.active_realtime_deliveries id ≡ none
    → get (deliver_realtime_outbox id attempt deliver ctx ctx' s).1.active_realtime_deliveries id
      ≡ none
unfolding deliver_realtime_outbox
deliver_realtime_released id attempt none ctx ctx' s keeps h = h
deliver_realtime_released id attempt (some f) (some e) ctx' s keeps h =
    if_both {A = Option Error × Store} (λ r. get r.1.active_realtime_deliveries id ≡ none)
      (id == 0 || attempt == 0) _ _ h h
deliver_realtime_released id attempt (some f) none ctx' s keeps h =
    if_both {A = Option Error × Store} (λ r. get r.1.active_realtime_deliveries id ≡ none)
      (id == 0 || attempt == 0) _ _ h
      (unfold begin_realtime in run_claimed_released id attempt f ctx' s _ (keeps f refl) h)
