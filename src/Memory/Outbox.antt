-- ===== src/Memory/Outbox.antt =====
-- internal/store/memory/memory.go: the transactional outbox. `limit` and `id` are the source's
-- int and int64 arguments; a value below 1 is 0 here. `now` is the reading of time.Now().
pub mod Deliver
pub mod Prune
pub mod Claims
pub mod Batch
pub mod EachEvent
pub mod Order
pub mod Steps
pub mod Published
pub mod Retention
pub mod Delivery
use clixor_backend.Prelude.{
  ℕ, zero, suc, ◌+◌, String, Option, none, some, List, [], ◌∷◌, ◌++◌, Bool, true, false, not, ◌&&◌,
  ◌||◌, ltb, leb, if◌then◌else◌, ◌==◌, nat_eq, string_eq, inc64, exists, select, take, sort_by,
  length, map,
}
use mathlib.Core.Option
use clixor_backend.Map.{Map, get, put, delete, values}
use clixor_backend.Domain.{Uuid, Time, Error, invalid, not_found, Result, ok, err, after, before}
use clixor_backend.Domain.Chat.{Payload}
use clixor_backend.Domain.Delivery.{OutboxEvent, PushDelivery}
use clixor_backend.Memory.{Store}

abbrev pub is_set {ℓ} : {A : Type ℓ} → Option A → Bool
is_set none = false
is_set (some a) = true

-- A nil pointer read as the zero value.
abbrev pub get_or_zero : Option ℕ → ℕ
get_or_zero none = 0
get_or_zero (some n) = n

-- t != nil && t.After(now)
abbrev pub set_after : Option Time → Time → Bool
set_after none now = false
set_after (some t) now = after t now

unfoldable pub topic_media_delete : String → Bool
topic_media_delete topic = topic == "media.delete"

-- The two claims that lockOutboxBatch is called with.
pub data Claim : Type 0 where
  realtime media_delete : Claim

abbrev pub claim_skips : Claim → String → Bool
claim_skips realtime topic = topic_media_delete topic
claim_skips media_delete topic = not (topic_media_delete topic)

-- lockDuration
unfoldable pub lock_duration : Claim → Time
lock_duration realtime = 30_000_000_000
lock_duration media_delete = 1_800_000_000_000

-- The three `continue` guards of lockOutboxBatch.
unfoldable pub claimable : Claim → Map ℕ ℕ → Time → OutboxEvent → Bool
claimable claim active now e =
    not (
      is_set e.published_at
      || (ltb 0 e.available_at && after e.available_at now)
      || set_after e.locked_until now)
    && not (claim_skips claim e.topic)
    && not (is_set (get active e.id))

unfoldable pub lease : Claim → Time → OutboxEvent → OutboxEvent
lease claim now e = record e {
  locked_until = some (now + lock_duration claim);
  attempts = inc64 e.attempts;
}

-- The loop over the outbox: the new outbox and the claimed events; it ends at the limit.
unfoldable pub lock_events :
    Claim → Map ℕ ℕ → Time → ℕ → List OutboxEvent → List OutboxEvent × List OutboxEvent
lock_events claim active now zero es = (es, [])
lock_events claim active now (suc n) [] = ([], [])
lock_events claim active now (suc n) (e ∷ es) =
    let taken = lock_events claim active now n es in
    let skipped = lock_events claim active now (suc n) es in
    let leased = lease claim now e in
    if claimable claim active now e
    then (leased ∷ taken.0, leased ∷ taken.1)
    else (e ∷ skipped.0, skipped.1)

unfoldable pub lock_outbox_batch : ℕ → Claim → Time → Store → Result (List OutboxEvent) × Store
lock_outbox_batch zero claim now s = (err invalid, s)
lock_outbox_batch (suc n) claim now s =
    let r = lock_events claim s.active_realtime_deliveries now (suc n) s.outbox in
    (ok r.1, record s { outbox = r.0 })

-- LockOutboxBatch, the inspection path that claims nothing.
pub inspect_outbox_batch : ℕ → Store → Result (List OutboxEvent)
inspect_outbox_batch zero s = err invalid
inspect_outbox_batch (suc n) s =
    ok (take (suc n) (select (λ e. not (is_set e.published_at)) s.outbox))

unfoldable pub append_outbox_at : String → Uuid → Payload → Time → Time → Store → Store
append_outbox_at topic aggregate_id payload available_at now s = record s {
  outbox =
      s.outbox
      ++ record {
        id = s.next_outbox_id;
        topic = topic;
        aggregate_id = aggregate_id;
        payload = payload;
        created_at = now;
        published_at = none;
        available_at = available_at;
        locked_until = none;
        attempts = 0;
      }
        ∷ [];
  next_outbox_id = inc64 s.next_outbox_id;
}

unfoldable pub append_outbox : String → Uuid → Payload → Time → Store → Store
unfolding append_outbox_at
append_outbox topic aggregate_id payload now s =
    append_outbox_at topic aggregate_id payload now now s

-- s.outbox[index].ID == id && s.outbox[index].PublishedAt == nil
abbrev pub releasable : ℕ → OutboxEvent → Bool
releasable id e = e.id == id && not (is_set e.published_at)

-- The loop of ReleaseOutboxEvent; `none` when no unpublished event has the id.
unfoldable pub release_event : ℕ → Time → List OutboxEvent → Option (List OutboxEvent)
release_event id available_at [] = none
release_event id available_at (e ∷ es) =
    let rest = Option.map (λ r. e ∷ r) (release_event id available_at es) in
    let released = record e { available_at = available_at; locked_until = none } in
    if releasable id e then some (released ∷ es) else rest

unfoldable pub store_released : Store → Option (List OutboxEvent) → Result (Unit {0}) × Store
store_released s none = (err not_found, s)
store_released s (some es) = (ok tt, record s { outbox = es })

unfoldable pub release_outbox_event : ℕ → Time → Store → Result (Unit {0}) × Store
unfolding store_released
release_outbox_event id available_at s =
    if id == 0 || available_at == 0
    then (err invalid, s)
    else store_released s (release_event id available_at s.outbox)

unfoldable pub publish : List ℕ → Time → OutboxEvent → OutboxEvent
publish ids now e =
    if exists (λ id. e.id == id) ids && not (is_set e.published_at)
    then record e { published_at = some now; locked_until = none }
    else e

unfoldable pub mark_outbox_published : List ℕ → Time → Store → Store
mark_outbox_published ids now s = record s { outbox = map (publish ids now) s.outbox }
