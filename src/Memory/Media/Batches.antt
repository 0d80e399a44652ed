-- ===== src/Memory/Media/Batches.antt =====
-- internal/store/memory/memory.go: what appendMediaDeletesAt and appendExactMediaDeletesAt append.
use clixor_backend.Prelude.{
  ℕ, zero, suc, ◌≤◌, ◌≡◌, refl, ap, ◌∙◌, sym, subst, none, List, [], ◌∷◌, ◌++◌, bytes_eq, length,
  take, length-take-le, arith, All,
}
use mathlib.Core.List.{append-nil, append_assoc}
use clixor_backend.Domain.{Uuid, Time, Bytes}
use clixor_backend.Domain.Chat.{of_media_delete}
use clixor_backend.Domain.Delivery.{OutboxEvent}
use clixor_backend.Memory.{Store}
use clixor_backend.Memory.Outbox.{append_outbox_at}
use clixor_backend.Memory.Media.Deletes.{
  append_batch, append_batches, append_exact_media_deletes_at, append_media_deletes_at, drop_keys,
  media_delete_batch_size, expand_keys,
}

-- The keys that an event's payload names.
pub event_keys : OutboxEvent → List Bytes
event_keys e = elim e.payload [ of_media_delete keys t ↦ keys | _ ↦ [] ]

-- The keys of a run of events, in order.
pub all_keys : List OutboxEvent → List Bytes
unfolding event_keys
all_keys [] = []
all_keys (e ∷ es) = event_keys e ++ all_keys es

-- A pending media.delete event of at most a batch, available from `not_before`.
pub record IsDelete (not_before : Time) (e : OutboxEvent) : Type 0 where
  pub topic : e.topic ≡ "media.delete"
  pub available : e.available_at ≡ not_before
  pub unpublished : e.published_at ≡ none
  pub batch : length (event_keys e) ≤ media_delete_batch_size

-- The outbox of `t` is that of `s`, then deletions of exactly `keys`.
pub record IsAppended (not_before : Time) (keys : List Bytes) (s t : Store) : Type 0 where
  pub events : List OutboxEvent
  pub outbox : t.outbox ≡ s.outbox ++ events
  pub complete : all_keys events ≡ keys
  pub each : All (IsDelete not_before) events

take-drop_keys : (n : ℕ) (ks : List Bytes) → take n ks ++ drop_keys n ks ≡ ks
take-drop_keys zero ks = refl
take-drop_keys (suc n) [] = refl
take-drop_keys (suc n) (k ∷ ks) = ap (λ r. k ∷ r) (take-drop_keys n ks)

length-drop_keys : (n : ℕ) (ks : List Bytes) → length (drop_keys n ks) ≤ length ks
length-drop_keys zero ks = omega arith
length-drop_keys (suc n) [] = omega arith
length-drop_keys (suc n) (k ∷ ks) = omega (arith, length-drop_keys n ks)

-- One batch and then the rest.
module _ (aggregate_id : Uuid) (not_before now : Time) where
  batch_step :
      (s t : Store) (batch rest : List Bytes)
      → length batch ≤ media_delete_batch_size
      → IsAppended not_before rest (append_batch aggregate_id not_before now batch s) t
      → IsAppended not_before (batch ++ rest) s t
  unfolding append_batch append_outbox_at all_keys event_keys
  batch_step s t batch rest small h = record {
    events = _ ∷ h.events;
    outbox = h.outbox ∙ append_assoc s.outbox _ h.events;
    complete = ap (λ r. batch ++ r) h.complete;
    each = (record { topic = refl; available = refl; unpublished = refl; batch = small }, h.each);
  }

  append_batches_lem :
      (fuel : ℕ) (keys : List Bytes) (s : Store)
      → length keys ≤ fuel
      → IsAppended not_before keys s (append_batches fuel aggregate_id not_before now keys s)
  unfolding append_batches all_keys
  append_batches_lem zero [] s h = record {
    events = [];
    outbox = sym (append-nil s.outbox);
    complete = refl;
    each = tt;
  }
  append_batches_lem zero (k ∷ ks) s h = ground arith
  append_batches_lem (suc fuel) [] s h = record {
    events = [];
    outbox = sym (append-nil s.outbox);
    complete = refl;
    each = tt;
  }
  append_batches_lem (suc fuel) (k ∷ ks) s h =
      subst
        (λ all.
          IsAppended not_before all s
            (append_batches (suc fuel) aggregate_id not_before now (k ∷ ks) s))
        (take-drop_keys media_delete_batch_size (k ∷ ks))
        (batch_step s _ (take media_delete_batch_size (k ∷ ks))
          (drop_keys media_delete_batch_size (k ∷ ks)) (length-take-le _ (k ∷ ks))
          (append_batches_lem fuel (drop_keys media_delete_batch_size (k ∷ ks)) _
            (omega (arith, length-drop_keys 499 ks))))

-- Only the outbox and its counter change.
abbrev pub SameRest : Store → Store → Type 0
SameRest s t = t ≡ record s { outbox = t.outbox; next_outbox_id = t.next_outbox_id }

pub append_batches_rest :
    (fuel : ℕ) (aggregate_id : Uuid) (not_before now : Time) (keys : List Bytes) (s : Store)
    → SameRest s (append_batches fuel aggregate_id not_before now keys s)
unfolding append_batches append_batch append_outbox_at
append_batches_rest zero aggregate_id not_before now keys s = refl
append_batches_rest (suc fuel) aggregate_id not_before now [] s = refl
append_batches_rest (suc fuel) aggregate_id not_before now (k ∷ ks) s =
    append_batches_rest fuel aggregate_id not_before now _ _

-- The loop over the batches of appendExactMediaDeletesAt ends with every key in its event: it
-- keeps the outbox and appends pending media.delete events, each of at most 500 keys and available
-- from `not_before`, whose keys, one event after the other, are exactly the given keys in order.
pub append_exact_complete :
    (aggregate_id : Uuid) (keys : List Bytes) (not_before now : Time) (s : Store)
    → IsAppended not_before keys s
        (append_exact_media_deletes_at aggregate_id keys not_before now s)
unfolding append_exact_media_deletes_at
append_exact_complete aggregate_id keys not_before now s =
    append_batches_lem aggregate_id not_before now (length keys) keys s (omega arith)

pub append_deletes_rest :
    (aggregate_id : Uuid) (keys : List Bytes) (not_before now : Time) (s : Store)
    → SameRest s (append_media_deletes_at aggregate_id keys not_before now s)
unfolding append_media_deletes_at append_exact_media_deletes_at
append_deletes_rest aggregate_id keys not_before now s =
    append_batches_rest _ aggregate_id not_before now (expand_keys keys []) s
