-- ===== src/Memory/Outbox/Prune.antt =====
-- internal/store/memory/memory.go: PrunePublishedOutbox.
use clixor_backend.Prelude.{
  ℕ, List, Bool, not, ◌&&◌, ◌||◌, ltb, if◌then◌else◌, ◌==◌, nat_eq, exists, select, take, sort_by,
  length,
}
use clixor_backend.Map.{values}
use clixor_backend.Domain.{Time, invalid, Result, ok, err, before}
use clixor_backend.Domain.Delivery.{OutboxEvent}
use clixor_backend.Memory.{Store}
use clixor_backend.Memory.Outbox.{is_set, get_or_zero}

-- store.MaxRetentionPruneBatchSize
abbrev pub max_retention_prune_batch_size : ℕ
max_retention_prune_batch_size = 1000

-- *e.PublishedAt of a published event.
abbrev pub published_time : OutboxEvent → Time
published_time e = get_or_zero e.published_at

abbrev pub before_cutoff : Time → OutboxEvent → Bool
before_cutoff cutoff e = is_set e.published_at && before (published_time e) cutoff

abbrev pub older_published : OutboxEvent → OutboxEvent → Bool
older_published d e =
    ltb (published_time d) (published_time e)
    || (published_time d == published_time e && ltb d.id e.id)

-- A push delivery still names the event.
unfoldable pub referenced : Store → OutboxEvent → Bool
referenced s e = exists (λ d. d.outbox_event_id == e.id) (values s.push_deliveries)

unfoldable pub prunable : Time → Store → OutboxEvent → Bool
prunable cutoff s e = before_cutoff cutoff e && not (referenced s e)

unfoldable pub prune_candidates : Time → ℕ → Store → List OutboxEvent
prune_candidates published_before limit s =
    take limit (sort_by older_published (select (prunable published_before s) s.outbox))

unfoldable pub prune_published_outbox : Time → ℕ → Store → Result ℕ × Store
prune_published_outbox published_before limit s =
    let candidates = prune_candidates published_before limit s in
    if limit == 0 || ltb max_retention_prune_batch_size limit then (err invalid, s) else (
      ok (length candidates),
      record s { outbox = select (λ e. not (exists (λ c. c.id == e.id) candidates)) s.outbox },
    )
