-- ===== src/Memory/Outbox/Retention.antt =====
-- PrunePublishedOutbox: which events it keeps.
use clixor_backend.Prelude.{
  ℕ, ◌≤◌, ◌<◌, ◌≡◌, ◌≢◌, refl, ◌⊎◌, Option, none, some, List, [], ◌∷◌, Bool, true, false, ◌||◌,
  arith, All, All-map, All-sort_by, All-take, select, select_kept, exists, if_both, ltb, ◌==◌,
  nat_eq, if◌then◌else◌, Bool-cases, inl, inr,
}
use clixor_backend.Domain.{Time, Result}
use clixor_backend.Domain.Delivery.{OutboxEvent}
use clixor_backend.Memory.{Store}
use clixor_backend.Memory.Outbox.Claims.{Rising}
use clixor_backend.Memory.Outbox.Prune.{
  prunable, referenced, published_time, prune_candidates, prune_published_outbox, older_published,
  max_retention_prune_batch_size,
}

find_event : ℕ → List OutboxEvent → Option OutboxEvent
find_event id [] = none
find_event id (e ∷ es) = if e.id == id then some e else find_event id es

Rising-found :
    (lo : ℕ) (es : List OutboxEvent)
    → Rising lo es
    → All (λ e. (lo < e.id) × (find_event e.id es ≡ some e)) es
unfolding find_event
Rising-found lo [] r = tt
Rising-found lo (e ∷ es) r = (
  (r.0, ground arith),
  All-map (λ d. (e.id < d.id) × (find_event d.id es ≡ some d)) _ es
      (λ d p. (omega (arith, p.0), ground arith)) (Rising-found e.id es r.1),
)

same_event :
    (p : OutboxEvent → Bool) (es : List OutboxEvent) (c e : OutboxEvent)
    → find_event c.id es ≡ some c
    → p c ≡ true
    → find_event e.id es ≡ some e
    → p e ≡ false
    → c.id ≢ e.id
same_event p es c e f q g r h = cc

not_equal : (a b : ℕ) → a ≢ b → (a == b) ≡ false
not_equal a b h = ground arith

-- No candidate has the id of an event that may not be pruned.
not_named :
    (p : OutboxEvent → Bool) (es cs : List OutboxEvent) (e : OutboxEvent)
    → All (λ c. (find_event c.id es ≡ some c) × (p c ≡ true)) cs
    → find_event e.id es ≡ some e
    → p e ≡ false
    → exists (λ c. c.id == e.id) cs ≡ false
not_named p es [] e h f q = refl
not_named p es (c ∷ cs) e h f q =
    rw (not_equal c.id e.id (same_event p es c e h.0.0 h.0.1 f q)) (not_named p es cs e h.1 f q)

select-passes :
    (p : OutboxEvent → Bool) (Q : OutboxEvent → Type 0) (es : List OutboxEvent)
    → All Q es
    → All (λ e. Q e × (p e ≡ true)) (select p es)
select-passes p Q [] h = tt
select-passes p Q (e ∷ es) h = elim (Bool-cases (p e)) [
  | inl k ↦ rw k ((h.0, k), select-passes p Q es h.1)
  | inr k ↦ rw k (select-passes p Q es h.1)
]

candidates_found :
    (cutoff : Time) (limit : ℕ) (s : Store)
    → Rising 0 s.outbox
    → All
        (λ c. (find_event c.id s.outbox ≡ some c) × (prunable cutoff s c ≡ true))
        (prune_candidates cutoff limit s)
unfolding prune_candidates
candidates_found cutoff limit s r = All-take _ limit _ (
    All-sort_by _ older_published _ (
      select-passes (prunable cutoff s) (λ c. find_event c.id s.outbox ≡ some c) s.outbox
        (All-map _ _ s.outbox (λ e p. p.1) (Rising-found 0 s.outbox r))))

-- Why an event must outlive a pruning: it is unpublished, too young, or a push delivery names it.
abbrev pub Retained : Time → Store → OutboxEvent → Type 0
Retained cutoff s e =
    (e.published_at ≡ none) ⊎ (cutoff ≤ published_time e) ⊎ (referenced s e ≡ true)

Retained-prunable :
    (cutoff : Time) (s : Store) (e : OutboxEvent)
    → Retained cutoff s e
    → prunable cutoff s e ≡ false
unfolding prunable
Retained-prunable cutoff s e r = ground arith

-- Pruning loses no event that is unpublished, published at or after the cutoff, or named by a
-- push delivery: for every choice `p` of such events, the chosen ones stay, unchanged and in
-- order, whatever the limit, provided the ids rise.
pub prune_keeps :
    (cutoff : Time) (limit : ℕ) (s : Store) (p : OutboxEvent → Bool)
    → ((e : OutboxEvent) → p e ≡ true → Retained cutoff s e)
    → Rising 0 s.outbox
    → select p (prune_published_outbox cutoff limit s).1.outbox ≡ select p s.outbox
unfolding prune_published_outbox
prune_keeps cutoff limit s p chosen r =
    if_both {A = Result ℕ × Store} (λ q. select p q.1.outbox ≡ select p s.outbox)
      (limit == 0 || ltb max_retention_prune_batch_size limit) _ _ refl
      (select_kept p _ s.outbox (
        All-map _ _ s.outbox
          (λ e f k. rw (
            not_named (prunable cutoff s) s.outbox (prune_candidates cutoff limit s) e
              (candidates_found cutoff limit s r) f.1 (Retained-prunable cutoff s e (chosen e k))))
          (Rising-found 0 s.outbox r)))
