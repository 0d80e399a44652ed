-- ===== src/Memory/Outbox/Claims.antt =====
-- The claim loop of lockOutboxBatch: two claims never overlap.
use clixor_backend.Prelude.{
  ℕ, zero, suc, ◌+◌, ◌≤◌, ◌<◌, ◌≡◌, ◌≢◌, List, [], ◌∷◌, true, false, arith, All, All-map, All-zip,
  All_always, subst, sym, Bool-cases, inl, inr,
}
use clixor_backend.Map.{Map}
use clixor_backend.Domain.{Time, Result, ok, err}
use clixor_backend.Domain.Delivery.{OutboxEvent}
use clixor_backend.Memory.{Store}
use clixor_backend.Memory.Outbox.{
  Claim, claimable, lease, lock_events, lock_outbox_batch, lock_duration,
}

-- Ids rise along the outbox, from above `lo`.
abbrev pub Rising : ℕ → List OutboxEvent → Type 0
Rising lo [] = Unit {0}
Rising lo (e ∷ es) = (lo < e.id) × Rising e.id es

pub Rising-mono : (lo hi : ℕ) (es : List OutboxEvent) → lo ≤ hi → Rising hi es → Rising lo es
Rising-mono lo hi [] h r = tt
Rising-mono lo hi (e ∷ es) h r = (omega arith, r.1)

abbrev AllAbove : ℕ → List OutboxEvent → Type 0
AllAbove lo = All (λ e. lo < e.id)

AllAbove-mono : (lo hi : ℕ) (es : List OutboxEvent) → lo ≤ hi → AllAbove hi es → AllAbove lo es
AllAbove-mono lo hi es h r = All-map (λ e. hi < e.id) (λ e. lo < e.id) es (λ e p. omega arith) r

module _ (claim : Claim) (active : Map ℕ ℕ) (now : Time) where
  pub lock_events-Rising :
      (n lo : ℕ) (es : List OutboxEvent)
      → Rising lo es
      → Rising lo (lock_events claim active now n es).0
  unfolding lock_events lease
  lock_events-Rising zero lo es r = r
  lock_events-Rising (suc n) lo [] r = tt
  lock_events-Rising (suc n) lo (e ∷ es) r = elim (Bool-cases (claimable claim active now e)) [
    | inl h ↦ rw h (r.0, lock_events-Rising n e.id es r.1)
    | inr h ↦ rw h (r.0, lock_events-Rising (suc n) e.id es r.1)
  ]

  claimed-AllAbove :
      (n lo : ℕ) (es : List OutboxEvent)
      → Rising lo es
      → AllAbove lo (lock_events claim active now n es).1
  unfolding lock_events lease
  claimed-AllAbove zero lo es r = tt
  claimed-AllAbove (suc n) lo [] r = tt
  claimed-AllAbove (suc n) lo (e ∷ es) r = elim (Bool-cases (claimable claim active now e)) [
    | inl h ↦ rw h (
      r.0,
      AllAbove-mono lo e.id (lock_events claim active now n es).1 (omega arith)
          (claimed-AllAbove n e.id es r.1),
    )
    | inr h ↦ rw h (
        AllAbove-mono lo e.id (lock_events claim active now (suc n) es).1 (omega arith)
          (claimed-AllAbove (suc n) e.id es r.1))
  ]

-- No event stands in both lists.
abbrev pub Disjoint : List OutboxEvent → List OutboxEvent → Type 0
Disjoint ds es = All (λ d. All (λ e. d.id ≢ e.id) es) ds

leased-claimable :
    (c c' : Claim) (active : Map ℕ ℕ) (now now' : Time) (e : OutboxEvent)
    → now' < now + lock_duration c
    → claimable c' active now' (lease c now e) ≡ false
unfolding claimable lease
leased-claimable c c' active now now' e h = ground arith

module _ (claim : Claim) (active : Map ℕ ℕ) (now : Time) (n : ℕ) (e : OutboxEvent)
    (es : List OutboxEvent) where
  lock_events_hit :
      claimable claim active now e ≡ true
      → lock_events claim active now (suc n) (e ∷ es) ≡ (
        lease claim now e ∷ (lock_events claim active now n es).0,
        lease claim now e ∷ (lock_events claim active now n es).1,
      )
  unfolding lock_events
  lock_events_hit h = rw h

  lock_events_miss :
      claimable claim active now e ≡ false
      → lock_events claim active now (suc n) (e ∷ es) ≡ (
        e ∷ (lock_events claim active now (suc n) es).0,
        (lock_events claim active now (suc n) es).1,
      )
  unfolding lock_events
  lock_events_miss h = rw h

  -- The two ways through one round, for any property of the outcome.
  pub lock_events_cases {ℓ} :
      (P : List OutboxEvent × List OutboxEvent → Type ℓ)
      → (claimable claim active now e ≡ true
          → P (
            lease claim now e ∷ (lock_events claim active now n es).0,
            lease claim now e ∷ (lock_events claim active now n es).1,
          ))
      → (claimable claim active now e ≡ false
          → P (
            e ∷ (lock_events claim active now (suc n) es).0,
            (lock_events claim active now (suc n) es).1,
          ))
      → P (lock_events claim active now (suc n) (e ∷ es))
  lock_events_cases P hit miss = elim (Bool-cases (claimable claim active now e)) [
    | inl h ↦ rw (lock_events_hit h) (hit h)
    | inr h ↦ rw (lock_events_miss h) (miss h)
  ]

above-ne : (c : Claim) (now : Time) (e d : OutboxEvent) → e.id < d.id → d.id ≢ (lease c now e).id
unfolding lease
above-ne c now e d h = omega arith

AllAbove-ne :
    (c : Claim) (now : Time) (e : OutboxEvent) (es : List OutboxEvent)
    → AllAbove e.id es
    → All (λ x. (lease c now e).id ≢ x.id) es
unfolding lease
AllAbove-ne c now e es h = All-map (λ x. e.id < x.id) (λ x. e.id ≢ x.id) es (λ x q. omega arith) h

module _ (c c' : Claim) (active active' : Map ℕ ℕ) (now now' : Time)
    (h : now' < now + lock_duration c) where
  lock_events_exclusive :
      (n n' lo : ℕ) (es : List OutboxEvent)
      → Rising lo es
      → Disjoint
          (lock_events c active now n es).1
          (lock_events c' active' now' n' (lock_events c active now n es).0).1
  lock_events_exclusive zero n' lo es r = unfold lock_events in tt
  lock_events_exclusive (suc n) zero lo es r = unfold lock_events in All_always _ _ (λ d. tt)
  lock_events_exclusive (suc n) (suc n') lo [] r = unfold lock_events in tt
  lock_events_exclusive (suc n) (suc n') lo (e ∷ es) r =
      lock_events_cases c active now n e es
        (λ o. Disjoint o.1 (lock_events c' active' now' (suc n') o.0).1)
        (λ p.
          subst (λ o. Disjoint (lease c now e ∷ (lock_events c active now n es).1) o.1)
            (sym (
              lock_events_miss c' active' now' n' (lease c now e) (lock_events c active now n es).0
                (leased-claimable c c' active' now now' e h)))
            (
              AllAbove-ne c now e _ (
                  claimed-AllAbove c' active' now' (suc n') e.id _
                    (lock_events-Rising c active now n e.id es r.1)),
              lock_events_exclusive n (suc n') e.id es r.1,
            ))
        (λ p.
          lock_events_cases c' active' now' n' e (lock_events c active now (suc n) es).0
            (λ o. Disjoint (lock_events c active now (suc n) es).1 o.1)
            (λ q.
              All-zip (λ d. e.id < d.id) _ _ _ (λ d u v. (above-ne c' now' e d u, v))
                (claimed-AllAbove c active now (suc n) e.id es r.1)
                (lock_events_exclusive (suc n) n' e.id es r.1))
            (λ q. lock_events_exclusive (suc n) (suc n') e.id es r.1))

-- The events of a reply, none on an error.
abbrev pub batch : Result (List OutboxEvent) × Store → List OutboxEvent
batch (ok es, s) = es
batch (err e, s) = []

-- Two workers never hold one event: whatever a batch claim returned, a later claim, of either
-- kind and made before the first claim's locks run out, returns no event of it, provided the
-- ids rise and the outbox is as the first claim left it.
pub lock_outbox_batch_exclusive :
    (m n : ℕ) (c c' : Claim) (now now' : Time) (s u : Store)
    → Rising 0 s.outbox
    → u.outbox ≡ (lock_outbox_batch m c now s).1.outbox
    → now' < now + lock_duration c
    → Disjoint (batch (lock_outbox_batch m c now s)) (batch (lock_outbox_batch n c' now' u))
unfolding lock_outbox_batch
lock_outbox_batch_exclusive zero n c c' now now' s u r p h = tt
lock_outbox_batch_exclusive (suc m) zero c c' now now' s u r p h = All_always _ _ (λ d. tt)
lock_outbox_batch_exclusive (suc m) (suc n) c c' now now' s u r p h = rw p (
    lock_events_exclusive c c' s.active_realtime_deliveries u.active_realtime_deliveries now now' h
      (suc m) (suc n) 0 s.outbox r)
