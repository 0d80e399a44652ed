-- ===== src/Events/Fencing.antt =====
-- internal/events/memory.go: a session owner is fenced whichever of FenceSessions and
-- RegisterSessionOwner comes first.
use clixor_backend.Prelude.{
  ℕ, ◌+◌, ◌<◌, ◌≡◌, refl, Option, none, some, List, Bool, true, ◌==◌, nat_eq, exists, arith,
}
use clixor_backend.Map.{Map, get, put, values, value_list, retain, select_entries}
use clixor_backend.Map.Laws.{get-put, beq_refl}
use clixor_backend.Domain.{Uuid, Time, after}
use clixor_backend.Events.{
  MemoryBus, MemoryFence, FenceCall, inner_or_empty, live_fences, fences_session, barrier_calls,
  with_live_fences, register_session_owner, owner_calls, fence_sessions, realtime_fence_ttl,
}

-- Some call is of the owner's fence.
abbrev pub calls_owner : ℕ → List FenceCall → Bool
calls_owner owner calls = exists (λ c. c.owner == owner) calls

module _ (owner : ℕ) (user_id session_id : Uuid) where
  new_barrier :
      (ticket : Uuid) (f : MemoryFence) (later : Time) (m : Map Uuid MemoryFence)
      → after f.valid_until later ≡ true
      → fences_session session_id f.session_id ≡ true
      → calls_owner owner
          (barrier_calls owner session_id (values (live_fences later (put m ticket f))))
        ≡ true
  unfolding barrier_calls values value_list live_fences retain select_entries put
  new_barrier ticket f later m lives covers = rw (lives, covers, beq_refl owner) refl

  module _ {E : Type 0} where
    registered_calls :
        (now : Time) (so : Option Uuid) (o : Option (Map Uuid MemoryFence)) (b : MemoryBus E)
        → (with_live_fences now o user_id b).owners ≡ b.owners
    unfolding with_live_fences
    registered_calls now so none b = refl
    registered_calls now so (some m) b = refl

-- A fence reaches an owner in either order: an owner that registers while a fence of its user that
-- covers its session holds has its fence called, and so has one that registered before FenceSessions
-- is called for its user.
pub fenced_either_way :
    {E : Type 0} (owner : ℕ) (ticket user_id session_id : Uuid) (so : Option Uuid)
    (now later : Time) (b : MemoryBus E)
    → fences_session session_id so ≡ true
    → later < now + realtime_fence_ttl
    → (calls_owner owner
          (register_session_owner owner user_id session_id later
            (fence_sessions ticket user_id so now b).1).0
        ≡ true)
      × (calls_owner owner
            (fence_sessions ticket user_id so later
              (register_session_owner owner user_id session_id now b).1).0
          ≡ true)
unfolding register_session_owner fence_sessions
fenced_either_way owner ticket user_id session_id so now later b covers live = (
  rw (get-put, beq_refl user_id)
      (new_barrier owner user_id session_id ticket _ later _
        (lives later (now + realtime_fence_ttl) live) covers),
  rw (registered_calls owner user_id session_id now so _ _, get-put, beq_refl user_id)
      (first_owner (inner_or_empty (get b.owners user_id))),
)
  where
    first_owner :
        (m : Map ℕ (Unit {0})) → calls_owner owner (owner_calls so (put m owner tt).entries) ≡ true
    first_owner m = unfold owner_calls put in rw (beq_refl owner) refl

    lives : (a b : ℕ) → a < b → after b a ≡ true
    lives a b h = ground arith
