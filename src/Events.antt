-- ===== src/Events.antt =====
-- internal/events/memory.go: the in-memory event bus. A subscription and a session owner are
-- numbers that stand for their pointers, a channel the list of the events that it holds; calling
-- the fence of an owner is a value of the result. `now` is the reading of time.Now() in a call, and
-- `E` the type of realtime events, which the bus only passes on.
pub mod Fencing
mod Examples
use clixor_backend.Prelude.{
  ℕ, ◌+◌, Option, none, some, List, [], ◌∷◌, ◌++◌, Bool, true, false, not, ◌||◌, if◌then◌else◌,
  ◌==◌, nat_eq, ltb, length,
}
use clixor_backend.Map.{Map, empty, get, put, delete, retain, update_all, values}
use clixor_backend.Domain.{Uuid, Time, after}

-- memoryFence; no session stands for every session of the user.
pub record MemoryFence : Type 0 where
  pub session_id : Option Uuid
  pub valid_until : Time

pub record MemoryBus (E : Type 0) : Type 0 where
  pub subscribers : Map Uuid (Map ℕ (List E))
  pub owners : Map Uuid (Map ℕ (Unit {0}))
  pub fences : Map Uuid (Map Uuid MemoryFence)

-- The fence of an owner called with a session, or with nil.
pub record FenceCall : Type 0 where
  pub owner : ℕ
  pub session_id : Option Uuid

-- realtimeFenceTTL
abbrev pub realtime_fence_ttl : Time
realtime_fence_ttl = 120_000_000_000

-- The capacity of a subscription's channel.
abbrev pub channel_capacity : ℕ
channel_capacity = 256

abbrev pub inner_or_empty {ℓ κ} : {K : Type ℓ} {V : Type κ} → Option (Map K V) → Map K V
inner_or_empty none = empty
inner_or_empty (some m) = m

-- The fences of the user that have not run out.
unfoldable pub live_fences : Time → Map Uuid MemoryFence → Map Uuid MemoryFence
live_fences now m = retain (λ ticket f. after f.valid_until now) m

-- barrier.sessionID == nil || *barrier.sessionID == sessionID
abbrev pub fences_session : Uuid → Option Uuid → Bool
fences_session session_id none = true
fences_session session_id (some s) = s == session_id

-- The calls of the new owner's fence, one for each barrier that covers its session.
unfoldable pub barrier_calls : ℕ → Uuid → List MemoryFence → List FenceCall
barrier_calls owner session_id [] = []
barrier_calls owner session_id (f ∷ fs) =
    let rest = barrier_calls owner session_id fs in
    if fences_session session_id f.session_id
    then record { owner = owner; session_id = f.session_id } ∷ rest
    else rest

unfoldable pub owner_calls : Option Uuid → List (ℕ × Unit {0}) → List FenceCall
owner_calls session_id [] = []
owner_calls session_id ((owner, u) ∷ os) =
    record { owner = owner; session_id = session_id } ∷ owner_calls session_id os

abbrev pub no_owners_left : List (ℕ × Unit {0}) → Bool
no_owners_left [] = true
no_owners_left (o ∷ os) = false

module _ {E : Type 0} where
  -- NewMemoryBus, and the state after Close
  abbrev pub new_bus : MemoryBus E
  new_bus = record { subscribers = empty; owners = empty; fences = empty }

  -- select { case ch <- event: default: }
  unfoldable pub send_event : E → ℕ → List E → List E
  send_event event id queue =
      if ltb (length queue) channel_capacity then queue ++ event ∷ [] else queue

  unfoldable pub publish_to : E → Option (Map ℕ (List E)) → Uuid → MemoryBus E → MemoryBus E
  unfolding send_event
  publish_to event none user_id b = b
  publish_to event (some subscriptions) user_id b = record b {
    subscribers = put b.subscribers user_id (update_all (send_event event) subscriptions);
  }

  -- MemoryBus.Publish; a user that is named twice gets the event twice.
  unfoldable pub publish_event : List Uuid → E → MemoryBus E → MemoryBus E
  unfolding publish_to
  publish_event [] event b = b
  publish_event (u ∷ us) event b =
      publish_event us event (publish_to event (get b.subscribers u) u b)

  -- Subscribe; `id` is the new subscription.
  unfoldable pub subscribe : ℕ → Uuid → MemoryBus E → MemoryBus E
  subscribe id user_id b = record b {
    subscribers =
        put b.subscribers user_id (put (inner_or_empty (get b.subscribers user_id)) id []);
  }

  unfoldable pub unsubscribe_in : ℕ → Uuid → Option (Map ℕ (List E)) → MemoryBus E → MemoryBus E
  unsubscribe_in id user_id none b = b
  unsubscribe_in id user_id (some m) b = record b {
    subscribers = put b.subscribers user_id (delete m id);
  }

  -- memorySubscription.Close; closing twice does nothing more.
  unfoldable pub unsubscribe : ℕ → Uuid → MemoryBus E → MemoryBus E
  unfolding unsubscribe_in
  unsubscribe id user_id b = unsubscribe_in id user_id (get b.subscribers user_id) b

  unfoldable pub with_live_fences :
      Time → Option (Map Uuid MemoryFence) → Uuid → MemoryBus E → MemoryBus E
  unfolding live_fences
  with_live_fences now none user_id b = b
  with_live_fences now (some m) user_id b = record b {
    fences = put b.fences user_id (live_fences now m);
  }

  -- RegisterSessionOwner; `owner` is the new owner.
  unfoldable pub register_session_owner :
      ℕ → Uuid → Uuid → Time → MemoryBus E → List FenceCall × MemoryBus E
  unfolding barrier_calls with_live_fences
  register_session_owner owner user_id session_id now b =
      let registered = record b {
        owners = put b.owners user_id (put (inner_or_empty (get b.owners user_id)) owner tt);
      } in
      (
        barrier_calls owner session_id
            (values (live_fences now (inner_or_empty (get b.fences user_id)))),
        with_live_fences now (get b.fences user_id) user_id registered,
      )

  -- FenceSessions; `ticket` is the value of uuid.New().
  unfoldable pub fence_sessions :
      Uuid → Uuid → Option Uuid → Time → MemoryBus E → List FenceCall × MemoryBus E
  unfolding owner_calls
  fence_sessions ticket user_id session_id now b = (
    owner_calls session_id (inner_or_empty (get b.owners user_id)).entries,
    record b {
      fences = put b.fences user_id (
          put (inner_or_empty (get b.fences user_id)) ticket
            (record { session_id = session_id; valid_until = now + realtime_fence_ttl }));
    },
  )

  unfoldable pub release_in :
      Uuid → Uuid → Option (Map Uuid MemoryFence) → MemoryBus E → MemoryBus E
  release_in ticket user_id none b = b
  release_in ticket user_id (some m) b = record b {
    fences = put b.fences user_id (delete m ticket);
  }

  -- memoryFenceTicket.Release
  unfoldable pub release_fence : Uuid → Uuid → MemoryBus E → MemoryBus E
  unfolding release_in
  release_fence ticket user_id b = release_in ticket user_id (get b.fences user_id) b

  -- memorySessionOwner.Valid
  unfoldable pub owner_valid : ℕ → Uuid → MemoryBus E → Bool
  owner_valid owner user_id b = is_present (get (inner_or_empty (get b.owners user_id)) owner)
    where
      is_present : Option (Unit {0}) → Bool
      is_present none = false
      is_present (some u) = true

  -- memorySessionOwner.Close
  unfoldable pub close_owner : ℕ → Uuid → MemoryBus E → MemoryBus E
  close_owner owner user_id b =
      let left = delete (inner_or_empty (get b.owners user_id)) owner in
      if no_owners_left left.entries
      then record b { owners = delete b.owners user_id }
      else record b { owners = put b.owners user_id left }
