-- ===== src/Memory/Media/Quota.antt =====
-- internal/store/memory/memory.go: the quotas of createMediaLocked, against exact totals.
use clixor_backend.Prelude.{
  ℕ, ◌+◌, ◌%◌, ◌≤◌, ◌<◌, ◌≡◌, subst, List, [], ◌∷◌, Bool, true, false, not, ◌&&◌, if◌then◌else◌,
  ◌==◌, nat_eq, arith, add64, inc64, exceeds, Bool-cases, inl, inr, neither,
}
use clixor_backend.Map.{values}
use clixor_backend.Domain.{Uuid}
use clixor_backend.Domain.Media.{MediaObject, in_conversation, media_deleted, media_pending}
use clixor_backend.Memory.{Store}
use clixor_backend.Memory.Media.{MediaReservationLimits, usage, over}

-- 2^62
abbrev pub quota_bound : ℕ
quota_bound = 4611686018427387904

-- The exact totals of the objects that a test counts.
unfoldable pub counted : (MediaObject → Bool) → List MediaObject → ℕ
counted p [] = 0
counted p (m ∷ ms) = (if p m then 1 else 0) + counted p ms

unfoldable pub stored_bytes : (MediaObject → Bool) → List MediaObject → ℕ
stored_bytes p [] = 0
stored_bytes p (m ∷ ms) = (if p m then m.byte_size else 0) + stored_bytes p ms

-- Both totals are within their limits.
pub record Within (max_count max_bytes : ℕ) (p : MediaObject → Bool) (ms : List MediaObject)
    : Type 0 where
  pub count : counted p ms ≤ max_count
  pub bytes : stored_bytes p ms ≤ max_bytes

-- The tests of createMediaLocked, for an owner and for a conversation.
abbrev pub stored_by : Uuid → MediaObject → Bool
stored_by owner m = not (media_deleted m.status) && m.owner_id == owner

abbrev pub pending_by : Uuid → MediaObject → Bool
pending_by owner m = stored_by owner m && media_pending m.status

-- `inside` says whether the new object is in a conversation.
abbrev pub stored_there : Bool → Uuid → MediaObject → Bool
stored_there inside id m =
    not (media_deleted m.status) && inside && in_conversation m.scope && m.conversation_id == id

abbrev pub pending_there : Bool → Uuid → MediaObject → Bool
pending_there inside id m = stored_there inside id m && media_pending m.status

abbrev pub stored_in : Uuid → MediaObject → Bool
stored_in = stored_there true

abbrev pub pending_in : Uuid → MediaObject → Bool
pending_in = pending_there true

-- Every owner and every conversation is within the limits.
pub record WithinQuota (l : MediaReservationLimits) (s : Store) : Type 0 where
  pub stored_by_owner :
      (owner : Uuid)
      → Within l.max_stored_count_per_user l.max_stored_bytes_per_user
          (stored_by owner)
          (values s.media)
  pub pending_by_owner :
      (owner : Uuid)
      → Within l.max_pending_count_per_user l.max_pending_bytes_per_user
          (pending_by owner)
          (values s.media)
  pub stored_in_conversation :
      (id : Uuid)
      → Within l.max_stored_count_conversation l.max_stored_bytes_conversation
          (stored_in id)
          (values s.media)
  pub pending_in_conversation :
      (id : Uuid)
      → Within l.max_pending_count_conversation l.max_pending_bytes_conversation
          (pending_in id)
          (values s.media)

-- The limits leave room for one more object in an int64.
pub record IsSmall (l : MediaReservationLimits) : Type 0 where
  pub stored_count : l.max_stored_count_per_user < quota_bound
  pub stored_bytes : l.max_stored_bytes_per_user < quota_bound
  pub pending_count : l.max_pending_count_per_user < quota_bound
  pub pending_bytes : l.max_pending_bytes_per_user < quota_bound
  pub conversation_count : l.max_stored_count_conversation < quota_bound
  pub conversation_bytes : l.max_stored_bytes_conversation < quota_bound
  pub pending_conversation_count : l.max_pending_count_conversation < quota_bound
  pub pending_conversation_bytes : l.max_pending_bytes_conversation < quota_bound

-- A test that passes without a wrap-around.
fits :
    (total add limit : ℕ)
    → limit < quota_bound
    → total ≤ limit
    → add ≤ quota_bound
    → exceeds ((total + add) % 18446744073709551616) limit ≡ false
    → total + add ≤ limit
fits total add limit small h a e = ground arith

exact :
    (total wrapped limit : ℕ)
    → limit < quota_bound
    → total ≤ limit
    → wrapped ≡ total % 18446744073709551616
    → wrapped ≡ total
exact total wrapped limit small h e = omega arith

module _ (p : MediaObject → Bool) where
  -- The running totals are the exact ones up to the wrap-around.
  usage_wrapped :
      (ms : List MediaObject)
      → ((usage p ms).count ≡ counted p ms % 18446744073709551616)
        × ((usage p ms).bytes ≡ stored_bytes p ms % 18446744073709551616)
  unfolding usage inc64 add64 counted stored_bytes
  usage_wrapped [] = (omega arith, omega arith)
  usage_wrapped (m ∷ ms) = elim (Bool-cases (p m)) [
    | inl e ↦ rw e (omega (arith, usage_wrapped ms), omega (arith, usage_wrapped ms))
    | inr e ↦ rw e (omega (arith, usage_wrapped ms), omega (arith, usage_wrapped ms))
  ]

  module _ (max_count max_bytes : ℕ) (new : MediaObject) (ms : List MediaObject) where
    room :
        max_count < quota_bound
        → max_bytes < quota_bound
        → new.byte_size ≤ quota_bound
        → over max_count max_bytes new (usage p ms) ≡ false
        → Within max_count max_bytes p ms
        → (1 + counted p ms ≤ max_count) × (new.byte_size + stored_bytes p ms ≤ max_bytes)
    unfolding over inc64 add64
    room small_count small_bytes size free h =
        let count =
          exact (counted p ms) (usage p ms).count max_count small_count h.count
            (usage_wrapped ms).0 in
        let bytes =
          exact (stored_bytes p ms) (usage p ms).bytes max_bytes small_bytes h.bytes
            (usage_wrapped ms).1 in
        let both : (exceeds ((counted p ms + 1) % 18446744073709551616) max_count ≡ false)
            × (exceeds ((stored_bytes p ms + new.byte_size) % 18446744073709551616) max_bytes
                ≡ false) =
          neither _ _ (rw (count, bytes) at free) in
        (
          omega (arith, fits (counted p ms) 1 max_count small_count h.count (omega arith) both.0),
          omega (
            arith,
            fits (stored_bytes p ms) new.byte_size max_bytes small_bytes h.bytes size both.1,
          ),
        )

    -- The new object fits where it is counted.
    added-Within :
        (r : MediaObject)
        → r.byte_size ≡ new.byte_size
        → (1 + counted p ms ≤ max_count) × (new.byte_size + stored_bytes p ms ≤ max_bytes)
        → Within max_count max_bytes p (r ∷ ms)
    unfolding counted stored_bytes
    added-Within r same h = elim (Bool-cases (p r)) [
      | inl e ↦ record {
        count = rw e (omega (arith, h.0));
        bytes = rw (e, same) (omega (arith, h.1));
      }
      | inr e ↦ record { count = rw e (omega (arith, h.0)); bytes = rw e (omega (arith, h.1)) }
    ]

  unchanged-Within :
      (max_count max_bytes : ℕ) (r : MediaObject) (ms : List MediaObject)
      → p r ≡ false
      → Within max_count max_bytes p ms
      → Within max_count max_bytes p (r ∷ ms)
  unfolding counted stored_bytes
  unchanged-Within max_count max_bytes r ms e h = record {
    count = rw e (omega (arith, h.count));
    bytes = rw e (omega (arith, h.bytes));
  }

-- What an object adds to the totals of one key.
pub kept-Within :
    (max_count max_bytes : ℕ) (P : Uuid → MediaObject → Bool) (key new_key : Uuid)
    (new r : MediaObject) (ms : List MediaObject)
    → max_count < quota_bound
    → max_bytes < quota_bound
    → new.byte_size ≤ quota_bound
    → r.byte_size ≡ new.byte_size
    → (P key r ≡ true
        → (new_key ≡ key) × (over max_count max_bytes new (usage (P new_key) ms) ≡ false))
    → Within max_count max_bytes (P key) ms
    → Within max_count max_bytes (P key) (r ∷ ms)
kept-Within max_count max_bytes P key new_key new r ms small_count small_bytes size same free h =
    elim (Bool-cases (P key r)) [
      | inr e ↦ unchanged-Within (P key) max_count max_bytes r ms e h
      | inl e ↦ added-Within (P key) max_count max_bytes new ms r same (
          room (P key) max_count max_bytes new ms small_count small_bytes size
            (subst (λ k. over max_count max_bytes new (usage (P k) ms) ≡ false) (free e).0
              (free e).1)
            h)
    ]
