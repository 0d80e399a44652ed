-- ===== src/Memory/Media/Lease.antt =====
-- internal/store/memory/memory.go: the lease that ClaimMediaVerification hands out.
use clixor_backend.Prelude.{
  ◌+◌, ◌<◌, ◌≡◌, ◌≢◌, refl, sym, subst, ◌∙◌, some, true, false, ◌||◌, if◌then◌else◌, ◌==◌, nat_eq,
  ltb, arith, if_cases, if_both,
}
use clixor_backend.Map.{get, put}
use clixor_backend.Map.Laws.{get-put, beq_refl}
use clixor_backend.Domain.{
  Uuid, Time, Bytes, Error, Result, ok, err, invalid, conflict, media_expired,
}
use clixor_backend.Domain.Media.{MediaObject, MediaStatus, media_pending, media_ready}
use clixor_backend.Memory.{Store}
use clixor_backend.Memory.Outbox.{set_after}
use clixor_backend.Memory.Media.{owned_media}
use clixor_backend.Memory.Media.Owned.{owned_media_lem}
use clixor_backend.Memory.Media.Verify.{
  ProfileCodec, claim_media_verification, claim_found, claimed, verifying, same_lease, ready_error,
  mark_media_ready, mark_found,
}

-- The object under `id` is pending and leased with `token` up to `until`.
pub record IsLeased (id token : Uuid) (until : Time) (s : Store) : Type 0 where
  pub object : MediaObject
  pub stored : get s.media id ≡ some object
  pub pending : media_pending object.status ≡ true
  pub holder : object.verification_lease_token ≡ some token
  pub ends : object.verification_locked_until ≡ some until

-- The method returned an error and left the store as it was.
pub record IsRefused {A : Type 0} (s : Store) (r : Result A × Store) : Type 0 where
  pub error : Error
  pub answer : r.0 ≡ err error
  pub unchanged : r.1 ≡ s

module _ (id : Uuid) (duration : Time) (fresh : Uuid) (now : Time) (s : Store) where
  -- A pending object that the claim returns is the one that it leased.
  granted :
      (w m : MediaObject)
      → (claim_found id duration fresh now (ok w) s).0 ≡ ok m
      → media_ready m.status ≡ false
      → (claim_found id duration fresh now (ok w) s).1
        ≡ record s { media = put s.media id (claimed fresh duration now w) }
  unfolding claim_found
  granted w m h unready = ground arith

  granted_pending :
      (w m : MediaObject)
      → (claim_found id duration fresh now (ok w) s).0 ≡ ok m
      → media_ready m.status ≡ false
      → media_pending w.status ≡ true
  unfolding claim_found
  granted_pending w m h unready = ground arith

  claim_found-IsLeased :
      (r : Result MediaObject) (m : MediaObject)
      → (claim_found id duration fresh now r s).0 ≡ ok m
      → media_ready m.status ≡ false
      → IsLeased id fresh (now + duration) (claim_found id duration fresh now r s).1
  unfolding claim_found claimed
  claim_found-IsLeased (err e) m h unready = cc
  claim_found-IsLeased (ok w) m h unready =
      subst (IsLeased id fresh (now + duration)) (sym (granted w m h unready)) (record {
        object = claimed fresh duration now w;
        stored = rw (get-put, beq_refl id) refl;
        pending = granted_pending w m h unready;
        holder = refl;
        ends = refl;
      })

pending-not_ready :
    (status : MediaStatus) → media_pending status ≡ true → media_ready status ≡ false
pending-not_ready MediaStatus.pending h = refl
pending-not_ready MediaStatus.ready h = cc
pending-not_ready MediaStatus.deleted h = refl
pending-not_ready MediaStatus.other_status h = refl

module _ (id token : Uuid) (until now : Time) (s : Store) where
  claim_answer :
      (duration : Time) (fresh : Uuid) (w : MediaObject)
      → media_pending w.status ≡ true
      → media_ready w.status ≡ false
      → w.verification_lease_token ≡ some token
      → w.verification_locked_until ≡ some until
      → now < until
      → claim_found id duration fresh now (ok w) s
        ≡ (err (if set_after w.expires_at now then conflict else media_expired), s)
  unfolding claim_found verifying
  claim_answer duration fresh w pending unready holder ends live =
      rw (unready, pending, holder, ends) (ground arith)

  mark_answer :
      {J : Type 0} (codec : ProfileCodec J) (actor_id other : Uuid) (key : Bytes) (w : MediaObject)
      → media_ready w.status ≡ false
      → w.verification_lease_token ≡ some token
      → other ≢ token
      → mark_found codec id actor_id other key now (ok w) s ≡ (err conflict, s)
  unfolding mark_found ready_error same_lease
  mark_answer codec actor_id other key w unready holder differ = rw (unready, holder) (ground arith)

some_injective : {x y : MediaObject} → some x ≡ some y → x ≡ y
some_injective h = cc

-- What the shared checks let through is the leased object.
owned-leased :
    (id actor_id token : Uuid) (until : Time) (s : Store)
    → (h : IsLeased id token until s) → (w : MediaObject) → owned_media id actor_id s ≡ ok w
    → h.object ≡ w
owned-leased id actor_id token until s h w e =
    some_injective (sym h.stored ∙ (owned_media_lem id actor_id s w e).stored)

module _ (id token : Uuid) (until now : Time) (s : Store) (h : IsLeased id token until s) where
  unready : media_ready h.object.status ≡ false
  unready = pending-not_ready h.object.status h.pending

  claim_found-IsRefused :
      (duration : Time) (fresh : Uuid) (r : Result MediaObject)
      → ((w : MediaObject) → r ≡ ok w → h.object ≡ w)
      → now < until
      → IsRefused s (claim_found id duration fresh now r s)
  unfolding claim_found
  claim_found-IsRefused duration fresh (err e) found live = record {
    error = e;
    answer = refl;
    unchanged = refl;
  }
  claim_found-IsRefused duration fresh (ok w) found live =
      subst (λ x. IsRefused s (claim_found id duration fresh now (ok x) s)) (found w refl)
        (subst (IsRefused s)
          (sym (
            claim_answer id token until now s duration fresh h.object h.pending unready h.holder
              h.ends live))
          (record { error = _; answer = refl; unchanged = refl }))

  mark_found-IsRefused :
      {J : Type 0} (codec : ProfileCodec J) (actor_id other : Uuid) (key : Bytes)
      (r : Result MediaObject)
      → ((w : MediaObject) → r ≡ ok w → h.object ≡ w)
      → other ≢ token
      → IsRefused s (mark_found codec id actor_id other key now r s)
  unfolding mark_found
  mark_found-IsRefused codec actor_id other key (err e) found differ = record {
    error = e;
    answer = refl;
    unchanged = refl;
  }
  mark_found-IsRefused codec actor_id other key (ok w) found differ =
      subst (λ x. IsRefused s (mark_found codec id actor_id other key now (ok x) s)) (found w refl)
        (subst (IsRefused s)
          (sym (
            mark_answer id token until now s codec actor_id other key h.object unready h.holder
              differ))
          (record { error = _; answer = refl; unchanged = refl }))

claim-IsLeased :
    (id actor_id : Uuid) (duration : Time) (fresh : Uuid) (now : Time) (s : Store) (m : MediaObject)
    → (claim_media_verification id actor_id duration fresh now s).0 ≡ ok m
    → media_ready m.status ≡ false
    → IsLeased id fresh
        (now + duration)
        (claim_media_verification id actor_id duration fresh now s).1
unfolding claim_media_verification
claim-IsLeased id actor_id duration fresh now s m h unready =
    if_cases {A = Result MediaObject × Store}
      (λ r. r.0 ≡ ok m → IsLeased id fresh (now + duration) r.1)
      (id == 0 || actor_id == 0 || ltb duration 1_000_000_000 || ltb 300_000_000_000 duration)
      (err invalid, s) _ (λ e q. cc)
      (λ e q. claim_found-IsLeased id duration fresh now s (owned_media id actor_id s) m q unready)
      h

module _ (id token : Uuid) (until now : Time) (s : Store) (h : IsLeased id token until s) where
  no_second_claim :
      (actor_id : Uuid) (duration : Time) (fresh : Uuid)
      → now < until
      → IsRefused s (claim_media_verification id actor_id duration fresh now s)
  unfolding claim_media_verification
  no_second_claim actor_id duration fresh live =
      if_both (IsRefused s) _ _ _ (record { error = invalid; answer = refl; unchanged = refl })
        (claim_found-IsRefused id token until now s h duration fresh (owned_media id actor_id s)
          (owned-leased id actor_id token until s h) live)

  no_other_mark :
      {J : Type 0} (codec : ProfileCodec J) (actor_id other : Uuid) (key : Bytes)
      → other ≢ token
      → IsRefused s (mark_media_ready codec id actor_id other key now s)
  unfolding mark_media_ready
  no_other_mark codec actor_id other key differ =
      if_both (IsRefused s) _ _ _ (record { error = invalid; answer = refl; unchanged = refl })
        (mark_found-IsRefused id token until now s h codec actor_id other key
          (owned_media id actor_id s) (owned-leased id actor_id token until s h) differ)

-- The lease of a verification is exclusive: after ClaimMediaVerification has returned a pending
-- object with the token `fresh`, a second claim by anyone at a time before the lease ends, and
-- MarkMediaReady with any other token at that time, return an error and change nothing.
pub verification_exclusive :
    {J : Type 0} (codec : ProfileCodec J) (id actor_id : Uuid) (duration : Time) (fresh : Uuid)
    (now : Time) (s : Store) (m : MediaObject)
    → (claim_media_verification id actor_id duration fresh now s).0 ≡ ok m
    → media_ready m.status ≡ false
    → (later : Time) → later < now + duration
    → (other_actor : Uuid) (other_duration : Time) (other other_fresh : Uuid) (key : Bytes)
    → other ≢ fresh
    → let t = (claim_media_verification id actor_id duration fresh now s).1 in
      IsRefused t (claim_media_verification id other_actor other_duration other_fresh later t)
      × IsRefused t (mark_media_ready codec id other_actor other key later t)
verification_exclusive codec id actor_id duration fresh now s m h unready later live other_actor
      other_duration other other_fresh key differ =
    let held = claim-IsLeased id actor_id duration fresh now s m h unready in
    (
      no_second_claim id fresh (now + duration) later _ held other_actor other_duration other_fresh
          live,
      no_other_mark id fresh (now + duration) later _ held codec other_actor other key differ,
    )
