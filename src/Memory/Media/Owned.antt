-- ===== src/Memory/Media/Owned.antt =====
-- internal/store/memory/memory.go: what the checks that the mutating media methods share let pass.
use clixor_backend.Prelude.{
  ◌≡◌, refl, Option, none, some, true, false, nat_eq, arith, Bool-cases, inl, inr, ap, subst,
}
use clixor_backend.Map.{get}
use clixor_backend.Domain.{Uuid, Error, ok, live}
use clixor_backend.Domain.Media.{MediaObject, media_deleted}
use clixor_backend.Memory.{Store}
use clixor_backend.Memory.Outbox.{is_set}
use clixor_backend.Memory.Media.{
  owned_media, found_media, kept_media, checked, owner_error, authorize_media_mutation,
}

-- The object is stored under `id`, is not deleted, and belongs to a live actor.
pub record IsOwned (id actor_id : Uuid) (s : Store) (m : MediaObject) : Type 0 where
  pub stored : get s.media id ≡ some m
  pub kept : media_deleted m.status ≡ false
  pub owner : m.owner_id ≡ actor_id
  pub actor : is_set (live (get s.users actor_id)) ≡ true

module _ (actor_id : Uuid) (s : Store) (m : MediaObject) where
  checked_ok : (w : MediaObject) (e : Option Error) → checked w e ≡ ok m → (w ≡ m) × (e ≡ none)
  unfolding checked
  checked_ok w none h = (cc, refl)
  checked_ok w (some e) h = cc

  owner_ok :
      (w : MediaObject)
      → owner_error w actor_id s ≡ none
      → (w.owner_id ≡ actor_id) × (is_set (live (get s.users actor_id)) ≡ true)
  unfolding owner_error authorize_media_mutation
  owner_ok w h = ground arith

  found_ok :
      (o : Option MediaObject)
      → found_media actor_id s (kept_media o) ≡ ok m
      → (o ≡ some m)
        × (media_deleted m.status ≡ false)
        × (m.owner_id ≡ actor_id)
        × (is_set (live (get s.users actor_id)) ≡ true)
  unfolding found_media kept_media
  found_ok none h = cc
  found_ok (some w) h = elim (Bool-cases (media_deleted w.status)) [
    | inl e ↦ cc (rw e at h)
    | inr e ↦ kept_ok e (checked_ok w (owner_error w actor_id s) (rw e at h))
  ]
    where
      kept_ok :
          media_deleted w.status ≡ false
          → (w ≡ m) × (owner_error w actor_id s ≡ none)
          → (some w ≡ some m)
            × (media_deleted m.status ≡ false)
            × (m.owner_id ≡ actor_id)
            × (is_set (live (get s.users actor_id)) ≡ true)
      kept_ok e (same, clear) = (
        ap some same,
        subst (λ x. media_deleted x.status ≡ false) same e,
        subst (λ x. x.owner_id ≡ actor_id) same (owner_ok w clear).0,
        (owner_ok w clear).1,
      )

pub owned_media_lem :
    (id actor_id : Uuid) (s : Store) (m : MediaObject)
    → owned_media id actor_id s ≡ ok m
    → IsOwned id actor_id s m
unfolding owned_media
owned_media_lem id actor_id s m h =
    let (stored, kept, owner, actor) = found_ok actor_id s m (get s.media id) h in
    record { stored = stored; kept = kept; owner = owner; actor = actor }
