-- ===== src/Memory/Media/Grace.antt =====
-- internal/store/memory/memory.go: what a removed media object leaves behind, and that
-- rejectPendingMedia removes it so.
use clixor_backend.Prelude.{
  ◌+◌, ◌≤◌, ◌≡◌, refl, ap, subst, ◌∙◌, none, some, List, [], ◌∷◌, ◌++◌, true, not, ◌||◌, ◌==◌,
  nat_eq, bytes_eq, arith, if_cases, exists,
}
use clixor_backend.Map.{get}
use clixor_backend.Map.Laws.{get-put, get-delete, beq_refl}
use clixor_backend.Domain.{Uuid, Time, Bytes, Result, ok, err, conflict}
use clixor_backend.Domain.Media.{MediaObject, MediaStatus, media_pending}
use clixor_backend.Memory.{Store}
use clixor_backend.Memory.Media.{owned_media}
use clixor_backend.Memory.Media.Owned.{IsOwned, owned_media_lem}
use clixor_backend.Memory.Media.Batches.{IsAppended, append_exact_complete, append_deletes_rest}
use clixor_backend.Memory.Media.Named.{
  published_too, staging_too, expand_keys_named, expand_keys_published, expand_keys_staging,
}
use clixor_backend.Memory.Media.Deletes.{
  append_media_deletes_at, media_delete_not_before, media_delete_grace, expand_keys,
}
use clixor_backend.Memory.Media.Verify.{settled, settle}
use clixor_backend.Memory.Media.Remove.{reject_pending, reject_found, remove_object, lease_lost}

-- Both times of memoryMediaDeleteNotBefore bound it from below.
not_before_late :
    (now until : Time)
    → (until + media_delete_grace ≤ media_delete_not_before now until)
      × (now + media_delete_grace ≤ media_delete_not_before now until)
unfolding media_delete_not_before
not_before_late now until = ground arith

-- `m` is what the removal of the object `old` of the actor returned, and `t` the store after it.
pub record IsRemoved (id actor_id : Uuid) (now : Time) (s : Store) (m : MediaObject) (t : Store)
    : Type 0 where
  pub old : MediaObject
  pub owned : IsOwned id actor_id s old
  pub result : m ≡ settled MediaStatus.deleted now old
  pub stored : get t.media id ≡ some m
  pub capability : get t.media_upload_capabilities id ≡ none
  pub not_before : Time
  pub keys : List Bytes
  pub appended : IsAppended not_before keys s t
  pub named : exists (λ k. k == m.object_key) keys ≡ true
  pub published_named : published_too m.object_key keys ≡ true
  pub staging_named : staging_too m.object_key keys ≡ true
  pub upload_over : old.upload_valid_until + media_delete_grace ≤ not_before
  pub readers_over : now + media_delete_grace ≤ not_before

module _ (id actor_id : Uuid) (now : Time) (old : MediaObject) (s : Store) where
  -- The event that both removals end with, from a store that has settled the object.
  pub removal :
      (r : Store)
      → IsOwned id actor_id s old
      → r.outbox ≡ s.outbox
      → get r.media id ≡ some (settled MediaStatus.deleted now old)
      → get r.media_upload_capabilities id ≡ none
      → IsRemoved id actor_id now s (settled MediaStatus.deleted now old) (
          append_media_deletes_at actor_id
            (old.object_key ∷ [])
            (media_delete_not_before now old.upload_valid_until)
            now
            r)
  unfolding append_media_deletes_at settled
  removal r owned same stored cleared =
      let not_before = media_delete_not_before now old.upload_valid_until in
      let keys = expand_keys (old.object_key ∷ []) [] in
      let h = append_exact_complete actor_id keys not_before now r in
      let rest = append_deletes_rest actor_id (old.object_key ∷ []) not_before now r in
      record {
        old = old;
        owned = owned;
        result = refl;
        stored = ap (λ t. get t.media id) rest ∙ stored;
        capability = ap (λ t. get t.media_upload_capabilities id) rest ∙ cleared;
        not_before = not_before;
        keys = keys;
        appended = record {
          events = h.events;
          outbox = h.outbox ∙ ap (λ o. o ++ h.events) same;
          complete = h.complete;
          each = h.each;
        };
        named = expand_keys_named old.object_key;
        published_named = expand_keys_published old.object_key;
        staging_named = expand_keys_staging old.object_key;
        upload_over = (not_before_late now old.upload_valid_until).0;
        readers_over = (not_before_late now old.upload_valid_until).1;
      }

  pub settled_here :
      (get (settle id (settled MediaStatus.deleted now old) s).media id
        ≡ some (settled MediaStatus.deleted now old))
      × (get (settle id (settled MediaStatus.deleted now old) s).media_upload_capabilities id
          ≡ none)
  unfolding settle
  settled_here = (rw (get-put, beq_refl id) refl, rw (get-delete, beq_refl id) refl)

pub ok_injective : {x y : MediaObject} → ok x ≡ ok y → x ≡ y
ok_injective h = cc

module _ (id actor_id token : Uuid) (now : Time) (s : Store) (m : MediaObject) where
  remove_object-IsRemoved :
      (w : MediaObject)
      → IsOwned id actor_id s w
      → IsRemoved id actor_id now s
          (settled MediaStatus.deleted now w)
          (remove_object id actor_id now w s)
  unfolding remove_object settle
  remove_object-IsRemoved w owned =
      let (stored, cleared) = settled_here id actor_id now w s in
      removal id actor_id now w s (settle id (settled MediaStatus.deleted now w) s) owned refl
        stored cleared

  reject_found_lem :
      (r : Result MediaObject)
      → ((w : MediaObject) → r ≡ ok w → IsOwned id actor_id s w)
      → (reject_found id actor_id token now r s).0 ≡ ok m
      → IsRemoved id actor_id now s m (reject_found id actor_id token now r s).1
  unfolding reject_found
  reject_found_lem (err e) owned h = cc
  reject_found_lem (ok w) owned h =
      if_cases {A = Result MediaObject × Store}
        (λ p. p.0 ≡ ok m → IsRemoved id actor_id now s m p.1)
        (not (media_pending w.status) || lease_lost token now w) (err conflict, s) _ (λ e q. cc)
        (λ e q.
          subst (λ x. IsRemoved id actor_id now s x (remove_object id actor_id now w s))
            (ok_injective q) (remove_object-IsRemoved w (owned w refl)))
        h

-- A rejection that returns `m` (RejectPendingMedia, or RejectMediaVerification with its lease)
-- found a stored object of the actor, returns it as deleted and stores it so, drops its upload
-- capability, and appends to the outbox pending media.delete events whose keys include the
-- object's own, with its published or staging form; they are available only after every upload URL
-- of the object has been over for the grace period, and not before the grace period from now.
pub reject_pending-IsRemoved :
    (id actor_id token : Uuid) (now : Time) (s : Store) (m : MediaObject)
    → (reject_pending id actor_id token now s).0 ≡ ok m
    → IsRemoved id actor_id now s m (reject_pending id actor_id token now s).1
unfolding reject_pending
reject_pending-IsRemoved id actor_id token now s m h =
    reject_found_lem id actor_id token now s m (owned_media id actor_id s)
      (owned_media_lem id actor_id s) h
