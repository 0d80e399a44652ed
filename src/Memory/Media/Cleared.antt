-- ===== src/Memory/Media/Cleared.antt =====
-- internal/store/memory/memory.go: what DeleteMedia leaves behind.
use clixor_backend.Prelude.{
  ◌≡◌, refl, ap, subst, ◌∙◌, some, [], ◌∷◌, Bool, true, if◌then◌else◌, ◌==◌, nat_eq, bytes_eq,
  arith, false, ◌&&◌, Bool-cases, inl, inr,
}
use clixor_backend.Map.{get}
use clixor_backend.Map.Laws.{get-put}
use clixor_backend.Domain.{Uuid, Time, Result, ok, err}
use clixor_backend.Domain.Media.{MediaObject, MediaStatus, in_profile}
use clixor_backend.Memory.{Store}
use clixor_backend.Memory.Media.{owned_media}
use clixor_backend.Memory.Media.Owned.{IsOwned, owned_media_lem}
use clixor_backend.Memory.Media.Batches.{append_deletes_rest}
use clixor_backend.Memory.Media.Deletes.{media_delete_not_before}
use clixor_backend.Memory.Users.{user_of}
use clixor_backend.Memory.Media.Verify.{
  ProfileCodec, settled, settle, profile_media_id, set_profile_media_reference, with_picture,
}
use clixor_backend.Memory.Media.Remove.{delete_media, delete_found, delete_object, clear_picture}
use clixor_backend.Memory.Media.Grace.{IsRemoved, removal, settled_here, ok_injective}

-- The users after the deletion of the object `old`: where it is a profile picture that its owner
-- shows, the owner's reference and the profile's copy of it are cleared; all others are unchanged.
abbrev pub PictureCleared :
    {J : Type 0} → ProfileCodec J → Uuid → Uuid → Time → MediaObject → Store → Store → Type 0
PictureCleared codec id actor_id now old s t =
    (j : Uuid)
    → get t.users j ≡ (
        if in_profile old.scope
          && profile_media_id codec (user_of (get s.users actor_id)).avatar_url == id
          && actor_id == j
        then some (record (user_of (get s.users actor_id)) {
          avatar_url = [];
          profile = set_profile_media_reference codec (user_of (get s.users actor_id)).profile [];
          updated_at = now;
        })
        else get s.users j)

-- What a DeleteMedia that returned `m` did.
pub record IsDeleted {J : Type 0} (codec : ProfileCodec J) (id actor_id : Uuid) (now : Time)
    (s : Store) (m : MediaObject) (t : Store) : Type 0 where
  pub removed : IsRemoved id actor_id now s m t
  pub object : MediaObject
  pub owned : IsOwned id actor_id s object
  pub result : m ≡ settled MediaStatus.deleted now object
  pub picture : PictureCleared codec id actor_id now object s t

module _ (id actor_id : Uuid) (now : Time) (s : Store) (m : MediaObject) {J : Type 0}
    (codec : ProfileCodec J) where
  cleared_rest :
      (p : Bool) (r : Store)
      → (if p then clear_picture codec id actor_id now r else r)
        ≡ record r { users = (if p then clear_picture codec id actor_id now r else r).users }
  unfolding clear_picture
  cleared_rest p r = ground arith

  cleared_users :
      (p : Bool) (r : Store) (j : Uuid)
      → r.users ≡ s.users
      → get (if p then clear_picture codec id actor_id now r else r).users j ≡ (
          if p
            && profile_media_id codec (user_of (get s.users actor_id)).avatar_url == id
            && actor_id == j
          then some (record (user_of (get s.users actor_id)) {
            avatar_url = [];
            profile = set_profile_media_reference codec (user_of (get s.users actor_id)).profile [];
            updated_at = now;
          })
          else get s.users j)
  unfolding clear_picture with_picture
  cleared_users false r j same = ap (λ u. get u j) same
  cleared_users true r j same =
      elim (Bool-cases (profile_media_id codec (user_of (get s.users actor_id)).avatar_url == id)) [
        | inl e ↦ rw (same, e, get-put s.users actor_id j) refl
        | inr e ↦ rw (same, e) refl
      ]

  delete_object-IsRemoved :
      (w : MediaObject)
      → IsOwned id actor_id s w
      → IsRemoved id actor_id now s
          (settled MediaStatus.deleted now w)
          (delete_object codec id actor_id now w s)
  unfolding delete_object settle
  delete_object-IsRemoved w owned =
      let (stored, cleared) = settled_here id actor_id now w s in
      let rest =
        cleared_rest (in_profile w.scope) (settle id (settled MediaStatus.deleted now w) s) in
      removal id actor_id now w s _ owned (ap (λ r. r.outbox) rest)
        (ap (λ r. get r.media id) rest ∙ stored)
        (ap (λ r. get r.media_upload_capabilities id) rest ∙ cleared)

  delete_object-PictureCleared :
      (w : MediaObject)
      → PictureCleared codec id actor_id now w s (delete_object codec id actor_id now w s)
  unfolding delete_object settle
  delete_object-PictureCleared w j =
      ap (λ t. get t.users j)
        (append_deletes_rest actor_id (w.object_key ∷ [])
          (media_delete_not_before now w.upload_valid_until) now _)
      ∙ cleared_users (in_profile w.scope) (settle id (settled MediaStatus.deleted now w) s) j refl

  delete_found_lem :
      (r : Result MediaObject)
      → ((w : MediaObject) → r ≡ ok w → IsOwned id actor_id s w)
      → (delete_found codec id actor_id now r s).0 ≡ ok m
      → IsDeleted codec id actor_id now s m (delete_found codec id actor_id now r s).1
  unfolding delete_found
  delete_found_lem (err e) owned h = cc
  delete_found_lem (ok w) owned h =
      subst (λ x. IsDeleted codec id actor_id now s x (delete_object codec id actor_id now w s))
        (ok_injective h)
        (record {
          removed = delete_object-IsRemoved w (owned w refl);
          object = w;
          owned = owned w refl;
          result = refl;
          picture = delete_object-PictureCleared w;
        })

-- A DeleteMedia that returns `m` found a stored object of the actor, returns it as deleted and
-- stores it so, drops its upload capability, and appends to the outbox pending media.delete events
-- whose keys include the object's own and, where these are valid keys that are not too long, its
-- published form or the staging form of a published one; they are available only after every upload URL of the object has
-- been over for the grace period, and not before the grace period from now. Where the object is a
-- profile picture that its owner shows, the owner's reference and the profile's copy of it are
-- cleared, and all other users stay as they are.
pub delete_media-IsDeleted :
    {J : Type 0} (codec : ProfileCodec J) (id actor_id : Uuid) (now : Time) (s : Store)
    (m : MediaObject)
    → (delete_media codec id actor_id now s).0 ≡ ok m
    → IsDeleted codec id actor_id now s m (delete_media codec id actor_id now s).1
unfolding delete_media
delete_media-IsDeleted codec id actor_id now s m h =
    delete_found_lem id actor_id now s m codec (owned_media id actor_id s)
      (owned_media_lem id actor_id s) h
