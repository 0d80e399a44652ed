-- ===== src/Memory/Media/Remove.antt =====
-- internal/store/memory/memory.go: objects that are rejected, deleted or expired
-- (rejectPendingMedia, DeleteMedia, ExpirePendingMedia). `limit` is the source's int, a value below
-- 1 being 0; `now` is the reading of time.Now().
use clixor_backend.Prelude.{
  ℕ, ◌+◌, Option, none, some, List, [], ◌∷◌, Bool, true, false, not, ◌&&◌, ◌||◌, if◌then◌else◌,
  ◌==◌, nat_eq, bytes_eq, ltb, length, take, map, sort_by,
}
use clixor_backend.Map.{Map, get, put}
use clixor_backend.Domain.{Uuid, Time, Bytes, Result, ok, err, invalid, conflict, after}
use clixor_backend.Domain.Media.{MediaObject, MediaStatus, in_profile, media_pending}
use clixor_backend.Memory.{Store}
use clixor_backend.Memory.Outbox.{set_after}
use clixor_backend.Memory.Media.{owned_media}
use clixor_backend.Memory.Media.Deletes.{
  append_media_deletes_at, media_delete_not_before, media_delete_grace, media_delete_batch_size,
}
use clixor_backend.Memory.Users.{user_of}
use clixor_backend.Memory.Media.Verify.{
  ProfileCodec, profile_media_id, with_picture, settled, settle, same_lease,
}

-- The deleted object with the event that deletes its keys.
unfoldable pub remove_object : Uuid → Uuid → Time → MediaObject → Store → Store
unfolding append_media_deletes_at
remove_object id actor_id now m s =
    append_media_deletes_at actor_id (m.object_key ∷ [])
      (media_delete_not_before now m.upload_valid_until) now
      (settle id (settled MediaStatus.deleted now m) s)

-- leaseToken != uuid.Nil, and the lease is another one or over
unfoldable pub lease_lost : Uuid → Time → MediaObject → Bool
lease_lost token now m =
    not (token == 0)
    && (not (same_lease token m.verification_lease_token)
        || not (set_after m.verification_locked_until now))

unfoldable pub reject_found :
    Uuid → Uuid → Uuid → Time → Result MediaObject → Store → Result MediaObject × Store
unfolding remove_object
reject_found id actor_id token now (err e) s = (err e, s)
reject_found id actor_id token now (ok m) s =
    if not (media_pending m.status) || lease_lost token now m
    then (err conflict, s)
    else (ok (settled MediaStatus.deleted now m), remove_object id actor_id now m s)

unfoldable pub reject_pending : Uuid → Uuid → Uuid → Time → Store → Result MediaObject × Store
unfolding reject_found
reject_pending id actor_id token now s =
    reject_found id actor_id token now (owned_media id actor_id s) s

-- RejectMediaVerification and RejectPendingMedia
unfoldable pub reject_media_verification :
    Uuid → Uuid → Uuid → Time → Store → Result MediaObject × Store
unfolding reject_pending
reject_media_verification id actor_id token now s = reject_pending id actor_id token now s

unfoldable pub reject_pending_media : Uuid → Uuid → Time → Store → Result MediaObject × Store
unfolding reject_pending
reject_pending_media id actor_id now s = reject_pending id actor_id 0 now s

module _ {J : Type 0} (codec : ProfileCodec J) where
  -- user := s.users[actorID]; if profileMediaID(user.AvatarURL) == id { ... }
  unfoldable pub clear_picture : Uuid → Uuid → Time → Store → Store
  clear_picture id actor_id now s =
      let user = user_of (get s.users actor_id) in
      if profile_media_id codec user.avatar_url == id
      then record s { users = put s.users actor_id (with_picture codec [] now user) }
      else s

  unfoldable pub delete_object : Uuid → Uuid → Time → MediaObject → Store → Store
  unfolding clear_picture append_media_deletes_at
  delete_object id actor_id now m s =
      let removed = settle id (settled MediaStatus.deleted now m) s in
      append_media_deletes_at actor_id (m.object_key ∷ [])
        (media_delete_not_before now m.upload_valid_until) now
        (if in_profile m.scope then clear_picture id actor_id now removed else removed)

  unfoldable pub delete_found :
      Uuid → Uuid → Time → Result MediaObject → Store → Result MediaObject × Store
  unfolding delete_object
  delete_found id actor_id now (err e) s = (err e, s)
  delete_found id actor_id now (ok m) s =
      (ok (settled MediaStatus.deleted now m), delete_object id actor_id now m s)

  -- DeleteMedia
  unfoldable pub delete_media : Uuid → Uuid → Time → Store → Result MediaObject × Store
  unfolding delete_found
  delete_media id actor_id now s = delete_found id actor_id now (owned_media id actor_id s) s

-- a < b on strings, by their bytes
unfoldable pub bytes_less : Bytes → Bytes → Bool
bytes_less xs [] = false
bytes_less [] (y ∷ ys) = true
bytes_less (x ∷ xs) (y ∷ ys) = ltb x y || (x == y && bytes_less xs ys)

-- object.Status == "pending" && object.ExpiresAt != nil && !object.ExpiresAt.After(cutoff)
unfoldable pub expired : Time → MediaObject → Bool
expired cutoff m = media_pending m.status && reached m.expires_at cutoff
  where
    reached : Option Time → Time → Bool
    reached none cutoff = false
    reached (some t) cutoff = not (after t cutoff)

unfoldable pub expired_of : Time → List (Uuid × MediaObject) → List (Uuid × Bytes)
expired_of cutoff [] = []
expired_of cutoff ((id, m) ∷ ms) =
    let rest = expired_of cutoff ms in if expired cutoff m then (id, m.object_key) ∷ rest else rest

-- The objects to expire, sorted by key and cut at the limit. Where two keys are equal the source's
-- order of the two is not determined; here it is that of the map.
unfoldable pub expired_batch : Time → ℕ → Map Uuid MediaObject → List (Uuid × Bytes)
expired_batch cutoff limit media =
    take limit (sort_by (λ a b. bytes_less a.1 b.1) (expired_of cutoff media.entries))

-- The loop that settles the batch, with the keys that it collects.
unfoldable pub expire_one : Uuid → Time → Option MediaObject → Store → Store
expire_one id cutoff none s = s
expire_one id cutoff (some m) s = settle id (settled MediaStatus.deleted cutoff m) s

unfoldable pub expire_each : Time → List (Uuid × Bytes) → Store → Store
unfolding expire_one
expire_each cutoff [] s = s
expire_each cutoff ((id, key) ∷ rest) s =
    expire_each cutoff rest (expire_one id cutoff (get s.media id) s)

unfoldable pub valid_until : Option MediaObject → Time
valid_until none = 0
valid_until (some m) = m.upload_valid_until

unfoldable pub later_of : Time → Time → Time
later_of candidate t = if after candidate t then candidate else t

-- The latest of the batch's times.
unfoldable pub latest_not_before : Time → Map Uuid MediaObject → List (Uuid × Bytes) → Time → Time
unfolding later_of
latest_not_before now media [] t = t
latest_not_before now media ((id, key) ∷ rest) t =
    latest_not_before now media rest
      (later_of (media_delete_not_before now (valid_until (get media id))) t)

unfoldable pub delete_expired : Time → List (Uuid × Bytes) → Store → Store
unfolding append_media_deletes_at
delete_expired now [] s = s
delete_expired now (o ∷ os) s =
    append_media_deletes_at 0 (map (λ p. p.1) (o ∷ os))
      (latest_not_before now s.media (o ∷ os) (now + media_delete_grace)) now s

-- ExpirePendingMedia
unfoldable pub expire_pending_media : Time → ℕ → Time → Store → Result ℕ × Store
unfolding delete_expired
expire_pending_media cutoff limit now s =
    let batch = expired_batch cutoff limit s.media in
    if limit == 0 || ltb media_delete_batch_size limit
    then (err invalid, s)
    else (ok (length batch), delete_expired now batch (expire_each cutoff batch s))
