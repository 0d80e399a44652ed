-- ===== src/Memory/Media/Verify.antt =====
-- internal/store/memory/memory.go: the verification of an uploaded object
-- (ClaimMediaVerification, MarkMediaReady, ReleaseMediaVerification) and the profile's reference to
-- its picture (profileMediaID, setProfileMediaReference). github.com/google/uuid and encoding/json
-- are the parameter `codec`. `now` is the reading of time.Now(), `fresh` of uuid.New(), and a
-- duration below 1 is 0.
use clixor_backend.Prelude.{
  ◌+◌, String, Option, none, some, [], ◌∷◌, ◌++◌, Bool, false, not, ◌&&◌, ◌||◌, if◌then◌else◌, ◌==◌,
  nat_eq, bytes_eq, string_eq, ltb,
}
use clixor_backend.Text.{has_prefix, trim_prefix}
use clixor_backend.Map.{Map, empty, get, put, delete}
use clixor_backend.Domain.{
  Uuid, Time, Bytes, User, Result, ok, err, invalid, conflict, media_expired,
}
use clixor_backend.Domain.Media.{
  MediaObject, MediaStatus, in_profile, media_pending, media_ready, media_deleted,
}
use clixor_backend.MediaKey.{valid_key}
use clixor_backend.Memory.{Store}
use clixor_backend.Memory.Users.{user_of}
use clixor_backend.Memory.Outbox.{is_set, set_after}
use clixor_backend.Memory.Media.{owned_media}
use clixor_backend.Memory.Media.Deletes.{
  append_exact_media_deletes_at, append_media_deletes_at, media_delete_not_before,
}

-- What the profile's picture needs of UUIDs and JSON. `parse_uuid` is the value that uuid.Parse
-- returns beside its error, `decode` what json.Unmarshal leaves in an empty map, `encode` is none
-- when json.Marshal returns an error, and `text` is a string as a JSON value.
pub record ProfileCodec (J : Type 0) : Type 0 where
  pub parse_uuid : Bytes → Uuid
  pub uuid_text : Uuid → Bytes
  pub decode : String → Map String J
  pub encode : Map String J → Option String
  pub text : Bytes → J

abbrev pub media_reference_prefix : Bytes
media_reference_prefix =
    b'c' ∷ b'l' ∷ b'u' ∷ b's' ∷ b't' ∷ b'r' ∷ b'-' ∷ b'm' ∷ b'e' ∷ b'd' ∷ b'i' ∷ b'a' ∷ b':' ∷ b'/'
    ∷ b'/' ∷ []

-- The lease of ClaimMediaVerification.
unfoldable pub claimed : Uuid → Time → Time → MediaObject → MediaObject
claimed fresh duration now m = record m {
  verification_lease_token = some fresh;
  verification_locked_until = some (now + duration);
  updated_at = now;
}

-- A verifier holds the object.
unfoldable pub verifying : Time → MediaObject → Bool
verifying now m = is_set m.verification_lease_token && set_after m.verification_locked_until now

unfoldable pub claim_found :
    Uuid → Time → Uuid → Time → Result MediaObject → Store → Result MediaObject × Store
claim_found id duration fresh now (err e) s = (err e, s)
claim_found id duration fresh now (ok m) s =
    if media_ready m.status
    then (ok m, s)
    else if not (media_pending m.status)
    then (err conflict, s)
    else if not (set_after m.expires_at now)
    then (err media_expired, s)
    else if verifying now m
    then (err conflict, s)
    else (
      ok (claimed fresh duration now m),
      record s { media = put s.media id (claimed fresh duration now m) },
    )

-- ClaimMediaVerification
unfoldable pub claim_media_verification :
    Uuid → Uuid → Time → Uuid → Time → Store → Result MediaObject × Store
unfolding claim_found
claim_media_verification id actor_id duration fresh now s =
    if id == 0 || actor_id == 0 || ltb duration 1_000_000_000 || ltb 300_000_000_000 duration
    then (err invalid, s)
    else claim_found id duration fresh now (owned_media id actor_id s) s

-- leaseToken != uuid.Nil && media.VerificationLeaseToken != nil && *... == leaseToken
unfoldable pub same_lease : Uuid → Option Uuid → Bool
same_lease token none = false
same_lease token (some t) = not (token == 0) && t == token

-- The fields that a settled object has cleared.
unfoldable pub settled : MediaStatus → Time → MediaObject → MediaObject
settled status now m = record m {
  status = status;
  updated_at = now;
  expires_at = none;
  verification_lease_token = none;
  verification_locked_until = none;
}

-- The write of a settled object, with its upload capability deleted.
unfoldable pub settle : Uuid → MediaObject → Store → Store
settle id m s = record s {
  media = put s.media id m;
  media_upload_capabilities = delete s.media_upload_capabilities id;
}

unfoldable pub published_object : Bytes → Time → MediaObject → MediaObject
published_object key now m = record (settled MediaStatus.ready now m) { object_key = key }

-- The old picture of the owner, if it is a profile object of the owner that is not deleted.
unfoldable pub old_picture : Uuid → Option MediaObject → Option MediaObject
old_picture actor_id none = none
old_picture actor_id (some m) =
    if m.owner_id == actor_id && in_profile m.scope && not (media_deleted m.status)
    then some m
    else none

unfoldable pub delete_picture : Uuid → Uuid → Time → Option MediaObject → Store → Store
unfolding append_media_deletes_at
delete_picture old_id actor_id now none s = s
delete_picture old_id actor_id now (some m) s =
    append_media_deletes_at actor_id (m.object_key ∷ [])
      (media_delete_not_before now m.upload_valid_until) now
      (settle old_id (settled MediaStatus.deleted now m) s)

-- The event that deletes the staging object.
unfoldable pub delete_staging : Uuid → Bytes → Time → MediaObject → Store → Store
delete_staging actor_id key now m s =
    if m.object_key == key
    then s
    else append_exact_media_deletes_at actor_id (m.object_key ∷ [])
        (media_delete_not_before now m.upload_valid_until) now s

-- A pending object whose verifier presents the lease and whose reservation has not run out.
unfoldable pub ready_error : Uuid → Time → MediaObject → Bool
ready_error token now m =
    not (media_pending m.status)
    || not (same_lease token m.verification_lease_token)
    || not (set_after m.verification_locked_until now)

module _ {J : Type 0} (codec : ProfileCodec J) where
  -- profileMediaID
  unfoldable pub profile_media_id : Bytes → Uuid
  profile_media_id reference =
      if has_prefix reference media_reference_prefix
      then codec.parse_uuid (trim_prefix reference media_reference_prefix)
      else 0

  abbrev pub or_profile : String → Option String → String
  or_profile profile none = profile
  or_profile profile (some encoded) = encoded

  -- setProfileMediaReference
  unfoldable pub set_profile_media_reference : String → Bytes → String
  set_profile_media_reference profile reference =
      let value = if profile == "" then empty else codec.decode profile in
      let rest = delete value "profileImageURL" in
      or_profile profile (
        codec.encode (
          if reference == []
          then delete rest "profile_image_url"
          else put rest "profile_image_url" (codec.text reference)))

  unfoldable pub with_picture : Bytes → Time → User → User
  with_picture reference now u = record u {
    avatar_url = reference;
    profile = set_profile_media_reference u.profile reference;
    updated_at = now;
  }

  unfoldable pub replace_picture : Uuid → Uuid → Time → Store → Store
  unfolding delete_picture
  replace_picture old_id actor_id now s =
      delete_picture old_id actor_id now (old_picture actor_id (get s.media old_id)) s

  -- The profile branch of MarkMediaReady.
  unfoldable pub show_picture : MediaObject → Uuid → Time → Store → Store
  unfolding replace_picture
  show_picture m actor_id now s =
      let user = user_of (get s.users actor_id) in
      let reference = media_reference_prefix ++ codec.uuid_text m.id in
      let shown = record s { users = put s.users actor_id (with_picture reference now user) } in
      let old_id = profile_media_id user.avatar_url in
      if not (old_id == 0) && not (old_id == m.id)
      then replace_picture old_id actor_id now shown
      else shown

  unfoldable pub publish_media :
      Uuid → Uuid → Bytes → Time → MediaObject → Store → Result MediaObject × Store
  unfolding show_picture delete_staging
  publish_media id actor_id key now m s =
      let ready = published_object key now m in
      let stored = delete_staging actor_id key now m (settle id ready s) in
      (ok ready, if in_profile m.scope then show_picture ready actor_id now stored else stored)

  unfoldable pub mark_found :
      Uuid → Uuid → Uuid → Bytes → Time → Result MediaObject → Store → Result MediaObject × Store
  unfolding publish_media
  mark_found id actor_id token key now (err e) s = (err e, s)
  mark_found id actor_id token key now (ok m) s =
      if media_ready m.status
      then (ok m, s)
      else if ready_error token now m
      then (err conflict, s)
      else if not (set_after m.expires_at now)
      then (err media_expired, s)
      else publish_media id actor_id key now m s

  -- MarkMediaReady
  unfoldable pub mark_media_ready :
      Uuid → Uuid → Uuid → Bytes → Time → Store → Result MediaObject × Store
  unfolding mark_found
  mark_media_ready id actor_id token key now s =
      if not (valid_key key)
      then (err invalid, s)
      else mark_found id actor_id token key now (owned_media id actor_id s) s

unfoldable pub release_lease : Time → MediaObject → MediaObject
release_lease now m = record m {
  verification_lease_token = none;
  verification_locked_until = none;
  updated_at = now;
}

unfoldable pub release_found :
    Uuid → Uuid → Time → Result MediaObject → Store → Result (Unit {0}) × Store
release_found id token now (err e) s = (err e, s)
release_found id token now (ok m) s =
    if not (media_pending m.status) || not (same_lease token m.verification_lease_token)
    then (err conflict, s)
    else (ok tt, record s { media = put s.media id (release_lease now m) })

-- ReleaseMediaVerification
unfoldable pub release_media_verification :
    Uuid → Uuid → Uuid → Time → Store → Result (Unit {0}) × Store
unfolding release_found
release_media_verification id actor_id token now s =
    release_found id token now (owned_media id actor_id s) s
