-- ===== src/Memory/Media.antt =====
-- internal/store/memory/memory.go: media reservations (CreateMedia, CreateProfileMedia,
-- createMediaLocked, Media, the upload capabilities, authorizeMediaMutationLocked) and the limits of
-- internal/store/store.go, whose int and int64 fields are natural numbers below 2^63, a value
-- below 1 being 0.
pub mod Deletes
pub mod Verify
pub mod Remove
pub mod Quota
pub mod Reserve
pub mod Lease
pub mod Owned
pub mod Batches
pub mod Named
pub mod Grace
pub mod Cleared
use clixor_backend.Prelude.{
  ℕ, ◌+◌, Option, none, some, List, [], ◌∷◌, Bool, true, false, not, ◌&&◌, ◌||◌, if◌then◌else◌,
  ◌==◌, nat_eq, bytes_eq, ltb, length, add64, exceeds, inc64,
}
use clixor_backend.Text.{trim_space}
use clixor_backend.Map.{Map, get, put, values}
use clixor_backend.Domain.{
  Uuid, Time, Bytes, Error, Result, ok, err, not_found, conflict, forbidden, invalid,
  quota_exceeded, live,
}
use clixor_backend.Domain.Media.{
  MediaObject, Scope, conversation, profile, MediaStatus, in_conversation, in_profile,
  media_pending, media_ready, media_deleted,
}
use clixor_backend.Memory.{Store}
use clixor_backend.Memory.Outbox.{is_set}
use clixor_backend.Memory.Invites.{member_of}

-- store.MediaReservationLimits
pub record MediaReservationLimits : Type 0 where
  pub pending_ttl : Time
  pub max_pending_count_per_user : ℕ
  pub max_pending_bytes_per_user : ℕ
  pub max_pending_count_conversation : ℕ
  pub max_pending_bytes_conversation : ℕ
  pub max_stored_count_per_user : ℕ
  pub max_stored_bytes_per_user : ℕ
  pub max_stored_count_conversation : ℕ
  pub max_stored_bytes_conversation : ℕ

-- DefaultMediaReservationLimits
abbrev pub default_media_reservation_limits : MediaReservationLimits
default_media_reservation_limits = record {
  pending_ttl = 300_000_000_000;
  max_pending_count_per_user = 8;
  max_pending_bytes_per_user = 2_147_483_648;
  max_pending_count_conversation = 32;
  max_pending_bytes_conversation = 8_589_934_592;
  max_stored_count_per_user = 2_000;
  max_stored_bytes_per_user = 2_147_483_648;
  max_stored_count_conversation = 10_000;
  max_stored_bytes_conversation = 10_737_418_240;
}

-- MediaReservationLimits.Validate returns nil.
unfoldable pub valid_limits : MediaReservationLimits → Bool
valid_limits l =
    not (ltb l.pending_ttl 60_000_000_000)
    && not (ltb 900_000_000_000 l.pending_ttl)
    && not (l.max_pending_count_per_user == 0)
    && not (l.max_pending_bytes_per_user == 0)
    && not (l.max_pending_count_conversation == 0)
    && not (l.max_pending_bytes_conversation == 0)
    && not (ltb l.max_stored_count_per_user l.max_pending_count_per_user)
    && not (ltb l.max_stored_bytes_per_user l.max_pending_bytes_per_user)
    && not (ltb l.max_stored_count_conversation l.max_pending_count_conversation)
    && not (ltb l.max_stored_bytes_conversation l.max_pending_bytes_conversation)

-- One pair of running totals of createMediaLocked: how many objects, and how many bytes.
pub record Usage : Type 0 where
  pub count : ℕ
  pub bytes : ℕ

abbrev pub count_object : MediaObject → Usage → Usage
count_object m u = record { count = inc64 u.count; bytes = add64 u.bytes m.byte_size }

-- The loop over the media, for one pair of totals and the objects that it counts.
unfoldable pub usage : (MediaObject → Bool) → List MediaObject → Usage
usage counted [] = record { count = 0; bytes = 0 }
usage counted (m ∷ ms) =
    let rest = usage counted ms in if counted m then count_object m rest else rest

-- What each of the four pairs counts, for the object to be created.
unfoldable pub user_stored : MediaObject → MediaObject → Bool
user_stored new m = not (media_deleted m.status) && m.owner_id == new.owner_id

unfoldable pub user_pending : MediaObject → MediaObject → Bool
user_pending new m = user_stored new m && media_pending m.status

unfoldable pub conversation_stored : MediaObject → MediaObject → Bool
conversation_stored new m =
    not (media_deleted m.status)
    && in_conversation new.scope
    && in_conversation m.scope
    && m.conversation_id == new.conversation_id

unfoldable pub conversation_pending : MediaObject → MediaObject → Bool
conversation_pending new m = conversation_stored new m && media_pending m.status

-- count+1 > max_count || bytes+new.ByteSize > max_bytes
unfoldable pub over : ℕ → ℕ → MediaObject → Usage → Bool
over max_count max_bytes new u =
    exceeds (inc64 u.count) max_count || exceeds (add64 u.bytes new.byte_size) max_bytes

unfoldable pub media_invalid : MediaObject → Bool
media_invalid m =
    m.id == 0
    || m.owner_id == 0
    || m.byte_size == 0
    || trim_space m.object_key == []
    || trim_space m.content_type == []

-- The object alone is over a limit.
unfoldable pub too_large : MediaReservationLimits → MediaObject → Bool
too_large l m =
    ltb l.max_pending_bytes_per_user m.byte_size
    || ltb l.max_stored_bytes_per_user m.byte_size
    || (in_conversation m.scope
        && (ltb l.max_pending_bytes_conversation m.byte_size
            || ltb l.max_stored_bytes_conversation m.byte_size))

-- The object is over a limit together with what is there.
unfoldable pub over_quota : MediaReservationLimits → MediaObject → List MediaObject → Bool
unfolding over
over_quota l m ms =
    over l.max_pending_count_per_user l.max_pending_bytes_per_user m (usage (user_pending m) ms)
    || over l.max_stored_count_per_user l.max_stored_bytes_per_user m (usage (user_stored m) ms)
    || (in_conversation m.scope
        && (over l.max_pending_count_conversation l.max_pending_bytes_conversation m
              (usage (conversation_pending m) ms)
            || over l.max_stored_count_conversation l.max_stored_bytes_conversation m
                (usage (conversation_stored m) ms)))

-- The reservation that is stored.
unfoldable pub reserved : MediaReservationLimits → Time → MediaObject → MediaObject
reserved l now m = record m {
  created_at = now;
  updated_at = now;
  status = MediaStatus.pending;
  expires_at = some (now + l.pending_ttl);
  upload_valid_until = now + l.pending_ttl;
}

unfoldable pub create_media_locked :
    MediaReservationLimits → Time → MediaObject → Store → Result MediaObject × Store
create_media_locked l now m s =
    if media_invalid m
    then (err invalid, s)
    else if is_set (get s.media m.id)
    then (err conflict, s)
    else if too_large l m || over_quota l m (values s.media)
    then (err quota_exceeded, s)
    else (ok (reserved l now m), record s { media = put s.media m.id (reserved l now m) })

unfoldable pub for_conversation : MediaObject → MediaObject
for_conversation m = record m { scope = conversation }

unfoldable pub create_media :
    MediaReservationLimits → Time → MediaObject → Store → Result MediaObject × Store
create_media l now m s =
    if not (valid_limits l)
    then (err invalid, s)
    else if is_set (member_of m.conversation_id m.owner_id s)
    then create_media_locked l now (for_conversation m) s
    else (err forbidden, s)

unfoldable pub for_profile : MediaObject → MediaObject
for_profile m = record m { scope = profile; conversation_id = 0 }

unfoldable pub create_profile_media :
    MediaReservationLimits → Time → MediaObject → Store → Result MediaObject × Store
create_profile_media l now m s =
    if not (valid_limits l)
    then (err invalid, s)
    else if is_set (live (get s.users m.owner_id))
    then create_media_locked l now (for_profile m) s
    else (err not_found, s)

-- media, ok := s.media[id]; !ok || media.Status == "deleted"
unfoldable pub kept_media : Option MediaObject → Option MediaObject
kept_media none = none
kept_media (some m) = if media_deleted m.status then none else some m

-- authorizeMediaMutationLocked
unfoldable pub authorize_media_mutation : MediaObject → Uuid → Store → Option Error
authorize_media_mutation m actor_id s =
    if not (is_set (live (get s.users actor_id)))
    then some not_found
    else if in_conversation m.scope && not (is_set (member_of m.conversation_id actor_id s))
    then some forbidden
    else none

-- The owner's check and the authorization, in the order of the mutating methods.
unfoldable pub owner_error : MediaObject → Uuid → Store → Option Error
unfolding authorize_media_mutation
owner_error m actor_id s =
    if not (m.owner_id == actor_id) then some forbidden else authorize_media_mutation m actor_id s

-- The object that a mutating method works on, or the error that it returns first.
unfoldable pub checked : MediaObject → Option Error → Result MediaObject
checked m none = ok m
checked m (some e) = err e

unfoldable pub found_media : Uuid → Store → Option MediaObject → Result MediaObject
unfolding checked
found_media actor_id s none = err not_found
found_media actor_id s (some m) = checked m (owner_error m actor_id s)

unfoldable pub owned_media : Uuid → Uuid → Store → Result MediaObject
unfolding found_media
owned_media id actor_id s = found_media actor_id s (kept_media (get s.media id))

unfoldable pub read_media : Uuid → Store → Option MediaObject → Result MediaObject
read_media actor_id s none = err not_found
read_media actor_id s (some m) =
    if in_profile m.scope
    then (if not (media_ready m.status) && not (m.owner_id == actor_id)
        then err forbidden
        else ok m)
    else if is_set (member_of m.conversation_id actor_id s)
    then ok m
    else err forbidden

-- Media
unfoldable pub media_of : Uuid → Uuid → Store → Result MediaObject
unfolding read_media
media_of id actor_id s = read_media actor_id s (kept_media (get s.media id))

-- existing != "" && existing != token
unfoldable pub other_capability : Option Bytes → Bytes → Bool
other_capability none token = false
other_capability (some existing) token = not (existing == []) && not (existing == token)

unfoldable pub persist_for : Uuid → Bytes → Result MediaObject → Store → Result (Unit {0}) × Store
unfolding other_capability
persist_for id token (err e) s = (err e, s)
persist_for id token (ok m) s =
    if not (media_pending m.status) || other_capability (get s.media_upload_capabilities id) token
    then (err conflict, s)
    else (ok tt, record s { media_upload_capabilities = put s.media_upload_capabilities id token })

unfoldable pub persist_media_upload_capability :
    Uuid → Uuid → Bytes → Store → Result (Unit {0}) × Store
unfolding persist_for
persist_media_upload_capability id actor_id token s =
    if id == 0 || actor_id == 0 || trim_space token == [] || ltb 1024 (length (trim_space token))
    then (err invalid, s)
    else persist_for id (trim_space token) (owned_media id actor_id s) s

abbrev pub bytes_or_empty : Option Bytes → Bytes
bytes_or_empty none = []
bytes_or_empty (some b) = b

-- MediaUploadCapability
unfoldable pub media_upload_capability : Uuid → Uuid → Store → Result Bytes
media_upload_capability id actor_id s = elim (owned_media id actor_id s) [
  | err e ↦ err e
  | ok m ↦ ok (bytes_or_empty (get s.media_upload_capabilities id))
]
