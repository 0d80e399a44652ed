-- ===== src/Memory/Examples/Media.antt =====
-- Media reservations, leases and deletions.
use clixor_backend.Prelude.{
  ℕ, refl, none, some, List, [], ◌∷◌, ◌++◌, arith, nat_eq, bytes_eq, string_eq,
}
use clixor_backend.Map.{empty, get, find, values, value_list}
use clixor_backend.Domain.{User, is_deleted, live}
use clixor_backend.Domain.Chat.{ConversationMember, member}
use clixor_backend.Domain.Media.{MediaObject, MediaStatus, conversation, profile}
use clixor_backend.Memory.{Store, new_store}
use clixor_backend.Memory.Invites.{member_in, member_of}
use clixor_backend.Memory.Media.{
  default_media_reservation_limits, create_media, create_profile_media, owned_media, found_media,
  kept_media, owner_error, authorize_media_mutation, checked,
}
use clixor_backend.Memory.Media.Deletes.{append_exact_media_deletes_at}
use clixor_backend.Memory.Media.Batches.{IsAppended, append_exact_complete}
use clixor_backend.Memory.Media.Quota.{WithinQuota}
use clixor_backend.Memory.Media.Reserve.{create-WithinQuota, empty-WithinQuota}
use clixor_backend.MediaKey.{published_prefix}
use clixor_backend.Memory.Media.Verify.{
  ProfileCodec, media_reference_prefix, claim_media_verification, claim_found, claimed, verifying,
  mark_media_ready, settled,
}
use clixor_backend.Memory.Media.Lease.{IsRefused, verification_exclusive}
use clixor_backend.Memory.Media.Remove.{delete_media, delete_found}
use clixor_backend.Memory.Media.Cleared.{IsDeleted, delete_media-IsDeleted}

abbrev codec : ProfileCodec (List ℕ)
codec = record {
  parse_uuid = λ text. 7;
  uuid_text = λ id. id ∷ [];
  decode = λ profile. empty;
  encode = λ value. some "{}";
  text = λ bytes. bytes;
}

abbrev ann : User
ann = record {
  id = 4;
  email = b'a' ∷ [];
  phone = "";
  display_name = "Ann";
  avatar_url = [];
  profile = "";
  password_hash = "";
  created_at = 1;
  updated_at = 1;
}

abbrev seat : ConversationMember
seat = record { conversation_id = 9; user_id = 4; role = member; joined_at = 1; muted_until = none }

abbrev photo : MediaObject
photo = record {
  id = 7;
  owner_id = 4;
  conversation_id = 9;
  scope = conversation;
  object_key = 97 ∷ [];
  content_type = 98 ∷ [];
  byte_size = 10;
  ciphertext_sha256 = "";
  status = MediaStatus.pending;
  expires_at = some 900;
  upload_valid_until = 900;
  verification_lease_token = none;
  verification_locked_until = none;
  created_at = 1;
  updated_at = 1;
}

abbrev seated : Store
seated = record new_store {
  users = record { entries = (4, ann) ∷ [] };
  members = record { entries = (9, record { entries = (4, seat) ∷ [] }) ∷ [] };
}

abbrev album : Store
album = record seated { media = record { entries = (7, photo) ∷ [] } }

create-WithinQuota_example :
    WithinQuota default_media_reservation_limits
      (create_media default_media_reservation_limits 50 photo seated).1
    × WithinQuota default_media_reservation_limits
        (create_profile_media default_media_reservation_limits 50 photo seated).1
create-WithinQuota_example =
    create-WithinQuota default_media_reservation_limits 50 photo seated (omega arith)
      (empty-WithinQuota default_media_reservation_limits seated (unfold values value_list in refl))

append_exact_complete_example :
    IsAppended 80
      ((97 ∷ []) ∷ (98 ∷ []) ∷ [])
      album
      (append_exact_media_deletes_at 4 ((97 ∷ []) ∷ (98 ∷ []) ∷ []) 80 50 album)
append_exact_complete_example = append_exact_complete 4 ((97 ∷ []) ∷ (98 ∷ []) ∷ []) 80 50 album

-- Ann shows a published picture.
abbrev portrait : MediaObject
portrait = record photo {
  conversation_id = 0;
  scope = profile;
  object_key = published_prefix ++ 97 ∷ [];
  status = MediaStatus.ready;
}

abbrev gallery : Store
gallery = record seated {
  users = record {
    entries = (4, record ann { avatar_url = media_reference_prefix ++ 55 ∷ [] }) ∷ [];
  };
  media = record { entries = (7, portrait) ∷ [] };
}

delete_media-IsDeleted_example :
    IsDeleted codec 7 4 50 gallery
      (settled MediaStatus.deleted 50 portrait)
      (delete_media codec 7 4 50 gallery).1
delete_media-IsDeleted_example =
    delete_media-IsDeleted codec 7 4 50 gallery (settled MediaStatus.deleted 50 portrait) (
      unfold delete_media delete_found owned_media found_media kept_media owner_error
        authorize_media_mutation checked live is_deleted member_of member_in get find in
      refl)

verification_exclusive_example :
    IsRefused (claim_media_verification 7 4 2_000_000_000 31 50 album).1 (
      claim_media_verification 7 4 2_000_000_000 32 60
        (claim_media_verification 7 4 2_000_000_000 31 50 album).1)
    × IsRefused (claim_media_verification 7 4 2_000_000_000 31 50 album).1 (
        mark_media_ready codec 7 4 32
          (97 ∷ [])
          60
          (claim_media_verification 7 4 2_000_000_000 31 50 album).1)
verification_exclusive_example =
    verification_exclusive codec 7 4 2_000_000_000 31 50 album (claimed 31 2_000_000_000 50 photo)
      (unfold claim_media_verification claim_found claimed verifying owned_media found_media
          kept_media owner_error authorize_media_mutation checked live is_deleted member_of
          member_in get find in
        refl)
      (unfold claimed in refl) 60 (omega arith) 4 2_000_000_000 32 32 (97 ∷ []) (omega arith)
