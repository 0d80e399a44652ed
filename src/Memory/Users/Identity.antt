-- ===== src/Memory/Users/Identity.antt =====
-- internal/store/memory/memory.go: external identities and age assurances (UserByExternalIdentity,
-- LinkExternalIdentity, AgeAssurance, UpsertAgeAssurance).
use clixor_backend.Prelude.{
  Option, none, some, ◌∷◌, ◌++◌, not, if◌then◌else◌, nat_eq, string_eq, bytes_eq,
}
use clixor_backend.Map.{get, put}
use clixor_backend.Domain.{
  Uuid, Bytes, User, AgeAssurance, Error, Result, ok, err, not_found, conflict, live,
}
use clixor_backend.Memory.{Store}
use clixor_backend.Memory.Outbox.{is_set}
use clixor_backend.Memory.Users.{or_not_found, owner_user, owned_by_other}

-- provider + ":" + subject
unfoldable pub identity_key_of : Bytes → Bytes → Bytes
identity_key_of provider subject = provider ++ (b':' ∷ subject)

-- UserByExternalIdentity
unfoldable pub user_by_external_identity : Bytes → Bytes → Store → Result User
unfolding owner_user identity_key_of
user_by_external_identity provider subject s =
    owner_user (get s.external_users (identity_key_of provider subject)) s

-- LinkExternalIdentity
unfoldable pub link_external_identity : Bytes → Bytes → Uuid → Store → Option Error × Store
unfolding identity_key_of owned_by_other
link_external_identity provider subject user_id s =
    let key = identity_key_of provider subject in
    if not (is_set (live (get s.users user_id)))
    then (some not_found, s)
    else if owned_by_other user_id (get s.external_users key)
    then (some conflict, s)
    else (none, record s { external_users = put s.external_users key user_id })

-- AgeAssurance
unfoldable pub age_assurance : Uuid → Store → Result AgeAssurance
unfolding or_not_found
age_assurance user_id s = or_not_found (get s.age_assurances user_id)

-- UpsertAgeAssurance
unfoldable pub upsert_age_assurance : AgeAssurance → Store → Result AgeAssurance × Store
upsert_age_assurance a s =
    if is_set (live (get s.users a.user_id))
    then (ok a, record s { age_assurances = put s.age_assurances a.user_id a })
    else (err not_found, s)
