-- ===== src/Memory/Users.antt =====
-- internal/store/memory/memory.go: users, their addresses, phones and user names
-- (CreateUser to SearchUsersByUsername, and UpdateUserPhone). `id` is the UUID that CreateUser draws.
pub mod Identity
pub mod Profile
pub mod Registered
pub mod Names
mod Examples
use clixor_backend.Prelude.{
  ℕ, String, Option, none, some, List, [], ◌∷◌, ◌++◌, Bool, true, false, not, ◌&&◌, ◌||◌,
  if◌then◌else◌, ◌==◌, nat_eq, string_eq, bytes_eq, Eq, ltb, length, map, exists, select, take,
  sort_by,
}
use clixor_backend.Text.{trim_space, to_lower, trim_prefix, has_prefix, text_ltb}
use clixor_backend.Map.{Map, get, put, delete}
use clixor_backend.Domain.{
  Uuid, Time, Bytes, User, AgeAssurance, Error, Result, ok, err, not_found, conflict, invalid, live,
}
use clixor_backend.Compliance.Model.{Acceptance}
use clixor_backend.Compliance.Cases.{Inbox, accept}
use clixor_backend.Memory.{Store}
use clixor_backend.Memory.Outbox.{is_set}

abbrev pub zero_user : User
zero_user = record {
  id = 0;
  email = [];
  phone = "";
  display_name = "";
  avatar_url = [];
  profile = "";
  password_hash = "";
  created_at = 0;
  updated_at = 0;
}

-- user := s.users[id]
unfoldable pub user_of : Option User → User
user_of none = zero_user
user_of (some u) = u

pub record CreateUserParams : Type 0 where
  pub legal_acceptance : Option Acceptance
  pub email : Bytes
  pub phone : String
  pub display_name : String
  pub password_hash : String

-- strings.ToLower(strings.TrimSpace(email))
unfoldable pub normalize_email : Bytes → Bytes
normalize_email email = to_lower (trim_space email)

-- A key that is not blank and has an owner.
unfoldable pub taken {ℓ} : {K : Type ℓ} ⦃e : Eq K⦄ → K → K → Map K Uuid → Bool
taken blank key index = not (key == blank) && is_set (get index key)

-- index[key] = id, unless the key is blank.
unfoldable pub indexed {ℓ} : {K : Type ℓ} ⦃e : Eq K⦄ → K → K → Uuid → Map K Uuid → Map K Uuid
indexed blank key id index = if key == blank then index else put index key id

unfoldable pub new_user : CreateUserParams → Uuid → Time → User
unfolding normalize_email
new_user p id now = record {
  id = id;
  email = normalize_email p.email;
  phone = p.phone;
  display_name = p.display_name;
  avatar_url = [];
  profile = "";
  password_hash = p.password_hash;
  created_at = now;
  updated_at = now;
}

abbrev pub error_of {ℓ} : {A : Type ℓ} → Result A × Inbox → Option Error × Inbox
error_of (ok a, m) = (none, m)
error_of (err e, m) = (some e, m)

-- The receipt of the legal documents.
unfoldable pub accept_legal : Option Acceptance → Uuid → Time → Inbox → Option Error × Inbox
accept_legal none id now m = (none, m)
accept_legal (some a) id now m =
    if a.agreed
    then error_of (accept (record a { user_id = id; accepted_at = now }) m)
    else (some invalid, m)

-- The writes of the user and of the two indexes.
unfoldable pub store_user : User → Store → Store
unfolding indexed
store_user u s = record s {
  users = put s.users u.id u;
  email_to_user = indexed [] u.email u.id s.email_to_user;
  phone_to_user = indexed "" u.phone u.id s.phone_to_user;
}

abbrev pub accepted_user : User → Store → Option Error × Inbox → Result User × (Inbox × Store)
unfolding store_user
accepted_user u s (some e, m) = (err e, (m, s))
accepted_user u s (none, m) = (ok u, (m, store_user u s))

-- CreateUser
unfoldable pub create_user :
    CreateUserParams → Uuid → Time → Inbox → Store → Result User × (Inbox × Store)
unfolding normalize_email taken
create_user p id now inbox s =
    if taken [] (normalize_email p.email) s.email_to_user || taken "" p.phone s.phone_to_user
    then (err conflict, (inbox, s))
    else accepted_user (new_user p id now) s (accept_legal p.legal_acceptance id now inbox)

-- UserByID
unfoldable pub or_not_found {ℓ} : {A : Type ℓ} → Option A → Result A
or_not_found none = err not_found
or_not_found (some a) = ok a

unfoldable pub user_by_id : Uuid → Store → Result User
unfolding or_not_found
user_by_id id s = or_not_found (live (get s.users id))

-- The user that an index names.
unfoldable pub owner_user : Option Uuid → Store → Result User
unfolding user_by_id
owner_user none s = err not_found
owner_user (some id) s = user_by_id id s

-- UserByEmail
unfoldable pub user_by_email : Bytes → Store → Result User
unfolding owner_user normalize_email
user_by_email email s = owner_user (get s.email_to_user (normalize_email email)) s

-- UserByPhone
unfoldable pub user_by_phone : String → Store → Result User
unfolding owner_user
user_by_phone phone s = owner_user (get s.phone_to_user phone) s

-- The loop of UsersByPhones and UsersByUsernames over what the index says of each entry.
unfoldable pub found_users : Store → List Uuid → List (Option Uuid) → List User
found_users s seen [] = []
found_users s seen (none ∷ ids) = found_users s seen ids
found_users s seen (some id ∷ ids) =
    let duplicate = exists (λ i. i == id) seen in
    let rest = found_users s (if duplicate then seen else id ∷ seen) ids in
    if duplicate then rest else user_of (get s.users id) ∷ rest

-- UsersByPhones
unfoldable pub users_by_phones : List String → Store → List User
unfolding found_users
users_by_phones phones s = found_users s [] (map (get s.phone_to_user) phones)

-- normalizeUsernameMemory
unfoldable pub normalize_username : Bytes → Bytes
normalize_username value = to_lower (trim_prefix (trim_space value) (b'@' ∷ []))

unfoldable pub username_owner : Store → Bytes → Option Uuid
unfolding normalize_username
username_owner s username =
    let key = normalize_username username in if key == [] then none else get s.username_to_user key

-- UsersByUsernames
unfoldable pub users_by_usernames : List Bytes → Store → List User
unfolding found_users username_owner
users_by_usernames usernames s = found_users s [] (map (username_owner s) usernames)

-- The limit of SearchUsersByUsername; a limit below 1 is 0.
unfoldable pub search_limit : ℕ → ℕ
search_limit limit = if limit == 0 || ltb 50 limit then 20 else limit

-- SearchUsersByUsername
unfoldable pub search_users_by_username : Bytes → ℕ → Store → List User
unfolding normalize_username search_limit
search_users_by_username query limit s =
    let q = normalize_username query in
    if q == []
    then []
    else map (λ (e : Bytes × Uuid). user_of (get s.users e.1))
        (take (search_limit limit) (
          sort_by (λ (a b : Bytes × Uuid). text_ltb a.0 b.0)
            (select (λ (e : Bytes × Uuid). has_prefix e.0 q) s.username_to_user.entries)))

-- The key has another owner.
unfoldable pub owned_by_other : Uuid → Option Uuid → Bool
owned_by_other id none = false
owned_by_other id (some owner) = not (owner == id)

-- delete(s.phoneToUser, user.Phone), unless it is empty.
unfoldable pub released_phone : String → Map String Uuid → Map String Uuid
released_phone phone index = if phone == "" then index else delete index phone

unfoldable pub with_phone : String → Time → User → User
with_phone phone now u = record u { phone = phone; updated_at = now }

unfoldable pub change_phone : Uuid → String → Time → Store → Option User → Result User × Store
unfolding owned_by_other released_phone with_phone
change_phone id phone now s none = (err not_found, s)
change_phone id phone now s (some u) =
    if owned_by_other id (get s.phone_to_user phone) then (err conflict, s) else (
      ok (with_phone phone now u),
      record s {
        users = put s.users id (with_phone phone now u);
        phone_to_user = put (released_phone u.phone s.phone_to_user) phone id;
      },
    )

-- UpdateUserPhone
unfoldable pub update_user_phone : Uuid → String → Time → Store → Result User × Store
unfolding change_phone
update_user_phone id phone now s = change_phone id phone now s (live (get s.users id))
