-- ===== src/Memory/Users/Profile.antt =====
-- internal/store/memory/memory.go: UpdateUserProfile and profileUsername. Package encoding/json and
-- the values that it decodes are the parameter `lib`.
use clixor_backend.Prelude.{
  String, Option, none, some, List, [], ◌∷◌, Bool, not, ◌&&◌, ◌||◌, if◌then◌else◌, ◌==◌, nat_eq,
  string_eq, bytes_eq, ltb, length,
}
use clixor_backend.Map.{Map, empty, get, put, delete}
use clixor_backend.Domain.{
  Uuid, Time, Bytes, User, Result, ok, err, not_found, conflict, invalid, live,
}
use clixor_backend.Memory.{Store}
use clixor_backend.Memory.Users.{normalize_username, owned_by_other}

-- `decode` and `encode` are json.Unmarshal into, and json.Marshal of, a map[string]any: an error is
-- none, the nil map some none. `as_string` is the type assertion, `text_of` the text that bytes
-- spell, and `username_field` the user name of a decoded profile, empty after an error.
pub record ProfileJson (Value : Type 0) : Type 0 where
  pub decode : String → Option (Option (Map String Value))
  pub encode : Map String Value → Result String
  pub is_null : Value → Bool
  pub as_string : Value → Option Bytes
  pub of_string : Bytes → Value
  pub text_of : Bytes → String
  pub username_field : String → Bytes

-- A user name of 3 to 30 bytes that no other user has.
unfoldable pub name_allowed : Uuid → Bytes → Store → Result Bytes
unfolding owned_by_other
name_allowed id name s =
    if ltb (length name) 3 || ltb 30 (length name)
    then err invalid
    else if owned_by_other id (get s.username_to_user name)
    then err conflict
    else ok name

-- The indexes' update: the old name is dropped unless it stays, and the new one is written.
unfoldable pub renamed : Bytes → Bytes → Uuid → Map Bytes Uuid → Map Bytes Uuid
renamed old new id index =
    let freed = if not (old == []) && not (old == new) then delete index old else index in
    if new == [] then freed else put freed new id

module _ {Value : Type 0} (lib : ProfileJson Value) where
  -- profileUsername
  unfoldable pub profile_username : String → Bytes
  unfolding normalize_username
  profile_username profile = normalize_username (lib.username_field profile)

  unfoldable pub name_of_text : Uuid → Store → Option Bytes → Result Bytes
  unfolding normalize_username name_allowed
  name_of_text id s none = err invalid
  name_of_text id s (some text) =
      let name = normalize_username text in if name == [] then ok [] else name_allowed id name s

  -- The name that the patch asks for, empty when it clears the name.
  unfoldable pub requested_name : Uuid → Store → Value → Result Bytes
  unfolding name_of_text
  requested_name id s value =
      if lib.is_null value then ok [] else name_of_text id s (lib.as_string value)

  -- patch["username"] = "@" + normalized
  unfoldable pub patched : Bytes → Map String Value → Map String Value
  patched name patch =
      if name == [] then patch else put patch "username" (lib.of_string (b'@' ∷ name))

  unfoldable pub patch_renamed :
      Uuid → User → Map String Value → Store → Result Bytes → Result (Map String Value) × Store
  unfolding profile_username renamed patched
  patch_renamed id u patch s (err e) = (err e, s)
  patch_renamed id u patch s (ok name) = (
    ok (patched name patch),
    record s { username_to_user = renamed (profile_username u.profile) name id s.username_to_user },
  )

  -- The user name of the patch, if it has one.
  unfoldable pub rename_step :
      Uuid → User → Map String Value → Store → Option Value → Result (Map String Value) × Store
  unfolding requested_name patch_renamed
  rename_step id u patch s none = (ok patch, s)
  rename_step id u patch s (some value) = patch_renamed id u patch s (requested_name id s value)

  -- for key, value := range patch { existing[key] = value }
  unfoldable pub merged : Map String Value → List (String × Value) → Map String Value
  merged existing [] = existing
  merged existing ((key, value) ∷ rest) = merged (put existing key value) rest

  unfoldable pub named_text : String → Option Bytes → String
  named_text old none = old
  named_text old (some []) = old
  named_text old (some (c ∷ cs)) = lib.text_of (c ∷ cs)

  unfoldable pub display_name_of : String → Option Value → String
  unfolding named_text
  display_name_of old none = old
  display_name_of old (some value) = named_text old (lib.as_string value)

  unfoldable pub store_profile :
      Uuid → User → Map String Value → Time → Store → Result String → Result User × Store
  unfolding display_name_of
  store_profile id u patch now s (err e) = (err e, s)
  store_profile id u patch now s (ok text) =
      let new = record u {
        profile = text;
        display_name = display_name_of u.display_name (get patch "display_name");
        updated_at = now;
      } in
      (ok new, record s { users = put s.users id new })

  unfoldable pub merge_profile :
      Uuid
      → User
      → Map String Value
      → Time
      → Result (Map String Value) × Store
      → Result User × Store
  unfolding store_profile merged
  merge_profile id u existing now (err e, s) = (err e, s)
  merge_profile id u existing now (ok patch, s) =
      store_profile id u patch now s (lib.encode (merged existing patch.entries))

  -- The stored profile, an empty map where it is nil; none where it cannot be decoded.
  unfoldable pub decoded_profile : Option (Option (Map String Value)) → Option (Map String Value)
  decoded_profile none = none
  decoded_profile (some none) = some empty
  decoded_profile (some (some m)) = some m

  unfoldable pub existing_profile : String → Option (Map String Value)
  unfolding decoded_profile
  existing_profile profile =
      if profile == "" then some empty else decoded_profile (lib.decode profile)

  unfoldable pub patch_over :
      Uuid
      → User
      → Map String Value
      → Time
      → Store
      → Option (Map String Value)
      → Result User × Store
  unfolding merge_profile rename_step
  patch_over id u patch now s none = (err invalid, s)
  patch_over id u patch now s (some existing) =
      merge_profile id u existing now (rename_step id u patch s (get patch "username"))

  unfoldable pub patch_user :
      Uuid → Time → Store → User → Option (Option (Map String Value)) → Result User × Store
  unfolding patch_over existing_profile
  patch_user id now s u none = (err invalid, s)
  patch_user id now s u (some none) = (err invalid, s)
  patch_user id now s u (some (some patch)) =
      patch_over id u patch now s (existing_profile u.profile)

  unfoldable pub patch_found : Uuid → String → Time → Store → Option User → Result User × Store
  unfolding patch_user
  patch_found id profile now s none = (err not_found, s)
  patch_found id profile now s (some u) = patch_user id now s u (lib.decode profile)

  -- UpdateUserProfile
  unfoldable pub update_user_profile : Uuid → String → Time → Store → Result User × Store
  unfolding patch_found
  update_user_profile id profile now s = patch_found id profile now s (live (get s.users id))
