-- ===== src/Memory/Users/Examples.antt =====
-- Accounts and their indexes.
use clixor_backend.Prelude.{◌≡◌, none, some, [], ◌∷◌, nat_eq, string_eq, bytes_eq, false, refl}
use clixor_backend.Map.{empty, get, put, find, without}
use clixor_backend.Domain.{ok, Bytes}
use clixor_backend.Text.{to_lower, trim_prefix, has_prefix, trim_space, trim_left, is_space, lower}
use clixor_backend.Compliance.Cases.{Inbox}
use clixor_backend.Memory.{Store, new_store}
use clixor_backend.Memory.Users.{
  CreateUserParams, create_user, update_user_phone, normalize_username,
}
use clixor_backend.Memory.Users.{owned_by_other}
use clixor_backend.Memory.Users.Profile.{ProfileJson, update_user_profile, profile_username}
use clixor_backend.Memory.Users.Names.{update_profile_keeps}
use clixor_backend.Memory.Users.Registered.{
  Registered, Indexed, users-Registered, create-Registered,
}

abbrev inbox : Inbox
inbox = record { acceptances = empty; cases = empty; reviews = [] }

abbrev params : CreateUserParams
params = record {
  legal_acceptance = none;
  email = b'A' ∷ [];
  phone = "1";
  display_name = "Ada";
  password_hash = "hash";
}

abbrev one_user : Store
one_user = (create_user params 1 5 inbox new_store).1.1

new_store-Registered : Registered new_store
unfolding Indexed get find
new_store-Registered = record {
  emails = λ id u found used. let clash : none ≡ some u = found in cc;
  phones = λ id u found used. let clash : none ≡ some u = found in cc;
}

one_user-Registered : Registered one_user
one_user-Registered = create-Registered params 1 5 inbox new_store new_store-Registered

users-Registered_example :
    Registered (create_user (record params { phone = "2" }) 2 6 inbox one_user).1.1
    × Registered (update_user_phone 1 "3" 6 one_user).1
users-Registered_example =
    users-Registered one_user one_user-Registered (record params { phone = "2" }) 2 6 inbox 1 "3"

-- Profiles whose fields are all texts; every stored profile names @ada.
abbrev texts : ProfileJson Bytes
texts = record {
  decode = λ profile. some (some (put empty "username" (b'@' ∷ b'E' ∷ b'v' ∷ b'e' ∷ [])));
  encode = λ m. ok "{}";
  is_null = λ value. false;
  as_string = λ value. some value;
  of_string = λ text. text;
  text_of = λ text. "";
  username_field = λ profile. b'@' ∷ b'A' ∷ b'd' ∷ b'a' ∷ [];
}

abbrev two_names : Store
two_names = record one_user {
  username_to_user = put (put empty (b'a' ∷ b'd' ∷ b'a' ∷ []) 1) (b'b' ∷ b'o' ∷ b'b' ∷ []) 2;
}

two_names-Registered : Registered two_names
two_names-Registered = record {
  emails = one_user-Registered.emails;
  phones = one_user-Registered.phones;
}

update_profile_keeps_example :
    Registered (update_user_profile texts 1 "{}" 6 two_names).1
    × (get
          (update_user_profile texts 1 "{}" 6 two_names).1.username_to_user
          (b'b' ∷ b'o' ∷ b'b' ∷ [])
        ≡ some 2)
unfolding owned_by_other profile_username get put find without normalize_username to_lower
    trim_prefix has_prefix trim_space trim_left is_space lower
update_profile_keeps_example =
    update_profile_keeps texts 1 2 "{}" (b'b' ∷ b'o' ∷ b'b' ∷ []) 6 two_names (λ u found. refl)
      two_names-Registered refl refl
