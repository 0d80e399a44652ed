-- ===== src/Memory/Users/Names.antt =====
-- internal/store/memory/memory.go: the names of other users under UpdateUserProfile.
use clixor_backend.Prelude.{
  String, Option, none, some, [], true, false, not, ◌&&◌, ◌||◌, if◌then◌else◌, ◌==◌, nat_eq,
  string_eq, bytes_eq, ◌≡◌, refl, sym, subst, arith, Bool-cases, inl, inr, if_cases, if_both, ltb,
  length,
}
use clixor_backend.Map.{Map, get, delete}
use clixor_backend.Map.Laws.{get-put, get-delete}
use clixor_backend.Domain.{Uuid, Time, Bytes, User, Result, ok, err, invalid, conflict, live}
use clixor_backend.Memory.{Store}
use clixor_backend.Memory.Users.{owned_by_other, normalize_username}
use clixor_backend.Memory.Users.Profile.{
  ProfileJson, name_allowed, renamed, profile_username, name_of_text, requested_name, patch_renamed,
  rename_step, store_profile, merge_profile, patch_over, patch_user, patch_found, existing_profile,
  update_user_profile,
}
use clixor_backend.Memory.Users.Registered.{Registered, same-Indexed, live_found}

-- A write or a removal at a key of one's own leaves the keys of another user alone.
module _ (id other : Uuid) (apart : (other == id) ≡ false) (key : Bytes) where
  apart_key :
      (index : Map Bytes Uuid) (own : Bytes)
      → get index key ≡ some other
      → owned_by_other id (get index own) ≡ false
      → (own == key) ≡ false
  unfolding owned_by_other
  apart_key index own held free = elim (Bool-cases (own == key)) [
    | inr c ↦ c
    | inl c ↦
        let same : get index own ≡ some other = rw ((bytes_eq.beq_iff own key).0 c) held in
        let clash : not (other == id) ≡ false = rw same at free in absurd (grind arith)
  ]

  deleted_keeps :
      (index : Map Bytes Uuid) (own : Bytes)
      → get index key ≡ some other
      → (own == key) ≡ false
      → get (delete index own) key ≡ some other
  deleted_keeps index own held free = rw (get-delete index own key, free) held

  renamed_keeps :
      (index : Map Bytes Uuid) (old new : Bytes)
      → get index key ≡ some other
      → (old == key) ≡ false
      → ((new == []) ≡ false → owned_by_other id (get index new) ≡ false)
      → get (renamed old new id index) key ≡ some other
  unfolding renamed
  renamed_keeps index old new held own free =
      let freed =
        if_both (λ (m : Map Bytes Uuid). get m key ≡ some other)
          (not (old == []) && not (old == new)) (delete index old) index
          (deleted_keeps index old held own) held in
      if_cases (λ (m : Map Bytes Uuid). get m key ≡ some other) (new == []) _ _ (λ _. freed)
        (λ named.
          rw
            (
              get-put (if not (old == []) && not (old == new) then delete index old else index) new
                  key id,
              apart_key index new held (free named),
            )
            freed)

  -- The name that a patch is allowed to take has no other owner.
  allowed_free :
      (s : Store) (name found : Bytes)
      → name_allowed id name s ≡ ok found
      → owned_by_other id (get s.username_to_user found) ≡ false
  unfolding name_allowed
  allowed_free s name found h = elim (Bool-cases (ltb (length name) 3 || ltb 30 (length name))) [
    | inl a ↦ let clash : err invalid ≡ ok found = rw a at h in cc
    | inr a ↦ elim (Bool-cases (owned_by_other id (get s.username_to_user name))) [
      | inl b ↦ let clash : err conflict ≡ ok found = rw (a, b) at h in cc
      | inr b ↦
          let same : ok name ≡ ok found = rw (a, b) at h in
          let equal : name ≡ found = cc in
          subst (λ n. owned_by_other id (get s.username_to_user n) ≡ false) equal b
    ]
  ]

  text_free :
      (s : Store) (o : Option Bytes) (found : Bytes) {Value : Type 0} (lib : ProfileJson Value)
      → name_of_text lib id s o ≡ ok found
      → (found == []) ≡ false
      → owned_by_other id (get s.username_to_user found) ≡ false
  unfolding name_of_text
  text_free s none found lib h named = cc
  text_free s (some text) found lib h named = elim (Bool-cases (normalize_username text == [])) [
    | inl a ↦
        let same : ok [] ≡ ok found = rw a at h in
        let equal : [] ≡ found = cc in let clash : (true ≡ false) = rw (sym equal) at named in cc
    | inr a ↦ allowed_free s (normalize_username text) found (rw a at h)
  ]

  module _ {Value : Type 0} (lib : ProfileJson Value) (now : Time) where
    -- What an update keeps.
    Kept : Store → Type 0
    Kept t = Registered t × (get t.username_to_user key ≡ some other)

    stored-Kept :
        (u : User) (patch : Map String Value) (s : Store) (r : Result String)
        → get s.users id ≡ some u
        → Kept s
        → Kept (store_profile lib id u patch now s r).1
    unfolding Kept store_profile
    stored-Kept u patch s (err e) found k = k
    stored-Kept u patch s (ok text) found (h, held) = (
      record {
        emails = same-Indexed (λ w. w.email) [] s.users s.email_to_user id u _ found refl h.emails;
        phones = same-Indexed (λ w. w.phone) "" s.users s.phone_to_user id u _ found refl h.phones;
      },
      held,
    )

    merged-Kept :
        (u : User) (existing : Map String Value) (r : Result (Map String Value)) (s : Store)
        → get s.users id ≡ some u
        → Kept s
        → Kept (merge_profile lib id u existing now (r, s)).1
    unfolding Kept merge_profile
    merged-Kept u existing (err e) s found k = k
    merged-Kept u existing (ok patch) s found k = stored-Kept u patch s _ found k

    requested_free :
        (s : Store) (value : Value) (name : Bytes)
        → requested_name lib id s value ≡ ok name
        → (name == []) ≡ false
        → owned_by_other id (get s.username_to_user name) ≡ false
    unfolding requested_name
    requested_free s value name h named = elim (Bool-cases (lib.is_null value)) [
      | inl a ↦
          let same : ok [] ≡ ok name = rw a at h in
          let equal : [] ≡ name = cc in let clash : (true ≡ false) = rw (sym equal) at named in cc
      | inr a ↦ text_free s (lib.as_string value) name lib (rw a at h) named
    ]

    module _ (u : User) (existing patch : Map String Value) (s : Store)
        (found : get s.users id ≡ some u) (own : (profile_username lib u.profile == key) ≡ false)
        (k : Kept s) where
      named-Kept :
          (r : Result Bytes)
          → ((name : Bytes)
              → r ≡ ok name
              → (name == []) ≡ false
              → owned_by_other id (get s.username_to_user name) ≡ false)
          → Kept (merge_profile lib id u existing now (patch_renamed lib id u patch s r)).1
      unfolding Kept patch_renamed merge_profile
      named-Kept (err e) free = k
      named-Kept (ok name) free = stored-Kept u _ _ _ found (
        record { emails = k.0.emails; phones = k.0.phones },
        renamed_keeps s.username_to_user (profile_username lib u.profile) name k.1 own
            (free name refl),
      )

      step-Kept :
          (o : Option Value)
          → Kept (merge_profile lib id u existing now (rename_step lib id u patch s o)).1
      unfolding rename_step
      step-Kept none = merged-Kept u existing (ok patch) s found k
      step-Kept (some value) = named-Kept (requested_name lib id s value) (requested_free s value)

    over-Kept :
        (s : Store) (u : User) (patch : Map String Value) (o : Option (Map String Value))
        → get s.users id ≡ some u
        → (profile_username lib u.profile == key) ≡ false
        → Kept s
        → Kept (patch_over lib id u patch now s o).1
    unfolding patch_over
    over-Kept s u patch none found own k = k
    over-Kept s u patch (some existing) found own k =
        step-Kept u existing patch s found own k (get patch "username")

    patched-Kept :
        (s : Store) (u : User) (o : Option (Option (Map String Value)))
        → get s.users id ≡ some u
        → (profile_username lib u.profile == key) ≡ false
        → Kept s
        → Kept (patch_user lib id now s u o).1
    unfolding patch_user
    patched-Kept s u none found own k = k
    patched-Kept s u (some none) found own k = k
    patched-Kept s u (some (some patch)) found own k =
        over-Kept s u patch (existing_profile lib u.profile) found own k

    found-Kept :
        (s : Store) (profile : String) (o : Option User)
        → ((u : User) → o ≡ some u → get s.users id ≡ some u)
        → ((u : User) → get s.users id ≡ some u → (profile_username lib u.profile == key) ≡ false)
        → Kept s
        → Kept (patch_found lib id profile now s o).1
    unfolding patch_found
    found-Kept s profile none found own k = k
    found-Kept s profile (some u) found own k =
        patched-Kept s u (lib.decode profile) (found u refl) (own u (found u refl)) k

-- UpdateUserProfile, on every branch, keeps the indexes of addresses and of phones, and keeps each
-- user name of another user that is not the one which the updated user's stored profile spells. (A
-- stored profile can spell a name that it was never given, under a key in another case.)
pub update_profile_keeps :
    {Value : Type 0} (lib : ProfileJson Value) (id other : Uuid) (profile : String) (key : Bytes)
    (now : Time) (s : Store)
    → ((u : User) → get s.users id ≡ some u → (profile_username lib u.profile == key) ≡ false)
    → Registered s
    → (other == id) ≡ false
    → get s.username_to_user key ≡ some other
    → Registered (update_user_profile lib id profile now s).1
      × (get (update_user_profile lib id profile now s).1.username_to_user key ≡ some other)
unfolding update_user_profile Kept
update_profile_keeps lib id other profile key now s own h apart held =
    found-Kept id other apart key lib now s profile (live (get s.users id))
      (live_found (get s.users id)) own (h, held)
