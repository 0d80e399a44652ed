-- ===== src/Memory/Users/Registered.antt =====
-- internal/store/memory/memory.go: the indexes of users by address and by phone.
use clixor_backend.Prelude.{
  String, Option, none, some, [], true, false, not, if◌then◌else◌, ◌==◌, nat_eq, string_eq,
  bytes_eq, Eq, ◌≡◌, refl, sym, ap, subst, ◌∙◌, nat_beq_iff, arith, Bool-cases, inl, inr, if_cases,
  neither,
}
use clixor_backend.Map.{Map, get, put, delete}
use clixor_backend.Map.Laws.{get-put, get-delete, beq_refl}
use clixor_backend.Domain.{Uuid, Time, User, Error, Result, live, is_deleted}
use clixor_backend.Compliance.Cases.{Inbox}
use clixor_backend.Memory.{Store}
use clixor_backend.Memory.Users.{
  CreateUserParams, create_user, accepted_user, accept_legal, new_user, store_user, taken, indexed,
  update_user_phone, change_phone, owned_by_other, released_phone, with_phone,
}

module _ {ℓ} {K : Type ℓ} ⦃e : Eq K⦄ (field : User → K) (blank : K) where
  -- The index names every user whose key is not blank.
  unfoldable pub Indexed : Map Uuid User → Map K Uuid → Type 0
  Indexed users index =
      (id : Uuid) (u : User)
      → get users id ≡ some u
      → (field u == blank) ≡ false
      → get index (field u) ≡ some id

  -- A new user whose key is blank or free.
  added-Indexed :
      (users : Map Uuid User) (index : Map K Uuid) (new : User)
      → taken blank (field new) index ≡ false
      → Indexed users index
      → Indexed (put users new.id new) (indexed blank (field new) new.id index)
  unfolding Indexed indexed taken
  added-Indexed users index new free h id u found used =
      let from : (if new.id == id then some new else get users id) ≡ some u =
        sym (get-put users new.id id new) ∙ found in
      let at_key = get-put index (field new) (field u) new.id in
      elim (Bool-cases (new.id == id)) [
        | inl a ↦
            let this : new ≡ u = grind (arith, a, from) in
            let used : (field new == blank) ≡ false = rw this used in
            subst (λ w. get (indexed blank (field new) new.id index) (field w) ≡ some id) this
              (rw (used, get-put index (field new) (field new) new.id, beq_refl (field new))
                (ap some ((nat_beq_iff new.id id).0 a)))
        | inr a ↦
            let kept : get index (field u) ≡ some id = h id u (grind arith) used in
            elim (Bool-cases (field new == blank)) [
              | inl b ↦ rw b kept
              | inr b ↦ elim (Bool-cases (field new == field u)) [
                | inl c ↦
                    let taken_by : get index (field new) ≡ some id =
                      rw ((e.beq_iff (field new) (field u)).0 c) kept in
                    let clash : true ≡ false = rw (b, taken_by) at free in cc
                | inr c ↦ rw (b, at_key, c) kept
              ]
            ]
      ]

  -- A user stored again with the same key.
  pub same-Indexed :
      (users : Map Uuid User) (index : Map K Uuid) (id : Uuid) (old new : User)
      → get users id ≡ some old
      → field new ≡ field old
      → Indexed users index
      → Indexed (put users id new) index
  unfolding Indexed
  same-Indexed users index id old new stored same h j u found used =
      let from : (if id == j then some new else get users j) ≡ some u =
        sym (get-put users id j new) ∙ found in
      elim (Bool-cases (id == j)) [
        | inl a ↦
            let this : new ≡ u = grind (arith, a, from) in
            let key : field old ≡ field u = sym same ∙ ap field this in
            rw (sym key, sym ((nat_beq_iff id j).0 a)) (h id old stored (rw key used))
        | inr a ↦ h j u (grind arith) used
      ]

  -- A user stored again with another key, which no other user has.
  moved-Indexed :
      (users : Map Uuid User) (index : Map K Uuid) (id : Uuid) (old new : User)
      → get users id ≡ some old
      → owned_by_other id (get index (field new)) ≡ false
      → Indexed users index
      → Indexed
          (put users id new)
          (put (if field old == blank then index else delete index (field old)) (field new) id)
  unfolding Indexed owned_by_other
  moved-Indexed users index id old new stored free h j u found used =
      let from : (if id == j then some new else get users j) ≡ some u =
        sym (get-put users id j new) ∙ found in
      let freed = if field old == blank then index else delete index (field old) in
      let written = get-put freed (field new) (field u) id in
      elim (Bool-cases (id == j)) [
        | inl a ↦
            let this : new ≡ u = grind (arith, a, from) in
            rw (written, sym (ap field this), beq_refl (field new))
              (ap some ((nat_beq_iff id j).0 a))
        | inr a ↦
            let kept : get index (field u) ≡ some j = h j u (grind arith) used in
            elim (Bool-cases (field new == field u)) [
              | inl c ↦
                  let owner : get index (field new) ≡ some j =
                    rw ((e.beq_iff (field new) (field u)).0 c) kept in
                  let clash : not (j == id) ≡ false = rw owner at free in absurd (grind arith)
              | inr c ↦
                  rw (written, c)
                    (elim (Bool-cases (field old == blank)) [
                      | inl b ↦ rw b kept
                      | inr b ↦
                          rw (b, get-delete index (field old) (field u))
                            (elim (Bool-cases (field old == field u)) [
                              | inl d ↦
                                  let first : get index (field u) ≡ some id =
                                    subst (λ k. get index k ≡ some id)
                                      ((e.beq_iff (field old) (field u)).0 d) (h id old stored b) in
                                  let same : some id ≡ some j = sym first ∙ kept in
                                  absurd (grind arith)
                              | inr d ↦ rw d kept
                            ])
                    ])
            ]
      ]

-- Every user is named by the index of addresses and by the index of phones.
pub record Registered (s : Store) : Type 0 where
  pub emails : Indexed (λ u. u.email) [] s.users s.email_to_user
  pub phones : Indexed (λ u. u.phone) "" s.users s.phone_to_user

pub live_found : (o : Option User) (u : User) → live o ≡ some u → o ≡ some u
unfolding live
live_found none u h = h
live_found (some v) u h = elim (Bool-cases (is_deleted v)) [
  | inl d ↦ let clash : none ≡ some u = rw d at h in cc
  | inr d ↦ rw d at h
]

accepted-Registered :
    (u : User) (s : Store) (o : Option Error × Inbox)
    → taken [] u.email s.email_to_user ≡ false
    → taken "" u.phone s.phone_to_user ≡ false
    → Registered s
    → Registered (accepted_user u s o).1.1
unfolding store_user
accepted-Registered u s (some e, m) free_email free_phone h = h
accepted-Registered u s (none, m) free_email free_phone h = record {
  emails = added-Indexed (λ w. w.email) [] s.users s.email_to_user u free_email h.emails;
  phones = added-Indexed (λ w. w.phone) "" s.users s.phone_to_user u free_phone h.phones;
}

pub create-Registered :
    (p : CreateUserParams) (id : Uuid) (now : Time) (inbox : Inbox) (s : Store)
    → Registered s
    → Registered (create_user p id now inbox s).1.1
unfolding create_user new_user
create-Registered p id now inbox s h =
    if_cases (λ (r : Result User × (Inbox × Store)). Registered r.1.1) _ _ _ (λ _. h)
      (λ free.
        let both = neither _ _ free in
        accepted-Registered (new_user p id now) s (accept_legal p.legal_acceptance id now inbox)
          both.0 both.1 h)

change-Registered :
    (id : Uuid) (phone : String) (now : Time) (s : Store) (o : Option User)
    → ((u : User) → o ≡ some u → get s.users id ≡ some u)
    → Registered s
    → Registered (change_phone id phone now s o).1
unfolding change_phone with_phone released_phone
change-Registered id phone now s none found h = h
change-Registered id phone now s (some u) found h =
    if_cases (λ (r : Result User × Store). Registered r.1) _ _ _ (λ _. h)
      (λ free. record {
        emails =
            same-Indexed (λ w. w.email) [] s.users s.email_to_user id u (with_phone phone now u)
              (found u refl) refl h.emails;
        phones =
            moved-Indexed (λ w. w.phone) "" s.users s.phone_to_user id u (with_phone phone now u)
              (found u refl) free h.phones;
      })

-- CreateUser and UpdateUserPhone keep every user with an address or a phone named by the index, on
-- every branch.
pub users-Registered :
    (s : Store)
    → Registered s
    → (p : CreateUserParams) (new : Uuid) (now : Time) (inbox : Inbox) (id : Uuid) (phone : String)
    → Registered (create_user p new now inbox s).1.1
      × Registered (update_user_phone id phone now s).1
unfolding update_user_phone
users-Registered s h p new now inbox id phone = (
  create-Registered p new now inbox s h,
  change-Registered id phone now s (live (get s.users id)) (live_found (get s.users id)) h,
)

-- Two users with one phone are the same.
pub phone_owner_unique :
    (s : Store)
    → Registered s
    → (id other : Uuid) (u v : User) → get s.users id ≡ some u
    → get s.users other ≡ some v
    → (u.phone == "") ≡ false
    → u.phone ≡ v.phone
    → id ≡ other
unfolding Indexed
phone_owner_unique s h id other u v stored also used same =
    let first : get s.phone_to_user v.phone ≡ some id =
      subst (λ k. get s.phone_to_user k ≡ some id) same (h.phones id u stored used) in
    let second : get s.phone_to_user v.phone ≡ some other =
      h.phones other v also (rw same at used) in
    let equal : some id ≡ some other = sym first ∙ second in cc
