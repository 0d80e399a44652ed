-- ===== src/Memory/Ownership/OneOwner.antt =====
-- A transfer of ownership moves the one owner.
use clixor_backend.Prelude.{
  ◌≡◌, ◌≢◌, refl, sym, ap, subst, Option, none, some, true, not, ◌||◌, ◌==◌, nat_eq, arith,
  if_cases, Bool-cases, inl, inr,
}
use clixor_backend.Map.{Map, get}
use clixor_backend.Map.Laws.{get-put, beq_refl}
use clixor_backend.Domain.{Uuid, Time, Result, ok}
use clixor_backend.Domain.Chat.{ConversationMember, owner, admin, is_group}
use clixor_backend.Memory.{Store}
use clixor_backend.Memory.Outbox.{is_set}
use clixor_backend.Memory.Messages.{conversation_or_zero}
use clixor_backend.Memory.Ownership.{
  owns, with_role, set_role, swap_roles, store_transfer, transfer_in,
  transfer_conversation_ownership,
}

-- The user is an owner among the members, and the only one.
pub record OneOwner (user_id : Uuid) (members : Map Uuid ConversationMember) : Type 0 where
  pub holds : owns (get members user_id) ≡ true
  pub alone : (k : Uuid) → owns (get members k) ≡ true → k ≡ user_id

get-set_role_owner :
    (id k : Uuid) (members m : Map Uuid ConversationMember)
    → is_set (get members id) ≡ true
    → owns (get (set_role id owner (get members id) m) k) ≡ (id == k) || owns (get m k)
get-set_role_owner id k members m h = by_found (get members id) h
  where
    by_found :
        (o : Option ConversationMember)
        → is_set o ≡ true
        → owns (get (set_role id owner o m) k) ≡ (id == k) || owns (get m k)
    by_found none p = cc
    by_found (some x) p = unfold set_role owns in rw get-put (ground arith)

unowned : (o : Option ConversationMember) → o ≡ none → owns o ≡ true → ⊥
unfolding owns
unowned none e h = cc
unowned (some m) e h = cc

demoted : (m : ConversationMember) → owns (some (with_role admin m)) ≡ true → ⊥
unfolding owns
demoted m h = cc

get-set_role_admin :
    (id k : Uuid) (m : Map Uuid ConversationMember)
    → owns (get (set_role id admin (get m id) m) k) ≡ true
    → (k ≢ id) × (owns (get m k) ≡ true)
get-set_role_admin id k m = by_found (get m id) refl
  where
    by_found :
        (o : Option ConversationMember)
        → get m id ≡ o
        → owns (get (set_role id admin o m) k) ≡ true
        → (k ≢ id) × (owns (get m k) ≡ true)
    by_found none e h =
        unfold set_role in (λ p. unowned (get m id) e (subst (λ j. owns (get m j) ≡ true) p h), h)
    by_found (some x) e h =
        unfold set_role in
        if_cases (λ o. owns o ≡ true → (k ≢ id) × (owns (get m k) ≡ true)) (id == k)
          (some (with_role admin x)) (get m k) (λ _ p. absurd (demoted x p))
          (λ q p. (λ r. ground (arith, q, r), p)) (rw get-put at (h))

module _ (actor_id target_id : Uuid) (members : Map Uuid ConversationMember)
    (one : OneOwner actor_id members) (present : is_set (get members target_id) ≡ true) where
  demoted_members : Map Uuid ConversationMember
  demoted_members = set_role actor_id admin (get members actor_id) members

  swap-owns :
      (k : Uuid)
      → owns (get (swap_roles actor_id target_id members) k)
        ≡ (target_id == k) || owns (get demoted_members k)
  unfolding swap_roles demoted_members
  swap-owns k =
      get-set_role_owner target_id k members
        (set_role actor_id admin (get members actor_id) members) present

  only_target : (k : Uuid) → (target_id == k) || owns (get demoted_members k) ≡ true → k ≡ target_id
  unfolding demoted_members
  only_target k h = elim (Bool-cases (target_id == k)) [
    | inl e ↦ ground arith
    | inr e ↦
        let still = get-set_role_admin actor_id k members (rw e at h) in
        absurd (still.0 (one.alone k still.1))
  ]

  swap-OneOwner : OneOwner target_id (swap_roles actor_id target_id members)
  swap-OneOwner = record {
    holds = rw (swap-owns, beq_refl target_id) refl;
    alone = λ k h. only_target k (rw (swap-owns k) at h);
  }

transferred :
    (conversation_id actor_id target_id user_id : Uuid) (now : Time)
    (o : Option (Map Uuid ConversationMember)) (members : Map Uuid ConversationMember) (s t : Store)
    → o ≡ some members
    → OneOwner user_id members
    → transfer_in conversation_id actor_id target_id now o s ≡ (ok tt, t)
    → OneOwner target_id (swap_roles actor_id target_id members)
      × (get t.members conversation_id ≡ some (swap_roles actor_id target_id members))
unfolding transfer_in store_transfer
transferred conversation_id actor_id target_id user_id now o members s t e one h = step (rw e at h)
  where
    Goal : Type 0
    Goal =
        OneOwner target_id (swap_roles actor_id target_id members)
        × (get t.members conversation_id ≡ some (swap_roles actor_id target_id members))

    written :
        (u : Store)
        → u ≡ store_transfer conversation_id actor_id target_id now members s
        → get u.members conversation_id ≡ some (swap_roles actor_id target_id members)
    written u p = unfold store_transfer in rw (p, get-put, beq_refl conversation_id) refl

    step : transfer_in conversation_id actor_id target_id now (some members) s ≡ (ok tt, t) → Goal
    step =
        unfold transfer_in in
        if_cases {A = Result (Unit {0}) × Store} (λ q. q ≡ (ok tt, t) → Goal)
          (not (owns (get members actor_id))) _ _ (λ _ q. cc)
          (λ owned.
            if_cases {A = Result (Unit {0}) × Store} (λ q. q ≡ (ok tt, t) → Goal)
              (not (is_set (get members target_id)) || target_id == actor_id) _ _ (λ _ q. cc)
              (λ fits q. (
                swap-OneOwner actor_id target_id members
                    (subst (λ a. OneOwner a members) (sym (one.alone actor_id (ground arith))) one)
                    (ground arith),
                written t (sym (ap (λ (r : Result (Unit {0}) × Store). r.1) q)),
              )))

-- Ownership moves whole: if a conversation had exactly one owner, then after a successful transfer
-- its only owner is the target.
pub transfer-OneOwner :
    (conversation_id actor_id target_id user_id : Uuid) (now : Time)
    (members : Map Uuid ConversationMember) (s t : Store)
    → get s.members conversation_id ≡ some members
    → OneOwner user_id members
    → transfer_conversation_ownership conversation_id actor_id target_id now s ≡ (ok tt, t)
    → OneOwner target_id (swap_roles actor_id target_id members)
      × (get t.members conversation_id ≡ some (swap_roles actor_id target_id members))
unfolding transfer_conversation_ownership
transfer-OneOwner conversation_id actor_id target_id user_id now members s t f one =
    if_cases {A = Result (Unit {0}) × Store}
      (λ q.
        q ≡ (ok tt, t)
        → OneOwner target_id (swap_roles actor_id target_id members)
          × (get t.members conversation_id ≡ some (swap_roles actor_id target_id members)))
      (not (is_group (conversation_or_zero (get s.conversations conversation_id)).kind)) _ _
      (λ _ q. cc)
      (λ _ q.
        transferred conversation_id actor_id target_id user_id now (get s.members conversation_id)
          members s t f one q)
