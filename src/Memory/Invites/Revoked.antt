-- ===== src/Memory/Invites/Revoked.antt =====
-- ConversationInvitePreview of an invite link that RevokeConversationInvite revoked.
use clixor_backend.Prelude.{
  ◌≡◌, ◌⊎◌, inl, inr, refl, subst, ap, Option, none, some, true, false, not, arith, if_cases, ◌==◌,
  nat_eq, bytes_eq,
}
use clixor_backend.Map.{get}
use clixor_backend.Map.Laws.{get-put, beq_refl}
use clixor_backend.Domain.{Uuid, Time, Bytes, Result, ok, err, not_found, invite_revoked}
use clixor_backend.Domain.Chat.{Conversation, ConversationInvite}
use clixor_backend.Memory.{Store}
use clixor_backend.Memory.Outbox.{is_set}
use clixor_backend.Memory.Invites.{
  member_of, manages, conversation_invite_active_error, preview_checked, preview_in, preview_link,
  conversation_invite_preview, invite_or_zero, mark_revoked, revoke_link, revoke_key,
  revoke_conversation_invite,
}

-- The link under the token is a revoked invite of the conversation, and the members are the same.
record LinkRevoked (conversation_id : Uuid) (token : Bytes) (s t : Store) : Type 0 where
  invite : ConversationInvite
  found : get t.invite_links token ≡ some invite
  within : invite.conversation_id ≡ conversation_id
  dead : is_set invite.revoked_at ≡ true
  members : t.members ≡ s.members

mark_revoked_lem :
    (now : Time) (invite : ConversationInvite)
    → ((mark_revoked now invite).conversation_id ≡ invite.conversation_id)
      × (is_set (mark_revoked now invite).revoked_at ≡ true)
unfolding mark_revoked
mark_revoked_lem now invite = (refl, refl)

-- A stored invite that is revoked is not the zero invite.
zero_or_found :
    (o : Option ConversationInvite)
    → is_set (invite_or_zero o).revoked_at ≡ true
    → o ≡ some (invite_or_zero o)
zero_or_found none h = cc
zero_or_found (some invite) h = refl

revoke_link-LinkRevoked :
    (conversation_id : Uuid) (now : Time) (token : Bytes) (s t : Store)
    → revoke_link conversation_id now token (invite_or_zero (get s.invite_links token)) s
      ≡ (ok tt, t)
    → LinkRevoked conversation_id token s t
unfolding revoke_link
revoke_link-LinkRevoked conversation_id now token s t =
    if_cases {A = Result (Unit {0}) × Store} P (not (invite.conversation_id == conversation_id)) _ _
      (λ _ h. cc)
      (λ c.
        if_cases {A = Result (Unit {0}) × Store} P (is_set invite.revoked_at) _ _
          (λ r h.
            subst (LinkRevoked conversation_id token s)
              (ap (λ (q : Result (Unit {0}) × Store). q.1) h)
              (record {
                invite = invite;
                found = zero_or_found (get s.invite_links token) r;
                within = ground arith;
                dead = r;
                members = refl;
              }))
          (λ r h.
            subst (LinkRevoked conversation_id token s)
              (ap (λ (q : Result (Unit {0}) × Store). q.1) h)
              (record {
                invite = mark_revoked now invite;
                found = rw (get-put, beq_refl token) refl;
                within = ground (arith, (mark_revoked_lem now invite).0);
                dead = (mark_revoked_lem now invite).1;
                members = refl;
              })))
  where
    invite : ConversationInvite
    invite = invite_or_zero (get s.invite_links token)

    P : Result (Unit {0}) × Store → Type 0
    P q = q ≡ (ok tt, t) → LinkRevoked conversation_id token s t

revoke-LinkRevoked :
    (conversation_id actor_id invite_id : Uuid) (token : Bytes) (now : Time) (s t : Store)
    → revoke_conversation_invite conversation_id actor_id invite_id now s ≡ (ok tt, t)
    → get s.invite_link_keys invite_id ≡ some token
    → LinkRevoked conversation_id token s t
unfolding revoke_conversation_invite revoke_key
revoke-LinkRevoked conversation_id actor_id invite_id token now s t h k =
    if_cases {A = Result (Unit {0}) × Store}
      (λ q. q ≡ (ok tt, t) → LinkRevoked conversation_id token s t)
      (not (manages (member_of conversation_id actor_id s))) _ _ (λ _ q. cc)
      (λ _ q. revoke_link-LinkRevoked conversation_id now token s t q) (rw k at h)

preview_dead :
    (invite : ConversationInvite) (user_id : Uuid) (now : Time) (o : Option Conversation)
    (t : Store)
    → is_set invite.revoked_at ≡ true
    → is_set (member_of invite.conversation_id user_id t) ≡ false
    → (preview_in invite user_id now o t ≡ err invite_revoked)
      ⊎ (preview_in invite user_id now o t ≡ err not_found)
unfolding preview_in preview_checked conversation_invite_active_error
preview_dead invite user_id now none t r m = inr refl
preview_dead invite user_id now (some conversation) t r m = inl (rw (m, r) refl)

-- A revoked link previews for nobody new: after a successful revocation of an invite, a preview by
-- its token for anyone who is not a member of the conversation fails, at any time, with the revocation
-- or, where the conversation is gone, as not found.
pub revoked_link_refused :
    (conversation_id actor_id invite_id user_id : Uuid) (token : Bytes) (now later : Time)
    (s t : Store)
    → revoke_conversation_invite conversation_id actor_id invite_id now s ≡ (ok tt, t)
    → get s.invite_link_keys invite_id ≡ some token
    → is_set (member_of conversation_id user_id s) ≡ false
    → (conversation_invite_preview token user_id later t ≡ err invite_revoked)
      ⊎ (conversation_invite_preview token user_id later t ≡ err not_found)
revoked_link_refused conversation_id actor_id invite_id user_id token now later s t h k m =
    unfold conversation_invite_preview preview_link in
    rw v.found (
      preview_dead v.invite user_id later (get t.conversations v.invite.conversation_id) t v.dead
        (unfold member_of in rw (v.within, v.members) (unfold member_of in m)))
  where
    v : LinkRevoked conversation_id token s t
    v = revoke-LinkRevoked conversation_id actor_id invite_id token now s t h k
