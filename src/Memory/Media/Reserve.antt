-- ===== src/Memory/Media/Reserve.antt =====
-- internal/store/memory/memory.go: CreateMedia and CreateProfileMedia keep every quota.
use clixor_backend.Prelude.{
  ℕ, ◌≤◌, ◌≡◌, refl, sym, ap, subst, none, List, [], ◌∷◌, Bool, true, false, not, ◌&&◌, ◌||◌,
  if◌then◌else◌, nat_eq, arith, if_cases, if_both, neither,
}
use clixor_backend.Map.{Map, get, put, values, value_list, find, without}
use clixor_backend.Domain.{Uuid, Time, Result, err, invalid, forbidden, not_found, live}
use clixor_backend.Domain.Media.{MediaObject, in_conversation}
use clixor_backend.Memory.{Store}
use clixor_backend.Memory.Outbox.{is_set}
use clixor_backend.Memory.Invites.{member_of}
use clixor_backend.Memory.Media.{
  valid_limits, MediaReservationLimits, usage, over, over_quota, too_large, media_invalid,
  create_media, create_profile_media, create_media_locked, reserved, user_stored, user_pending,
  conversation_stored, conversation_pending, for_conversation, for_profile,
}
use clixor_backend.Memory.Media.Quota.{
  counted, stored_bytes, quota_bound, Within, WithinQuota, IsSmall, kept-Within, stored_by,
  pending_by, stored_in, pending_in, stored_there, pending_there,
}

-- A key that is absent is written as a new entry.
without_absent : (k : ℕ) (es : List (ℕ × MediaObject)) → find k es ≡ none → without k es ≡ es
unfolding find without
without_absent k [] h = refl
without_absent k ((j, v) ∷ es) h = ground (arith, without_absent k es)

values-put_absent :
    (m : Map Uuid MediaObject) (k : Uuid) (v : MediaObject)
    → is_set (get m k) ≡ false
    → values (put m k v) ≡ v ∷ values m
unfolding values value_list get put
values-put_absent m k v h = ap (λ es. v ∷ value_list es) (without_absent k m.entries (unset h))
  where
    unset : is_set (find k m.entries) ≡ false → find k m.entries ≡ none
    unset e = ground arith

module _ (l : MediaReservationLimits) (new : MediaObject) (ms : List MediaObject) where
  small_enough : IsSmall l → too_large l new ≡ false → new.byte_size ≤ quota_bound
  unfolding too_large
  small_enough small h = ground (arith, small.stored_bytes)

  user_room :
      over_quota l new ms ≡ false
      → (over l.max_pending_count_per_user l.max_pending_bytes_per_user new
            (usage (pending_by new.owner_id) ms)
          ≡ false)
        × (over l.max_stored_count_per_user l.max_stored_bytes_per_user new
              (usage (stored_by new.owner_id) ms)
            ≡ false)
  unfolding over_quota user_pending user_stored
  user_room h = let (user, rest) = neither _ _ h in neither _ _ user

  conversation_room :
      over_quota l new ms ≡ false
      → in_conversation new.scope ≡ true
      → (over l.max_pending_count_conversation l.max_pending_bytes_conversation new
            (usage (pending_in new.conversation_id) ms)
          ≡ false)
        × (over l.max_stored_count_conversation l.max_stored_bytes_conversation new
              (usage (stored_in new.conversation_id) ms)
            ≡ false)
  unfolding over_quota conversation_pending conversation_stored
  conversation_room h inside =
      let rest : (in_conversation new.scope
            && (over l.max_pending_count_conversation l.max_pending_bytes_conversation new
                  (usage (pending_there (in_conversation new.scope) new.conversation_id) ms)
                || over l.max_stored_count_conversation l.max_stored_bytes_conversation new
                    (usage (stored_there (in_conversation new.scope) new.conversation_id) ms)))
          ≡ false =
        (neither _ _ h).1 in
      neither _ _ (rw inside at rest)

both_true : (a b : Bool) → (a && b) ≡ true → (a ≡ true) × (b ≡ true)
both_true true b h = (refl, h)
both_true false b h = (cc, cc)

module _ (l : MediaReservationLimits) (now : Time) (new : MediaObject) (s : Store) where
  -- Whose totals the new object counts in.
  owner_counted :
      (owner : Uuid) → stored_by owner (reserved l now new) ≡ true → new.owner_id ≡ owner
  unfolding reserved
  owner_counted owner e = ground arith

  inside_counted :
      (id : Uuid)
      → stored_in id (reserved l now new) ≡ true
      → (new.conversation_id ≡ id) × (in_conversation new.scope ≡ true)
  unfolding reserved
  inside_counted id e = ground arith

  -- The store that the last branch writes.
  reserved-WithinQuota :
      IsSmall l
      → too_large l new ≡ false
      → over_quota l new (values s.media) ≡ false
      → is_set (get s.media new.id) ≡ false
      → WithinQuota l s
      → WithinQuota l (record s { media = put s.media new.id (reserved l now new) })
  unfolding reserved
  reserved-WithinQuota small fits free absent h =
      let size = small_enough l new (values s.media) small fits in
      let (pending_free, stored_free) = user_room l new (values s.media) free in
      let written = sym (values-put_absent s.media new.id (reserved l now new) absent) in
      record {
        stored_by_owner = λ owner. subst (Within _ _ (stored_by owner)) written (
            kept-Within _ _ stored_by owner new.owner_id new (reserved l now new) (values s.media)
              small.stored_count small.stored_bytes size refl
              (λ e. (owner_counted owner e, stored_free)) (h.stored_by_owner owner));
        pending_by_owner = λ owner. subst (Within _ _ (pending_by owner)) written (
            kept-Within _ _ pending_by owner new.owner_id new (reserved l now new) (values s.media)
              small.pending_count small.pending_bytes size refl
              (λ e. (owner_counted owner (both_true _ _ e).0, pending_free))
              (h.pending_by_owner owner));
        stored_in_conversation = λ id. subst (Within _ _ (stored_in id)) written (
            kept-Within _ _ stored_in id new.conversation_id new (reserved l now new)
              (values s.media) small.conversation_count small.conversation_bytes size refl
              (λ e. (
                (inside_counted id e).0,
                (conversation_room l new (values s.media) free (inside_counted id e).1).1,
              ))
              (h.stored_in_conversation id));
        pending_in_conversation = λ id. subst (Within _ _ (pending_in id)) written (
            kept-Within _ _ pending_in id new.conversation_id new (reserved l now new)
              (values s.media) small.pending_conversation_count small.pending_conversation_bytes
              size refl
              (λ e. (
                (inside_counted id (both_true _ _ e).0).0,
                (conversation_room l new (values s.media) free
                    (inside_counted id (both_true _ _ e).0).1).0,
              ))
              (h.pending_in_conversation id));
      }

  create_locked-WithinQuota :
      IsSmall l → WithinQuota l s → WithinQuota l (create_media_locked l now new s).1
  unfolding create_media_locked
  create_locked-WithinQuota small h =
      if_cases {A = Result MediaObject × Store} (λ r. WithinQuota l r.1) (media_invalid new) _ _
        (λ _. h)
        (λ _.
          if_cases {A = Result MediaObject × Store} (λ r. WithinQuota l r.1)
            (is_set (get s.media new.id)) _ _ (λ _. h)
            (λ absent.
              if_cases {A = Result MediaObject × Store} (λ r. WithinQuota l r.1)
                (too_large l new || over_quota l new (values s.media)) _ _ (λ _. h)
                (λ e. reserved-WithinQuota small (neither _ _ e).0 (neither _ _ e).1 absent h)))

-- Creating a media object, in a conversation or for a profile, keeps every quota, on every branch:
-- with limits below 2^62, where each owner and each conversation had at most the allowed number of
-- stored objects, of pending objects, of stored bytes and of pending bytes, each still has, counted
-- without a wrap-around.
pub create-WithinQuota :
    (l : MediaReservationLimits) (now : Time) (m : MediaObject) (s : Store)
    → IsSmall l
    → WithinQuota l s
    → WithinQuota l (create_media l now m s).1 × WithinQuota l (create_profile_media l now m s).1
unfolding create_media create_profile_media
create-WithinQuota l now m s small h =
    let created = create_locked-WithinQuota l now (for_conversation m) s small h in
    let created_profile = create_locked-WithinQuota l now (for_profile m) s small h in
    (
      either (not (valid_limits l)) (err invalid, s) _ h
          (either (is_set (member_of m.conversation_id m.owner_id s))
            (create_media_locked l now (for_conversation m) s) (err forbidden, s) created h),
      either (not (valid_limits l)) (err invalid, s) _ h
          (either (is_set (live (get s.users m.owner_id)))
            (create_media_locked l now (for_profile m) s) (err not_found, s) created_profile h),
    )
  where
    either :
        (b : Bool) (p q : Result MediaObject × Store)
        → WithinQuota l p.1
        → WithinQuota l q.1
        → WithinQuota l (if b then p else q).1
    either = if_both (λ r. WithinQuota l r.1)

-- Without media every quota holds.
pub empty-WithinQuota :
    (l : MediaReservationLimits) (s : Store) → values s.media ≡ [] → WithinQuota l s
unfolding counted stored_bytes
empty-WithinQuota l s h = record {
  stored_by_owner = λ owner. nothing _ _ (stored_by owner);
  pending_by_owner = λ owner. nothing _ _ (pending_by owner);
  stored_in_conversation = λ id. nothing _ _ (stored_in id);
  pending_in_conversation = λ id. nothing _ _ (pending_in id);
}
  where
    nothing :
        (max_count max_bytes : ℕ) (p : MediaObject → Bool)
        → Within max_count max_bytes p (values s.media)
    nothing max_count max_bytes p =
        subst (Within max_count max_bytes p) (sym h)
          (record { count = omega arith; bytes = omega arith })
