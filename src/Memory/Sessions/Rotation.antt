-- ===== src/Memory/Sessions/Rotation.antt =====
-- Refresh tokens: the presented secret is replaced, and a replaced secret that comes back ends
-- the session.
use clixor_backend.Prelude.{
  Option, none, some, true, false, not, ◌||◌, ◌≡◌, ◌≢◌, ◌≤◌, refl, sym, ap, arith, inl, inr,
  Bool-cases, nat_eq, bytes_eq, list_beq_iff, if_cases,
}
use clixor_backend.Map.{get}
use clixor_backend.Map.Laws.{get-put, beq_refl}
use clixor_backend.Domain.{Uuid, Time, Bytes, Session, Result, ok, err, unauthenticated, live}
use clixor_backend.Memory.{Store}
use clixor_backend.Memory.Outbox.{is_set}
use clixor_backend.Memory.Sessions.{
  equal_token_hash, session_dead, rotated, revoked, put_session, rotate_found, rotate_checked,
  rotate_session,
}

-- What a successful rotation says of the session that it found and leaves in its place.
record Rotation (id : Uuid) (old new : Bytes) (expires now : Time) (s t : Store) (r : Session)
    : Type 0 where
  before_session : Session
  found : get s.sessions id ≡ some before_session
  user_live : is_set (live (get s.users before_session.user_id)) ≡ true
  alive : session_dead now before_session ≡ false
  presented : equal_token_hash before_session.refresh_token_hash old ≡ true
  result : r ≡ rotated new expires before_session
  stored : t ≡ put_session id r s

rotate_checked-Rotation :
    (id : Uuid) (old new : Bytes) (expires now : Time) (s t : Store) (r : Session)
    (o : Option Session)
    → get s.sessions id ≡ o
    → rotate_checked id old new expires now o s ≡ (ok r, t)
    → Rotation id old new expires now s t r
unfolding rotate_checked rotate_found
rotate_checked-Rotation id old new expires now s t r none e = λ h. cc
rotate_checked-Rotation id old new expires now s t r (some session) e =
    if_cases {A = Result Session × Store} P
      (not (is_set (live (get s.users session.user_id))) || session_dead now session) _ _
      (λ _ q. cc)
      (λ alive.
        if_cases {A = Result Session × Store} P (equal_token_hash session.refresh_token_hash old) _
          _
          (λ hit q. record {
            before_session = session;
            found = e;
            user_live = ground arith;
            alive = ground arith;
            presented = hit;
            result = cc;
            stored = cc;
          })
          (λ _.
            if_cases {A = Result Session × Store} P
              (equal_token_hash session.previous_refresh_token_hash old) _ _ (λ _ q. cc)
              (λ _ q. cc)))
  where
    P : Result Session × Store → Type 0
    P q = q ≡ (ok r, t) → Rotation id old new expires now s t r

-- A presented secret that is the previous one and not the current one.
reused :
    (id : Uuid) (old new : Bytes) (expires now : Time) (s : Store) (session : Session)
    → get s.sessions id ≡ some session
    → is_set (live (get s.users session.user_id)) ≡ true
    → session_dead now session ≡ false
    → equal_token_hash session.refresh_token_hash old ≡ false
    → equal_token_hash session.previous_refresh_token_hash old ≡ true
    → rotate_session id old new expires now s
      ≡ (err unauthenticated, put_session id (revoked now session) s)
unfolding rotate_session rotate_checked rotate_found
reused id old new expires now s session f l a c p = rw f (rw (l, a, c, p) refl)

dead :
    (id : Uuid) (old new : Bytes) (expires now : Time) (s : Store) (session : Session)
    → get s.sessions id ≡ some session
    → session_dead now session ≡ true
    → rotate_session id old new expires now s ≡ (err unauthenticated, s)
unfolding rotate_session rotate_checked
dead id old new expires now s session f a = rw f (rw a (ground arith))

module _ (id : Uuid) (s : Store) (session : Session) where
  get-put_session : get (put_session id session s).sessions id ≡ some session
  unfolding put_session
  get-put_session = rw (get-put, beq_refl id) refl

  users-put_session : (put_session id session s).users ≡ s.users
  unfolding put_session
  users-put_session = refl

equal_token_hash-eq : (a b : Bytes) → equal_token_hash a b ≡ true → a ≡ b
unfolding equal_token_hash
equal_token_hash-eq a b h = (list_beq_iff a b).0 (ground arith)

equal_token_hash-ne : (a b : Bytes) → b ≢ a → equal_token_hash a b ≡ false
equal_token_hash-ne a b n = elim (Bool-cases (equal_token_hash a b)) [
  | inl e ↦ absurd (n (sym (equal_token_hash-eq a b e)))
  | inr e ↦ e
]

dead_later :
    (session : Session) (now later : Time)
    → now ≤ later
    → session_dead now session ≡ true
    → session_dead later session ≡ true
unfolding session_dead
dead_later session now later h d = ground arith

dead_revoked :
    (session : Session) (now later : Time) → session_dead later (revoked now session) ≡ true
unfolding session_dead revoked
dead_revoked session now later = refl

-- The state after a rotation, seen by the next two presentations.
module _ (id : Uuid) (old new fresh other : Bytes) (expires' expires'' now' now'' : Time)
    (t : Store) (session : Session) (found : get t.sessions id ≡ some session)
    (user_live : is_set (live (get t.users session.user_id)) ≡ true)
    (replaced : equal_token_hash session.refresh_token_hash old ≡ false)
    (previous : equal_token_hash session.previous_refresh_token_hash old ≡ true)
    (order : now' ≤ now'') where
  abbrev BothRefused : Result Session × Store → Type 0
  BothRefused q =
      (q.0 ≡ err unauthenticated)
      × ((rotate_session id new other expires'' now'' q.1).0 ≡ err unauthenticated)

  refused_dead :
      session_dead now' session ≡ true → BothRefused (rotate_session id old fresh expires' now' t)
  refused_dead d = rw (dead id old fresh expires' now' t session found d) (
    refl,
    ap (λ (q : Result Session × Store). q.0)
        (dead id new other expires'' now'' t session found (dead_later session now' now'' order d)),
  )

  refused_alive :
      session_dead now' session ≡ false → BothRefused (rotate_session id old fresh expires' now' t)
  refused_alive a =
      rw (reused id old fresh expires' now' t session found user_live a replaced previous) (
        refl,
        ap (λ (q : Result Session × Store). q.0)
            (dead id new other expires'' now'' (put_session id (revoked now' session) t)
              (revoked now' session) (get-put_session id t (revoked now' session))
              (dead_revoked session now' now'')),
      )

  refused : BothRefused (rotate_session id old fresh expires' now' t)
  refused = elim (Bool-cases (session_dead now' session)) [
    | inl d ↦ refused_dead d
    | inr a ↦ refused_alive a
  ]

rotated_facts :
    (new old : Bytes) (expires : Time) (session : Session)
    → old ≢ new
    → equal_token_hash session.refresh_token_hash old ≡ true
    → (equal_token_hash (rotated new expires session).refresh_token_hash old ≡ false)
      × (equal_token_hash (rotated new expires session).previous_refresh_token_hash old ≡ true)
      × ((rotated new expires session).user_id ≡ session.user_id)
unfolding rotated
rotated_facts new old expires session n h = (equal_token_hash-ne new old n, h, refl)

-- Reuse detection: once a rotation has replaced `old` by a different `new`, presenting `old`
-- again is refused, and after that, at the same time or later, even `new` is refused, so a stolen
-- and replayed refresh token ends the session for both holders.
pub rotate_reuse :
    (id : Uuid) (old new fresh other : Bytes) (expires expires' expires'' now now' now'' : Time)
    (s t : Store) (r : Session)
    → rotate_session id old new expires now s ≡ (ok r, t)
    → old ≢ new
    → now' ≤ now''
    → ((rotate_session id old fresh expires' now' t).0 ≡ err unauthenticated)
      × ((rotate_session id new other expires'' now''
            (rotate_session id old fresh expires' now' t).1).0
          ≡ err unauthenticated)
rotate_reuse id old new fresh other expires expires' expires'' now now' now'' s t r h n order =
    refused id old new fresh other expires' expires'' now' now'' t
      (rotated new expires v.before_session) found user_live facts.0 facts.1 order
  where
    v : Rotation id old new expires now s t r
    v =
        unfold rotate_session in
        rotate_checked-Rotation id old new expires now s t r (get s.sessions id) refl h

    facts :
        (equal_token_hash (rotated new expires v.before_session).refresh_token_hash old ≡ false)
        × (equal_token_hash (rotated new expires v.before_session).previous_refresh_token_hash old
            ≡ true)
        × ((rotated new expires v.before_session).user_id ≡ v.before_session.user_id)
    facts = rotated_facts new old expires v.before_session n v.presented

    found : get t.sessions id ≡ some (rotated new expires v.before_session)
    found = rw (v.stored, v.result) (get-put_session id s (rotated new expires v.before_session))

    user_live : is_set (live (get t.users (rotated new expires v.before_session).user_id)) ≡ true
    user_live = rw (v.stored, users-put_session id s r, facts.2) v.user_live

-- A rotation keeps the session's id.
pub rotate_keeps_id :
    (id : Uuid) (old new : Bytes) (expires now : Time) (s t : Store) (r : Session)
    → rotate_session id old new expires now s ≡ (ok r, t)
    → (b : Session) × (get s.sessions id ≡ some b) × (r.id ≡ b.id)
unfolding rotate_session rotated
rotate_keeps_id id old new expires now s t r h =
    let v : Rotation id old new expires now s t r =
      rotate_checked-Rotation id old new expires now s t r (get s.sessions id) refl h in
    (v.before_session, v.found, ap (λ (x : Session). x.id) v.result)
