-- ===== src/Auth/Replay.antt =====
-- internal/auth/tokens.go: refresh tokens are read back as they were written, and a replay of one
-- ends the session.
use clixor_backend.Prelude.{
  ◌+◌, ◌≤◌, ◌≡◌, ◌≢◌, refl, sym, ap, subst, ◌∙◌, Option, none, some, [], ◌∷◌, ◌++◌, false, ◌==◌,
  nat_eq, ltb, length, exists, neither,
}
use clixor_backend.Map.{get}
use clixor_backend.Domain.{Uuid, Time, Bytes, Session, Result, ok, err, unauthenticated}
use clixor_backend.Memory.{Store}
use clixor_backend.Memory.Sessions.{rotate_session}
use clixor_backend.Memory.Sessions.Rotation.{rotate_reuse, rotate_keeps_id}
use clixor_backend.Auth.{
  TokenLibrary, TokenManager, TokenPair, split_dot, parsed_parts, parse_refresh_token,
  refresh_token_of, signed_pair, pair, paired, refresh_parsed, refresh,
}

-- A UUID's text has no dot and is parsed back, as github.com/google/uuid documents.
pub record IsUuidText (lib : TokenLibrary) : Type 0 where
  pub no_dot : (id : Uuid) → exists (λ c. c == b'.') (lib.uuid_text id) ≡ false
  pub parse-text : (id : Uuid) → lib.parse_uuid (lib.uuid_text id) ≡ some id

split-dotted :
    (xs secret : Bytes)
    → exists (λ c. c == b'.') xs ≡ false
    → split_dot (xs ++ b'.' ∷ secret) ≡ some (xs, secret)
unfolding split_dot
split-dotted [] secret h = refl
split-dotted (x ∷ xs) secret h =
    let (other, rest) = neither (x == b'.') (exists (λ c. c == b'.') xs) h in
    rw (other, split-dotted xs secret rest) refl

module _ (lib : TokenLibrary) (text : IsUuidText lib) where
  pub parse-refresh_token_of :
      (id : Uuid) (secret : Bytes)
      → ltb (length secret) 40 ≡ false
      → parse_refresh_token lib (refresh_token_of lib id secret) ≡ some (id, secret)
  unfolding parse_refresh_token refresh_token_of parsed_parts
  parse-refresh_token_of id secret long =
      rw (split-dotted (lib.uuid_text id) secret (text.no_dot id), long, text.parse-text) refl

ok_injective {ℓ} : {A : Type ℓ} {x y : A} → ok x ≡ ok y → x ≡ y
ok_injective h = cc

module _ (lib : TokenLibrary) (manager : TokenManager) (token_id secret : Bytes) (now : Time) where
  paired_refused :
      (q : Result Session × Store)
      → q.0 ≡ err unauthenticated
      → paired lib manager token_id secret now q ≡ (err unauthenticated, q.1)
  unfolding paired
  paired_refused (err e, s) h = refl
  paired_refused (ok session, s) h = cc

  signed_token :
      (session_id : Uuid) (expires_at : Time) (access : Option Bytes) (p : TokenPair)
      → signed_pair lib session_id secret expires_at access ≡ ok p
      → p.refresh_token ≡ refresh_token_of lib session_id secret
  unfolding signed_pair
  signed_token session_id expires_at none p h = cc
  signed_token session_id expires_at (some access) p h =
      ap (λ (x : TokenPair). x.refresh_token) (sym (ok_injective h))

  paired_ok :
      (q : Result Session × Store) (p : TokenPair) (t : Store)
      → paired lib manager token_id secret now q ≡ (ok p, t)
      → (r : Session) × (q ≡ (ok r, t)) × (p.refresh_token ≡ refresh_token_of lib r.id secret)
  unfolding paired pair
  paired_ok (err e, s) p t h = cc
  paired_ok (ok r, s) p t h =
      (r, ap (λ x. (ok r, x.1)) h, signed_token r.id _ _ p (ap (λ x. x.0) h))

-- What a successful Refresh went through.
record Refreshed (lib : TokenLibrary) (manager : TokenManager) (secret : Bytes) (now : Time)
    (token : Bytes) (s t : Store) (p : TokenPair) : Type 0 where
  id : Uuid
  old : Bytes
  session : Session
  parsed : parse_refresh_token lib token ≡ some (id, old)
  rotation :
      rotate_session id (lib.sha256 old) (lib.sha256 secret) (now + manager.refresh_ttl) now s
      ≡ (ok session, t)
  written : p.refresh_token ≡ refresh_token_of lib session.id secret

module _ (lib : TokenLibrary) (manager : TokenManager) where
  parsed-Refreshed :
      (token_id secret : Bytes) (now : Time) (token : Bytes) (o : Option (Uuid × Bytes))
      (s t : Store) (p : TokenPair)
      → parse_refresh_token lib token ≡ o
      → refresh_parsed lib manager token_id (some secret) now o s ≡ (ok p, t)
      → Refreshed lib manager secret now token s t p
  unfolding refresh_parsed
  parsed-Refreshed token_id secret now token none s t p e h = cc
  parsed-Refreshed token_id secret now token (some (id, old)) s t p e h =
      let (r, rotation, written) = paired_ok lib manager token_id secret now _ p t h in
      record { id = id; old = old; session = r; parsed = e; rotation = rotation; written = written }

  -- A refresh whose token is read as a session that does not rotate.
  refresh_refused :
      (token_id secret : Bytes) (now : Time) (token : Bytes) (id : Uuid) (old : Bytes) (s : Store)
      → parse_refresh_token lib token ≡ some (id, old)
      → (rotate_session id (lib.sha256 old) (lib.sha256 secret) (now + manager.refresh_ttl) now s).0
        ≡ err unauthenticated
      → refresh lib manager token_id (some secret) now token s ≡ (
        err unauthenticated,
        (rotate_session id
            (lib.sha256 old)
            (lib.sha256 secret)
            (now + manager.refresh_ttl)
            now
            s).1,
      )
  unfolding refresh refresh_parsed
  refresh_refused token_id secret now token id old s e h =
      rw e (paired_refused lib manager token_id secret now _ h)

-- A replayed refresh token ends the session: once Refresh has exchanged a token for a pair, where
-- the new secret has another hash than the old one, Refresh with the same token is refused, and
-- after that, at the same time or later, so is Refresh with the pair's own token. The session was
-- stored under its id, and a UUID's text is read back.
pub refresh_replayed :
    (lib : TokenLibrary) (manager : TokenManager) (token secret fresh other : Bytes)
    (token_id token_id' token_id'' : Bytes) (now now' now'' : Time) (s t : Store) (p : TokenPair)
    → IsUuidText lib
    → ((id : Uuid) (b : Session) → get s.sessions id ≡ some b → b.id ≡ id)
    → ltb (length secret) 40 ≡ false
    → ((id : Uuid) (old : Bytes)
        → parse_refresh_token lib token ≡ some (id, old)
        → lib.sha256 old ≢ lib.sha256 secret)
    → now' ≤ now''
    → refresh lib manager token_id (some secret) now token s ≡ (ok p, t)
    → let replay = refresh lib manager token_id' (some fresh) now' token t in
      (replay.0 ≡ err unauthenticated)
      × ((refresh lib manager token_id'' (some other) now'' p.refresh_token replay.1).0
          ≡ err unauthenticated)
refresh_replayed lib manager token secret fresh other token_id token_id' token_id'' now now' now'' s
      t p text keyed long differ order h =
    let first =
      refresh_refused lib manager token_id' fresh now' token r.id r.old t r.parsed reuse.0 in
    (
      ap (λ (x : Result TokenPair × Store). x.0) first,
      subst
          (λ u.
            (refresh lib manager token_id'' (some other) now'' p.refresh_token u).0
            ≡ err unauthenticated)
          (sym (ap (λ (x : Result TokenPair × Store). x.1) first))
          (ap (λ (x : Result TokenPair × Store). x.0)
            (refresh_refused lib manager token_id'' other now'' p.refresh_token r.id secret _
              read_back reuse.1)),
    )
  where
    r : Refreshed lib manager secret now token s t p
    r = unfold refresh in parsed-Refreshed lib manager token_id secret now token _ s t p refl h

    replayed : Store
    replayed =
        (rotate_session r.id (lib.sha256 r.old) (lib.sha256 fresh) (now' + manager.refresh_ttl) now'
          t).1

    reuse :
        ((rotate_session r.id
            (lib.sha256 r.old)
            (lib.sha256 fresh)
            (now' + manager.refresh_ttl)
            now'
            t).0
          ≡ err unauthenticated)
        × ((rotate_session r.id
              (lib.sha256 secret)
              (lib.sha256 other)
              (now'' + manager.refresh_ttl)
              now''
              replayed).0
            ≡ err unauthenticated)
    reuse =
        rotate_reuse r.id (lib.sha256 r.old) (lib.sha256 secret) (lib.sha256 fresh)
          (lib.sha256 other) (now + manager.refresh_ttl) (now' + manager.refresh_ttl)
          (now'' + manager.refresh_ttl) now now' now'' s t r.session r.rotation
          (differ r.id r.old r.parsed) order

    same_id : r.session.id ≡ r.id
    same_id =
        let (b, found, same) =
          rotate_keeps_id r.id (lib.sha256 r.old) (lib.sha256 secret) (now + manager.refresh_ttl)
            now s t r.session r.rotation in
        same ∙ keyed r.id b found

    read_back : parse_refresh_token lib p.refresh_token ≡ some (r.id, secret)
    read_back =
        ap (parse_refresh_token lib) (r.written ∙ ap (λ i. refresh_token_of lib i secret) same_id)
        ∙ parse-refresh_token_of lib text r.id secret long
