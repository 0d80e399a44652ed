-- ===== src/Presence/Refines.antt =====
-- internal/presence/presence.go: its maps answer as the history of the calls does.
use clixor_backend.Prelude.{
  ◌+◌, ◌≤◌, ◌<◌, ◌≡◌, refl, sym, subst, ◌∙◌, Option, none, some, List, [], ◌∷◌, Bool, true, false,
  arith, All-map, if◌then◌else◌, ◌==◌, ◌&&◌, nat_eq, if_cases, if_both, Bool-cases, inl, inr,
}
use clixor_backend.Map.{Map, get, put, delete}
use clixor_backend.Map.Laws.{get-put, get-delete, get-empty}
use clixor_backend.Map.Unique.{range_found, Unique, put-Unique, delete-Unique}
use clixor_backend.Domain.{Uuid, Time}
use clixor_backend.Presence.{
  Presences, devices_or_empty, online_for, set_online, offline, offline_in, scan_devices,
  is_online_in, is_online,
}
use clixor_backend.Presence.Scan.{scan-Unique, scan_known, scan_kept}
use clixor_backend.Presence.History.{Report, Event, Call, until_of, latest}

unfoldable pub tell : Report → Uuid → Uuid → Time → Presences → Presences
tell Report.online u d now p = set_online u d now p
tell Report.heartbeat u d now p = set_online u d now p
tell Report.offline u d now p = offline u d p

-- The calls on the maps, with the readings of the clock.
unfoldable pub run : List (Time × Call) → Presences → List Bool
unfolding tell
run [] p = []
run ((now, Call.report r u d) ∷ cs) p = run cs (tell r u d now p)
run ((now, Call.ask u) ∷ cs) p = let r = is_online u now p in r.0 ∷ run cs r.1

abbrev pub devices_of : Uuid → Presences → Map Uuid Time
devices_of u p = devices_or_empty (get p u)

abbrev pub expiry : Uuid → Uuid → Presences → Option Time
expiry u d p = get (devices_of u p) d

-- The maps hold what the history says, up to entries that have expired at `clock`.
pub record Represents (clock : Time) (log : List Event) (p : Presences) : Type 0 where
  pub unique : (u : Uuid) → Unique (devices_of u p)
  pub known : (u d : Uuid) (x : Time) → expiry u d p ≡ some x → latest u d log ≡ some x
  pub kept : (u d : Uuid) (x : Time) → latest u d log ≡ some x → clock < x → expiry u d p ≡ some x

same_user : (u v : Uuid) → (u == v) ≡ true → u ≡ v
same_user u v h = ground arith

module _ (u : Uuid) (d : Uuid) (now : Time) (p : Presences) where
  devices_online :
      (v : Uuid)
      → devices_of v (set_online u d now p)
        ≡ (if u == v then put (devices_of u p) d (now + online_for) else devices_of v p)
  unfolding set_online
  devices_online v = rw get-put (
      if_cases
        (λ o.
          devices_or_empty o
          ≡ (if u == v then put (devices_of u p) d (now + online_for) else devices_of v p))
        (u == v) _ _ (λ e. rw e refl) (λ e. rw e refl))

  expiry-set_online :
      (v e : Uuid)
      → expiry v e (set_online u d now p)
        ≡ (if u == v && d == e then some (now + online_for) else expiry v e p)
  expiry-set_online v e = elim (Bool-cases (u == v)) [
    | inr n ↦ rw (devices_online v, n) refl
    | inl y ↦ rw (devices_online v, y, get-put, same_user u v y) refl
  ]

  expiry-offline_in :
      (o : Option (Map Uuid Time)) (v e : Uuid)
      → get p u ≡ o
      → expiry v e (offline_in u d o p) ≡ (if u == v && d == e then none else expiry v e p)
  unfolding offline_in
  expiry-offline_in none v e h = elim (Bool-cases (u == v)) [
    | inr n ↦ rw n refl
    | inl y ↦
        rw (y, sym (same_user u v y), h, get-empty)
          (if_both (λ o. none ≡ o) (d == e) none none refl refl)
  ]
  expiry-offline_in (some m) v e h = elim (Bool-cases (u == v)) [
    | inr n ↦ rw (get-put, n) refl
    | inl y ↦ rw (get-put, y, get-delete, sym (same_user u v y), h) refl
  ]

  expiry-offline :
      (v e : Uuid) → expiry v e (offline u d p) ≡ (if u == v && d == e then none else expiry v e p)
  unfolding offline
  expiry-offline v e = expiry-offline_in (get p u) v e refl

  set_online-Unique :
      ((v : Uuid) → Unique (devices_of v p))
      → (v : Uuid) → Unique (devices_of v (set_online u d now p))
  set_online-Unique h v =
      subst Unique (sym (devices_online v))
        (if_both Unique (u == v) _ _ (put-Unique _ _ _ (h u)) (h v))

  offline_in-Unique :
      (o : Option (Map Uuid Time))
      → get p u ≡ o
      → ((v : Uuid) → Unique (devices_of v p))
      → (v : Uuid) → Unique (devices_of v (offline_in u d o p))
  unfolding offline_in
  offline_in-Unique none e h v = h v
  offline_in-Unique (some m) e h v = rw get-put (
      if_both (λ o. Unique (devices_or_empty o)) (u == v) (some (delete m d)) (get p v)
        (delete-Unique m d (subst (λ o. Unique (devices_or_empty o)) e (h u))) (h v))

  tell-Unique :
      (r : Report)
      → ((v : Uuid) → Unique (devices_of v p))
      → (v : Uuid) → Unique (devices_of v (tell r u d now p))
  unfolding tell offline
  tell-Unique Report.online h v = set_online-Unique h v
  tell-Unique Report.heartbeat h v = set_online-Unique h v
  tell-Unique Report.offline h v = offline_in-Unique (get p u) refl h v

  expiry-tell :
      (r : Report) (v e : Uuid)
      → expiry v e (tell r u d now p) ≡ (if u == v && d == e then until_of r now else expiry v e p)
  unfolding tell
  expiry-tell Report.online v e = expiry-set_online v e
  expiry-tell Report.heartbeat v e = expiry-set_online v e
  expiry-tell Report.offline v e = expiry-offline v e

agree :
    (b : Bool) (o p q : Option Time) (x : Time)
    → (p ≡ some x → q ≡ some x)
    → (if b then o else p) ≡ some x
    → (if b then o else q) ≡ some x
agree true o p q x h e = e
agree false o p q x h e = h e

pub tell-Represents :
    (clock now : Time) (r : Report) (u d : Uuid) (log : List Event) (p : Presences)
    → clock ≤ now
    → Represents clock log p
    → Represents now
        (record { report = r; user_id = u; device_id = d; at = now } ∷ log)
        (tell r u d now p)
unfolding latest
tell-Represents clock now r u d log p le h = record {
  unique = tell-Unique u d now p r h.unique;
  known = λ v e x s.
      agree (u == v && d == e) (until_of r now) (expiry v e p) (latest v e log) x (h.known v e x)
        (sym (expiry-tell u d now p r v e) ∙ s);
  kept = λ v e x s later.
      expiry-tell u d now p r v e
      ∙ agree (u == v && d == e) (until_of r now) (latest v e log) (expiry v e p) x
          (λ k. h.kept v e x k (omega arith)) s;
}

is_online_in-Unique :
    (u : Uuid) (now : Time) (o : Option (Map Uuid Time)) (p : Presences)
    → get p u ≡ o
    → ((v : Uuid) → Unique (devices_of v p))
    → (v : Uuid) → Unique (devices_of v (is_online_in u now o p).1)
unfolding is_online_in
is_online_in-Unique u now none p e h v = h v
is_online_in-Unique u now (some m) p e h v = rw get-put (
    if_both (λ o. Unique (devices_or_empty o)) (u == v) (some (scan_devices now m.entries m).1)
      (get p v) (scan-Unique now m.entries m (subst (λ o. Unique (devices_or_empty o)) e (h u)))
      (h v))

module _ (u : Uuid) (now : Time) (v d : Uuid) (x : Time) where
  scanned_known :
      (o : Option (Map Uuid Time)) (p : Presences)
      → get p u ≡ o
      → expiry v d (is_online_in u now o p).1 ≡ some x
      → expiry v d p ≡ some x
  unfolding is_online_in
  scanned_known none p e h = h
  scanned_known (some m) p e h = elim (Bool-cases (u == v)) [
    | inr n ↦ rw (get-put, n) at h
    | inl y ↦ rw (sym (same_user u v y), e) (scan_known now d x m.entries m (rw (get-put, y) at h))
  ]

  scanned_kept :
      (o : Option (Map Uuid Time)) (p : Presences)
      → get p u ≡ o
      → Unique (devices_or_empty o)
      → now < x
      → expiry v d p ≡ some x
      → expiry v d (is_online_in u now o p).1 ≡ some x
  unfolding is_online_in
  scanned_kept none p e q l h = h
  scanned_kept (some m) p e q l h = elim (Bool-cases (u == v)) [
    | inr n ↦ rw (get-put, n) h
    | inl y ↦
        rw (get-put, y)
          (scan_kept now d x m.entries m l
            (All-map (λ r. get m r.0 ≡ some r.1) (λ r. (r.0 == d) ≡ true → r.1 ≡ x) m.entries
              (λ r found same. one_expiry m r.0 d r.1 found same (stored y)) (range_found m q))
            (stored y))
  ]
    where
      stored : (u == v) ≡ true → get m d ≡ some x
      stored y = rw (sym (same_user u v y), e) at h

      one_expiry :
          (m : Map Uuid Time) (a b : Uuid) (z : Time)
          → get m a ≡ some z
          → (a == b) ≡ true
          → get m b ≡ some x
          → z ≡ x
      one_expiry m a b z f same g = cc (same_user a b same)

pub ask-Represents :
    (clock now : Time) (u : Uuid) (log : List Event) (p : Presences)
    → clock ≤ now
    → Represents clock log p
    → Represents now log (is_online u now p).1
unfolding is_online
ask-Represents clock now u log p le h = record {
  unique = is_online_in-Unique u now (get p u) p refl h.unique;
  known = λ v d x s. h.known v d x (scanned_known u now v d x (get p u) p refl s);
  kept = λ v d x s later.
      scanned_kept u now v d x (get p u) p refl (h.unique u) later (h.kept v d x s (omega arith));
}
