-- ===== src/Presence/History.antt =====
-- Presence told from the history of the calls alone, without the maps of internal/presence: the
-- specification of Online, Heartbeat, Offline and IsOnline.
use clixor_backend.Prelude.{
  ◌+◌, ◌≡◌, ◌<◌, Option, none, some, List, [], ◌∷◌, Bool, true, false, if◌then◌else◌, ◌==◌, ◌&&◌,
  ◌||◌, not, nat_eq, exists, arith, refl, Bool-cases, inl, inr, subst, ltb→lt,
}
use clixor_backend.Map.Laws.{beq_refl}
use clixor_backend.Domain.{Uuid, Time, after}
use clixor_backend.Presence.{online_for}

-- The calls of the interface, and the history of those that report a device, newest first.
pub data Report : Type 0 where
  online heartbeat offline : Report

pub record Event : Type 0 where
  pub report : Report
  pub user_id : Uuid
  pub device_id : Uuid
  pub at : Time

pub data Call : Type 0 where
  report : Report → Uuid → Uuid → Call
  ask : Uuid → Call

abbrev pub until_of : Report → Time → Option Time
until_of online at = some (at + online_for)
until_of heartbeat at = some (at + online_for)
until_of offline at = none

-- Until when the newest report about a device holds; none where it is Offline or missing.
unfoldable pub latest : Uuid → Uuid → List Event → Option Time
latest u d [] = none
latest u d (e ∷ es) =
    let rest = latest u d es in
    if e.user_id == u && e.device_id == d then until_of e.report e.at else rest

pub latest-none : (u d : Uuid) → latest u d [] ≡ none
unfolding latest
latest-none u d = refl

abbrev pub lasts : Time → Option Time → Bool
lasts now none = false
lasts now (some x) = after x now

-- Some device of the user, of those not in `told`, was reported online within the last 70 seconds
-- and nothing was reported of it since.
unfoldable pub online_in : Uuid → Time → List Uuid → List Event → Bool
online_in u now told [] = false
online_in u now told (e ∷ es) =
    let others = online_in u now (e.device_id ∷ told) es in
    let rest = online_in u now told es in
    if e.user_id == u && not (exists (λ d. d == e.device_id) told)
    then lasts now (until_of e.report e.at) || others
    else rest

-- The answers that the calls get, for a history.
unfoldable pub replay : List (Time × Call) → List Event → List Bool
replay [] log = []
replay ((now, Call.report r u d) ∷ cs) log =
    replay cs (record { report = r; user_id = u; device_id = d; at = now } ∷ log)
replay ((now, Call.ask u) ∷ cs) log = online_in u now [] log ∷ replay cs log

device_same : (d e : Uuid) → (d == e) ≡ true → d ≡ e
device_same d e h = ground arith

either_true : (a b : Bool) → b ≡ true → (a || b) ≡ true
either_true true b h = refl
either_true false b h = h

either_false : (a b : Bool) → (a || b) ≡ false → (a ≡ false) × (b ≡ false)
either_false true b h = (cc, cc)
either_false false b h = (refl, h)

told_other :
    (told : List Uuid) (d e : Uuid)
    → exists (λ j. j == d) told ≡ true
    → exists (λ j. j == e) told ≡ false
    → (d == e) ≡ false
told_other told d e seen untold = elim (Bool-cases (d == e)) [
  | inl same ↦ cc (subst (λ x. exists (λ j. j == x) told ≡ true) (device_same d e same) seen)
  | inr other ↦ other
]

module _ (u : Uuid) (now : Time) where
  lasts-some : {x : Time} (o : Option Time) → o ≡ some x → now < x → lasts now o ≡ true
  lasts-some none h l = cc
  lasts-some (some y) h l = ground arith

  -- A device whose newest report holds makes its user online.
  pub latest_online :
      (told : List Uuid) (d : Uuid) (x : Time) (es : List Event)
      → latest u d es ≡ some x
      → now < x
      → exists (λ e. e == d) told ≡ false
      → online_in u now told es ≡ true
  unfolding latest online_in
  latest_online told d x [] h l fresh = cc
  latest_online told d x (e ∷ es) h l fresh = elim (Bool-cases (e.user_id == u)) [
    | inr n ↦ rw n (latest_online told d x es (rw n at h) l fresh)
    | inl y ↦ elim (Bool-cases (e.device_id == d)) [
      | inl same ↦
          rw (y, device_same e.device_id d same, fresh, lasts-some _ (rw (y, same) at h) l) refl
      | inr other ↦ elim (Bool-cases (exists (λ j. j == e.device_id) told)) [
        | inl seen ↦ rw (y, seen) (latest_online told d x es (rw (y, other) at h) l fresh)
        | inr unseen ↦
            rw (y, unseen)
              (either_true _ _
                (latest_online (e.device_id ∷ told) d x es (rw (y, other) at h) l (rw other fresh)))
      ]
    ]
  ]

  -- A device outside `told` whose newest report holds.
  pub record Lasting (told : List Uuid) (es : List Event) : Type 0 where
    pub device : Uuid
    pub until : Time
    pub newest : latest u device es ≡ some until
    pub holds : now < until
    pub untold : exists (λ j. j == device) told ≡ false

  lasts_until : (o : Option Time) → lasts now o ≡ true → (x : Time) × (o ≡ some x) × (now < x)
  lasts_until none h = cc
  lasts_until (some x) h = (x, refl, ltb→lt now x h)

  -- A report of another device, or of another user, changes nothing.
  passed :
      (told : List Uuid) (e : Event) (es : List Event)
      → (h : Lasting told es) → (e.user_id == u && e.device_id == h.device) ≡ false
      → Lasting told (e ∷ es)
  unfolding latest
  passed told e es h other = record {
    device = h.device;
    until = h.until;
    newest = rw (other, h.newest) refl;
    holds = h.holds;
    untold = h.untold;
  }

  -- And only such a device does.
  pub online_latest :
      (told : List Uuid) (es : List Event) → online_in u now told es ≡ true → Lasting told es
  unfolding latest online_in
  online_latest told [] h = cc
  online_latest told (e ∷ es) h = elim (Bool-cases (e.user_id == u)) [
    | inr n ↦ passed told e es (online_latest told es (rw n at h)) (rw n refl)
    | inl y ↦ elim (Bool-cases (exists (λ j. j == e.device_id) told)) [
      | inl seen ↦
          let r = online_latest told es (rw (y, seen) at h) in
          passed told e es r (rw y (told_other told e.device_id r.device seen r.untold))
      | inr unseen ↦ elim (Bool-cases (lasts now (until_of e.report e.at))) [
        | inl now_on ↦
            let (x, newest, holds) = lasts_until (until_of e.report e.at) now_on in
            record {
              device = e.device_id;
              until = x;
              newest = rw (y, beq_refl e.device_id, newest) refl;
              holds = holds;
              untold = unseen;
            }
        | inr off ↦
            let r = online_latest (e.device_id ∷ told) es (rw (y, unseen, off) at h) in
            let (other, untold) =
              either_false (e.device_id == r.device) (exists (λ j. j == r.device) told) r.untold in
            passed told e es
              (record {
                device = r.device;
                until = r.until;
                newest = r.newest;
                holds = r.holds;
                untold = untold;
              })
              (rw (y, other) refl)
      ]
    ]
  ]
