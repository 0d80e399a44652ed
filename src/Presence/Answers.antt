-- ===== src/Presence/Answers.antt =====
-- internal/presence/presence.go: every sequence of calls answers as its history does.
use clixor_backend.Prelude.{
  ◌≤◌, ◌<◌, ◌≡◌, refl, ap, sym, ◌∙◌, some, List, [], ◌∷◌, Bool, true, false, arith, All, nat_eq,
  Bool-cases, inl, inr, ltb→lt,
}
use clixor_backend.Map.{Map, empty, get}
use clixor_backend.Map.Laws.{get-empty}
use clixor_backend.Map.Unique.{range_found, empty-Unique}
use clixor_backend.Domain.{Uuid, Time, after}
use clixor_backend.Presence.{Presences, is_online}
use clixor_backend.Presence.Expiry.{some_unexpired, is_online_lem, unexpired_found}
use clixor_backend.Presence.History.{
  Event, Call, online_in, replay, latest-none, latest_online, online_latest, Lasting,
}
use clixor_backend.Presence.Refines.{run, devices_of, Represents, tell-Represents, ask-Represents}

same_bool : (a b : Bool) → (a ≡ true → b ≡ true) → (b ≡ true → a ≡ true) → a ≡ b
same_bool true b f g = sym (f refl)
same_bool false true f g = g refl
same_bool false false f g = refl

-- An entry that has not expired.
unexpired_entry :
    (now : Time) (m : Map Uuid Time) (es : List (Uuid × Time))
    → All (λ r. get m r.0 ≡ some r.1) es
    → some_unexpired now es ≡ true
    → (d : Uuid) × (x : Time) × (get m d ≡ some x) × (now < x)
unexpired_entry now m [] a h = cc
unexpired_entry now m ((d, x) ∷ es) a h = elim (Bool-cases (after x now)) [
  | inl on ↦ (d, x, a.0, ltb→lt now x on)
  | inr off ↦ unexpired_entry now m es a.1 (rw off at h)
]

module _ (clock now : Time) (u : Uuid) (log : List Event) (p : Presences) where
  answer : clock ≤ now → Represents clock log p → (is_online u now p).0 ≡ online_in u now [] log
  answer le h =
      is_online_lem u now p
      ∙ same_bool (some_unexpired now (devices_of u p).entries) (online_in u now [] log)
          (λ on.
            let (d, x, found, later) =
              unexpired_entry now (devices_of u p) (devices_of u p).entries
                (range_found (devices_of u p) (h.unique u)) on in
            latest_online u now [] d x log (h.known u d x found) later refl)
          (λ on. unexpired (online_latest u now [] log on))
    where
      unexpired : Lasting u now [] log → some_unexpired now (devices_of u p).entries ≡ true
      unexpired l =
          unexpired_found l.device l.until now (devices_of u p).entries
            (unfold get in h.kept u l.device l.until l.newest (omega (arith, le, l.holds))) l.holds

-- The clock does not go back.
abbrev pub Ordered : Time → List (Time × Call) → Type 0
Ordered clock [] = Unit
Ordered clock ((now, c) ∷ cs) = (clock ≤ now) × Ordered now cs

run-replay :
    (cs : List (Time × Call)) (clock : Time) (log : List Event) (p : Presences)
    → Ordered clock cs
    → Represents clock log p
    → run cs p ≡ replay cs log
unfolding run replay
run-replay [] clock log p o h = refl
run-replay ((now, Call.report r u d) ∷ cs) clock log p o h =
    run-replay cs now _ _ o.1 (tell-Represents clock now r u d log p o.0 h)
run-replay ((now, Call.ask u) ∷ cs) clock log p o h =
    ap (λ b. b ∷ run cs (is_online u now p).1) (answer clock now u log p o.0 h)
    ∙ ap (λ bs. online_in u now [] log ∷ bs)
        (run-replay cs now log _ o.1 (ask-Represents clock now u log p o.0 h))

-- Presence refines its history: from the empty maps, any sequence of Online, Heartbeat, Offline and
-- IsOnline calls, at times that do not go back, gets exactly the answers that the history of
-- the calls gives, by which a user is online when some device of theirs was reported online within
-- the last 70 seconds and nothing was reported of that device since, although IsOnline deletes
-- expired devices and stops at the first that has not expired.
pub presence_refines : (cs : List (Time × Call)) → Ordered 0 cs → run cs empty ≡ replay cs []
presence_refines cs o = run-replay cs 0 [] empty o nothing
  where
    nothing : Represents 0 [] empty
    nothing = record {
      unique = λ u. rw get-empty (empty-Unique Uuid Time);
      known = λ u d x h. cc (rw (get-empty, get-empty) at h);
      kept = λ u d x h l. cc (latest-none u d);
    }
