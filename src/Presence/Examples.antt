-- ===== src/Presence/Examples.antt =====
-- Two users with one device each.
use clixor_backend.Prelude.{◌≡◌, List, [], ◌∷◌, arith, nat_eq}
use clixor_backend.Map.{empty}
use clixor_backend.Domain.{Time}
use clixor_backend.Presence.History.{Call, Report, replay}
use clixor_backend.Presence.Refines.{run}
use clixor_backend.Presence.Answers.{presence_refines}

-- A device comes and goes; another one runs out.
abbrev afternoon : List (Time × Call)
afternoon =
    (5, Call.report Report.online 1 7)
    ∷ (6, Call.ask 1)
    ∷ (9, Call.report Report.offline 1 7)
    ∷ (10, Call.report Report.heartbeat 1 8)
    ∷ (80_000_000_000, Call.ask 1)
    ∷ []

presence_refines_example : run afternoon empty ≡ replay afternoon []
presence_refines_example =
    presence_refines afternoon
      (omega arith, (omega arith, (omega arith, (omega arith, (omega arith, tt)))))
