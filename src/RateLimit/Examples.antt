-- ===== src/RateLimit/Examples.antt =====
-- The window bound on a key with one counted call.
use clixor_backend.Prelude.{◌≤◌, ◌-◌, [], ◌∷◌, arith, refl, string_eq}
use clixor_backend.Map.{get, find}
use clixor_backend.RateLimit.{RateWindow}
use clixor_backend.RateLimit.Window.{allowed, allowed_bounded}

abbrev one_call : RateWindow
one_call = record { count = 1; expires = 60 }

allowed_bounded_example :
    allowed "login" 2 60 (10 ∷ 20 ∷ 30 ∷ []) (record { entries = ("login", one_call) ∷ [] }) ≤ 2 - 1
allowed_bounded_example =
    allowed_bounded "login" 2 60 (10 ∷ 20 ∷ 30 ∷ []) (record { entries = ("login", one_call) ∷ [] })
      one_call (unfold get find in refl) (omega arith, (omega arith, (omega arith, tt)))
      (omega arith)
