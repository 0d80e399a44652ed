-- ===== src/RateLimit/Window.antt =====
-- Within one window a key is allowed at most `limit` times.
use clixor_backend.Prelude.{
  ℕ, ◌+◌, ◌-◌, ◌≤◌, ◌<◌, ◌≡◌, String, List, [], ◌∷◌, some, All, length, arith, string_eq, refl,
  if◌then◌else◌, max_int64, inc64, inc64_lem, leb,
}
use clixor_backend.Map.{Map, get, put}
use clixor_backend.Map.Laws.{get-put, beq_refl}
use clixor_backend.Domain.{Time}
use clixor_backend.RateLimit.{RateWindow, current_window, count_call, allow}

module _ (key : String) (limit : ℕ) (duration : Time) where
  -- How many of the calls for the key at these times are allowed.
  pub allowed : List Time → Map String RateWindow → ℕ
  allowed [] m = 0
  allowed (t ∷ ts) m =
      let r = allow t key limit duration m in
      let rest = allowed ts r.1 in if r.0 then rest + 1 else rest

  in_window : (t : Time) (w : RateWindow) → t ≤ w.expires → current_window t duration w ≡ w
  unfolding current_window
  in_window t w h = ground arith

  allow_in_window :
      (t : Time) (m : Map String RateWindow) (w : RateWindow)
      → get m key ≡ some w
      → t ≤ w.expires
      → allow t key limit duration m ≡ (leb (inc64 w.count) limit, put m key (count_call w))
  unfolding allow count_call
  allow_in_window t m w f h = rw (f, in_window t w h) refl

  counted :
      (w : RateWindow) (m : Map String RateWindow)
      → get (put m key (count_call w)) key ≡ some (count_call w)
  counted w m = rw (get-put, beq_refl key) refl

  count_call_lem :
      (w : RateWindow)
      → w.count < max_int64
      → ((count_call w).count ≡ w.count + 1) × ((count_call w).expires ≡ w.expires)
  unfolding count_call
  count_call_lem w h = (inc64_lem w.count h, refl)

  step :
      (t : Time) (ts : List Time) (m : Map String RateWindow) (w : RateWindow)
      → get m key ≡ some w
      → t ≤ w.expires
      → w.count < max_int64
      → allowed ts (put m key (count_call w)) ≤ limit - (count_call w).count
      → allowed (t ∷ ts) m ≤ limit - w.count
  unfolding allowed
  step t ts m w f h b r =
      rw (allow_in_window t m w f h, inc64_lem w.count b)
        (ground (arith, r, (count_call_lem w b).0))

  -- A window is a budget: calls for one key that all come before its window closes are allowed at
  -- most as often as the limit leaves after the calls already counted, whatever their number, as
  -- long as the counter does not overflow.
  pub allowed_bounded :
      (ts : List Time) (m : Map String RateWindow) (w : RateWindow)
      → get m key ≡ some w
      → All (λ t. t ≤ w.expires) ts
      → w.count + length ts < max_int64
      → allowed ts m ≤ limit - w.count
  unfolding allowed
  allowed_bounded [] m w f h b = omega arith
  allowed_bounded (t ∷ ts) m w f h b = step t ts m w f h.0 (omega arith) (
      allowed_bounded ts (put m key (count_call w)) (count_call w) (counted w m)
        (rw ((count_call_lem w (omega arith)).1) h.1)
        (omega (arith, (count_call_lem w (omega arith)).0)))
