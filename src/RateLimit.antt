-- ===== src/RateLimit.antt =====
-- internal/ratelimit/limiter.go: the in-memory fixed-window limiter. Its mutex makes `allow` one
-- step; `now` is the reading of time.Now(), at or after the zero time 0.
pub mod Window
mod Examples
use clixor_backend.Prelude.{
  ℕ, ◌+◌, String, Option, none, some, Bool, ◌==◌, string_eq, if◌then◌else◌, leb, inc64,
}
use clixor_backend.Map.{Map, get, put}
use clixor_backend.Domain.{Time, before}

-- type window struct
pub record RateWindow : Type 0 where
  pub count : ℕ
  pub expires : Time

-- m.windows[key], the zero window where it is missing.
abbrev pub window_or_zero : Option RateWindow → RateWindow
window_or_zero none = record { count = 0; expires = 0 }
window_or_zero (some w) = w

-- The window that this call counts in, before it is counted.
unfoldable pub current_window : Time → Time → RateWindow → RateWindow
current_window now duration w =
    if before w.expires now then record { count = 0; expires = now + duration } else w

unfoldable pub count_call : RateWindow → RateWindow
count_call w = record w { count = inc64 w.count }

-- Memory.Allow: whether the call is allowed, and the new windows.
unfoldable pub allow :
    Time → String → ℕ → Time → Map String RateWindow → Bool × Map String RateWindow
unfolding current_window count_call
allow now key limit duration windows =
    let current = count_call (current_window now duration (window_or_zero (get windows key))) in
    (leb current.count limit, put windows key current)
