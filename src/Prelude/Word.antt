-- ===== src/Prelude/Word.antt =====
-- Go's int64 counters, as the bit patterns that `++` steps through.
use Prim.Native.Nat.{ℕ, ◌+◌, ◌%◌, ◌<◌}
use mathlib.Core.Path.{◌≡◌}
use mathlib.Core.Bool.{Bool, ◌&&◌}
use native.Mathlib.Omega.{arith}
use clixor_backend.Prelude.Tests.{leb, ltb}

abbrev pub max_int64 : ℕ
max_int64 = 9223372036854775807

-- x++ on an int64 or an int.
unfoldable pub inc64 : ℕ → ℕ
inc64 n = (n + 1) % 18446744073709551616

-- Below the greatest int64 the increment does not wrap.
pub inc64_lem : (n : ℕ) → n < max_int64 → inc64 n ≡ n + 1
unfolding inc64
inc64_lem n h = omega arith

-- a + b on int64, as bit patterns.
unfoldable pub add64 : ℕ → ℕ → ℕ
add64 a b = (a + b) % 18446744073709551616

-- a > limit on int64, where `limit` is not negative: a pattern from 2^63 on is a negative number.
abbrev pub exceeds : ℕ → ℕ → Bool
exceeds a limit = leb a max_int64 && ltb limit a
