-- ===== src/Text/Laws.antt =====
-- Lowering twice is lowering once.
use clixor_backend.Prelude.{ℕ, List, [], ◌∷◌, ◌≡◌, refl, arith}
use clixor_backend.Text.{lower, to_lower}

lower-lower : (c : ℕ) → lower (lower c) ≡ lower c
unfolding lower
lower-lower c = ground arith

pub to_lower-to_lower : (cs : List ℕ) → to_lower (to_lower cs) ≡ to_lower cs
unfolding to_lower
to_lower-to_lower [] = refl
to_lower-to_lower (c ∷ cs) = rw (lower-lower c, to_lower-to_lower cs)
