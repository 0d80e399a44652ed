-- ===== src/Compliance.antt =====
-- internal/compliance/memory.go: who has blocked whom (SetBlock, Blocks, Blocked, DeliverIfAllowed).
pub mod Model
pub mod Release
pub mod Cases
pub mod Intake
mod Examples
use clixor_backend.Prelude.{
  Option, none, some, Bool, true, false, ◌||◌, if◌then◌else◌, ◌==◌, nat_eq, pair_eq, List, [], ◌∷◌,
  sort_by, ltb,
}
use clixor_backend.Map.{Map, get, put, delete}
use clixor_backend.Domain.{Uuid, Result, ok, err, invalid}

-- Memory.blocks
abbrev pub Blocks : Type 0
Blocks = Map (Uuid × Uuid) Bool

-- A missing key reads false.
abbrev pub or_false : Option Bool → Bool
or_false none = false
or_false (some b) = b

-- SetBlock
unfoldable pub set_block : Uuid → Uuid → Bool → Blocks → Result (Unit {0}) × Blocks
set_block a b block blocks =
    if a == 0 || b == 0 || a == b
    then (err invalid, blocks)
    else (ok tt, if block then put blocks (a, b) true else delete blocks (a, b))

-- Blocked
unfoldable pub blocked_between : Uuid → Uuid → Blocks → Bool
blocked_between a b blocks = or_false (get blocks (a, b)) || or_false (get blocks (b, a))

-- DeliverIfAllowed, whose mutex is held for the whole call; `send` runs in the state `s` of its own
-- component. It answers whether the delivery was allowed, and the error of `send`.
unfoldable pub deliver_if_allowed {ℓ κ} :
    {S : Type ℓ} {E : Type κ}
    → Uuid
    → Uuid
    → Blocks
    → (S → Option E × S)
    → S
    → (Bool × Option E) × S
unfolding blocked_between
deliver_if_allowed a b blocks send s =
    let sent = send s in
    if blocked_between a b blocks then ((false, none), s) else ((true, sent.0), sent.1)

unfoldable pub blocked_by : Uuid → List ((Uuid × Uuid) × Bool) → List Uuid
blocked_by a [] = []
blocked_by a ((pair, v) ∷ ps) =
    let rest = blocked_by a ps in if pair.0 == a then pair.1 ∷ rest else rest

-- Blocks
unfoldable pub blocks_of : Uuid → Blocks → List Uuid
unfolding blocked_by
blocks_of a blocks = sort_by ltb (blocked_by a blocks.entries)
