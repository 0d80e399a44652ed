-- ===== src/Memory/Mail/Prune.antt =====
-- internal/store/memory/mail_delivery.go: PruneMailDeliveries. A candidate is the key of its row
-- with the time that made it eligible.
use clixor_backend.Prelude.{
  ℕ, Option, none, some, List, [], ◌∷◌, if◌then◌else◌, ◌==◌, nat_eq, ltb, length, sort_by, take,
  Bool,
}
use clixor_backend.Map.{Map, delete}
use clixor_backend.Domain.{Uuid, Time, Result, ok, err, invalid, before}
use clixor_backend.Domain.Delivery.{MailDelivery, MailStatus, delivered, dead_letter, canceled}
use clixor_backend.Memory.{Store}
use clixor_backend.Memory.Mail.{bad_limit}

-- t, if it is set and before the cutoff
abbrev pub past : Option Time → Time → Option Time
past none cutoff = none
past (some t) cutoff = if before t cutoff then some t else none

-- The three cutoffs of a call.
pub record Cutoffs : Type 0 where
  pub delivered_before : Time
  pub dead_letter_before : Time
  pub canceled_before : Time

-- The switch of the loop; `none` is its default case.
unfoldable pub eligible_at : Cutoffs → MailStatus → MailDelivery → Option Time
eligible_at c delivered d = past d.delivered_at c.delivered_before
eligible_at c dead_letter d = past d.dead_lettered_at c.dead_letter_before
eligible_at c canceled d = past d.canceled_at c.canceled_before
eligible_at c _ d = none

abbrev pub with_candidate : Uuid → Option Time → List (Uuid × Time) → List (Uuid × Time)
with_candidate id none cs = cs
with_candidate id (some at) cs = (id, at) ∷ cs

unfoldable pub mail_candidates : Cutoffs → List (Uuid × MailDelivery) → List (Uuid × Time)
unfolding eligible_at
mail_candidates c [] = []
mail_candidates c ((id, d) ∷ es) =
    with_candidate id (eligible_at c d.status d) (mail_candidates c es)

abbrev pub candidate_order : Uuid × Time → Uuid × Time → Bool
candidate_order a b = if a.1 == b.1 then ltb a.0 b.0 else before a.1 b.1

unfoldable pub delete_candidates :
    List (Uuid × Time) → Map Uuid MailDelivery → Map Uuid MailDelivery
delete_candidates [] m = m
delete_candidates ((id, at) ∷ cs) m = delete_candidates cs (delete m id)

unfoldable pub prune_mail_deliveries : Cutoffs → ℕ → Store → Result ℕ × Store
unfolding mail_candidates delete_candidates
prune_mail_deliveries c limit s =
    let candidates =
      take limit (sort_by candidate_order (mail_candidates c s.mail_deliveries.entries)) in
    if bad_limit limit then (err invalid, s) else (
      ok (length candidates),
      record s { mail_deliveries = delete_candidates candidates s.mail_deliveries },
    )
