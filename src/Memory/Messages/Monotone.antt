-- ===== src/Memory/Messages/Monotone.antt =====
-- UpsertReceipt: receipts only move forward.
use clixor_backend.Prelude.{
  ◌≤◌, some, false, ◌≡◌, refl, sym, ◌∙◌, subst, if_cases, if_both, ◌==◌, nat_eq, pair_eq, arith,
}
use clixor_backend.Map.{get, put}
use clixor_backend.Map.Laws.{get-put}
use clixor_backend.Domain.{Uuid, Time, Result}
use clixor_backend.Domain.Chat.{Receipt}
use clixor_backend.Memory.{Store}
use clixor_backend.Memory.Outbox.{append_outbox, append_outbox_at, is_set}
use clixor_backend.Memory.Invites.{member_of}
use clixor_backend.Memory.Messages.{
  receipt_or_zero, receipt_key, regresses, stamp_receipt, store_receipt, upsert_receipt,
}

-- The second receipt is as far as the first, in both sequence numbers.
abbrev pub Ahead : Receipt → Receipt → Type 0
Ahead old new = (old.delivered_seq ≤ new.delivered_seq) × (old.read_seq ≤ new.read_seq)

not_regressing :
    (receipt current : Receipt) → regresses receipt current ≡ false → Ahead current receipt
unfolding regresses
not_regressing receipt current h = (ground arith, ground arith)

stamp_receipt_lem :
    (now : Time) (old receipt : Receipt)
    → (Ahead old receipt → Ahead old (stamp_receipt now receipt))
      × (receipt_key (stamp_receipt now receipt) ≡ receipt_key receipt)
unfolding stamp_receipt
stamp_receipt_lem now old receipt = (λ h. h, refl)

receipts-store_receipt :
    (now : Time) (receipt : Receipt) (s : Store)
    → (store_receipt now receipt s).receipts ≡ put s.receipts (receipt_key receipt) receipt
unfolding store_receipt append_outbox append_outbox_at
receipts-store_receipt now receipt s = refl

stored-Ahead :
    (now : Time) (receipt : Receipt) (s : Store) (k : Uuid × Uuid)
    → regresses receipt (receipt_or_zero (get s.receipts (receipt_key receipt))) ≡ false
    → Ahead
        (receipt_or_zero (get s.receipts k))
        (receipt_or_zero (get (store_receipt now (stamp_receipt now receipt) s).receipts k))
stored-Ahead now receipt s k h =
    rw (receipts-store_receipt, get-put)
      (if_cases (λ o. Ahead (receipt_or_zero (get s.receipts k)) (receipt_or_zero o))
        (receipt_key (stamp_receipt now receipt) == k) (some (stamp_receipt now receipt))
        (get s.receipts k)
        (λ e. (stamp_receipt_lem now (receipt_or_zero (get s.receipts k)) receipt).0 (
          subst (λ j. Ahead (receipt_or_zero (get s.receipts j)) receipt)
            (sym (stamp_receipt_lem now receipt receipt).1
              ∙ ((pair_eq.beq_iff (receipt_key (stamp_receipt now receipt)) k).0 e))
            (not_regressing receipt _ h)))
        (λ _. (omega arith, omega arith)))

-- Receipts never move back: whatever receipt is upserted, by whom and at any time, and on every
-- branch, the delivered and the read sequence numbers under every key of the map of receipts,
-- a missing one counting as zero, are at least what they were.
pub upsert_receipt_monotone :
    (now : Time) (receipt : Receipt) (s : Store) (k : Uuid × Uuid)
    → Ahead
        (receipt_or_zero (get s.receipts k))
        (receipt_or_zero (get (upsert_receipt now receipt s).1.receipts k))
unfolding upsert_receipt
upsert_receipt_monotone now receipt s k =
    if_both {A = Result Receipt × Store} P
      (is_set (member_of receipt.conversation_id receipt.user_id s)) _ _
      (if_cases {A = Result Receipt × Store} P
        (regresses receipt (receipt_or_zero (get s.receipts (receipt_key receipt)))) _ _
        (λ _. (omega arith, omega arith)) (λ h. stored-Ahead now receipt s k h))
      (omega arith, omega arith)
  where
    P : Result Receipt × Store → Type 0
    P q = Ahead (receipt_or_zero (get s.receipts k)) (receipt_or_zero (get q.1.receipts k))
